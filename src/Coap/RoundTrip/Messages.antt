-- ===== src/Coap/RoundTrip/Messages.antt =====
-- Whole messages over UDP: what `coap_serialize_message` writes, `coap_udp_parse_message` reads back.
use knx_iot_stack.Prelude.{
  ℕ, zero, suc, ◌+◌, ◌*◌, ◌/◌, ◌%◌, ◌^◌, ◌≤◌, ◌<◌, ◌≡◌, refl, ap, ◌∙◌, arith, append_assoc, some,
  Bool, true, false, not, ◌&&◌, List, [], ◌∷◌, ◌++◌, ltb, leb, ◌==◌, if◌then◌else◌, length, take,
  bit_and, bit_or, take-append, drop-append, length-append,
}
use knx_iot_stack.Prelude.Bits.{bit_and-ones, bit_and-shifted, bit_or_add}
use knx_iot_stack.Coap.Options.{is_payload_marker}
use knx_iot_stack.Coap.Packet.{Packet, empty_packet}
use knx_iot_stack.Coap.Parse.{
  parsed, take_payload, parse_one, parse_loop, parse_options, parse_token, udp_parse_message,
}
use knx_iot_stack.Coap.Serialize.{
  serialize_options, udp_header, pack_payload, max_header_size, marker_length, serialize_message,
  outer_message,
}
use knx_iot_stack.Coap.RoundTrip.{IsSendable, with_options}
use knx_iot_stack.Coap.RoundTrip.Steps.{reads}
use knx_iot_stack.Coap.RoundTrip.Options.{header_only, reads-serialize_options}

-- The payload behind its marker, if there is one.
abbrev marked : List ℕ → List ℕ
marked payload = if ltb 0 (length payload) then 0xFF ∷ payload else []

take_within : (n : ℕ) (xs : List ℕ) → length xs ≤ n → take n xs ≡ xs
take_within zero [] h = refl
take_within zero (x ∷ xs) h = absurd (omega (arith, h))
take_within (suc n) [] h = refl
take_within (suc n) (x ∷ xs) h = ap (λ l. x ∷ l) (take_within n xs (omega (arith, h)))

reads-marked :
    (max_app_data_size number : ℕ) (inner outer oscore : Bool) (q : Packet) (payload : List ℕ)
    → q.payload ≡ []
    → length payload ≤ max_app_data_size
    → reads max_app_data_size inner outer oscore (marked payload) number q
      ≡ parsed (record q { payload = payload })
unfolding parse_loop parse_one take_payload is_payload_marker
reads-marked m number inner outer oscore q [] e h = ap (λ p. parsed (record q { payload = p })) e
reads-marked m number inner outer oscore q (x ∷ payload) n h =
    let e : marked (x ∷ payload) ≡ 0xFF ∷ x ∷ payload = ground arith in
    ap (λ l. reads m inner outer oscore l number q) e
    ∙ ap (λ p. parsed (record q { payload = p })) (take_within m (x ∷ payload) h)

-- The fields of the first byte of the header.
module _ (kind tkl : ℕ) (hk : kind < 4) (ht : tkl ≤ 8) where
  abbrev first_byte : ℕ
  first_byte = bit_or (bit_or 64 (bit_and (kind * 2 ^ 4) 0x30)) (bit_and tkl 0x0F)

  first_byte_lem : first_byte ≡ (4 + kind) * 16 + tkl
  first_byte_lem =
      let k : bit_and (kind * 2 ^ 4) 0x30 ≡ kind * 16 =
        omega (arith, bit_and-shifted 4 (kind * 2 ^ 4) 3, bit_and-ones 2 (kind * 2 ^ 4 / 2 ^ 4)) in
      let t : bit_and tkl 0x0F ≡ tkl = omega (arith, bit_and-ones 4 tkl) in
      let v : bit_or 64 (kind * 16) ≡ (4 + kind) * 16 =
        bit_or_add 6 1 (kind * 16) (omega arith) ∙ omega arith in
      rw (k, t, v) (bit_or_add 4 (4 + kind) tkl (omega arith))

  first_byte_fields :
      (bit_and first_byte 0xC0 / 2 ^ 6 ≡ 1)
      × (bit_and first_byte 0x30 / 2 ^ 4 ≡ kind)
      × (bit_and first_byte 0x0F ≡ tkl)
  first_byte_fields = rw first_byte_lem (
    omega (
      arith,
      bit_and-shifted 6 ((4 + kind) * 16 + tkl) 3,
      bit_and-ones 2 (((4 + kind) * 16 + tkl) / 2 ^ 6),
    ),
    omega (
      arith,
      bit_and-shifted 4 ((4 + kind) * 16 + tkl) 3,
      bit_and-ones 2 (((4 + kind) * 16 + tkl) / 2 ^ 4),
    ),
    omega (arith, bit_and-ones 4 ((4 + kind) * 16 + tkl)),
  )

mid_lem : (mid : ℕ) → mid < 2 ^ 16 → bit_or (mid / 2 ^ 8 % 256 * 256) (mid % 256) ≡ mid
mid_lem mid h = bit_or_add 8 (mid / 2 ^ 8 % 256) (mid % 256) (omega arith) ∙ omega (arith, h)

-- A packet that has a header in range.
pub record HasHeader (pkt : Packet) : Type 0 where
  pub kind_range : pkt.kind < 4
  pub mid_range : pkt.mid < 2 ^ 16
  pub token_length : length pkt.token ≤ 8

parse_token-read :
    (max_app_data_size : ℕ) (token rest : List ℕ) (q : Packet)
    → q.version ≡ 1
    → length token ≤ 8
    → parse_token max_app_data_size (length token) (token ++ rest) q
      ≡ parse_options max_app_data_size true true false rest (record q { token = token })
unfolding parse_token
parse_token-read m token rest q v l =
    let good : not (q.version == 1) ≡ false = ground arith in
    let short : ltb 8 (length token) ≡ false = ground arith in
    let enough : ltb (length (token ++ rest)) (length token) ≡ false =
      ground (arith, length-append token rest) in
    rw (good, short, enough, take-append token rest, drop-append token rest) refl

-- The packet that the parser has behind the token.
abbrev pub header : Packet → Packet
header pkt = header_only 1 pkt.kind pkt.code pkt.mid pkt.token

module _ (max_app_data_size : ℕ) (pkt : Packet) (h : HasHeader pkt) where
  -- A header and a token are read back, and the options are parsed next.
  parse-udp_header :
      (rest : List ℕ)
      → udp_parse_message max_app_data_size
          (udp_header (record pkt { version = 1 }) ++ (pkt.token ++ rest))
        ≡ reads max_app_data_size true true false rest 0 (header pkt)
  unfolding udp_parse_message udp_header parse_options empty_packet
  parse-udp_header rest =
      let (v, k, t) = first_byte_fields pkt.kind (length pkt.token) h.kind_range h.token_length in
      rw (v, k, t, mid_lem pkt.mid h.mid_range)
        (parse_token-read max_app_data_size pkt.token rest
          (header_only 1 pkt.kind pkt.code pkt.mid []) refl h.token_length)

-- A message that is not empty and whose header is not too long is serialised.
outer_message-some :
    (pkt : Packet) (options : List ℕ)
    → length options + marker_length pkt + length pkt.token + 4 ≤ max_header_size
    → (pkt.code == 0 && length pkt.token == 0) ≡ false
    → outer_message pkt options
      ≡ some ((udp_header pkt ++ pkt.token ++ options) ++ marked pkt.payload)
unfolding outer_message pack_payload udp_header
outer_message-some pkt options h n =
    let short : ltb max_header_size (length options + marker_length pkt + length pkt.token + 4)
        ≡ false =
      ground arith in
    let room : leb (length (udp_header pkt ++ pkt.token ++ options)) max_header_size ≡ true =
      ground (arith, length-append pkt.token options) in
    rw (short, n, room) refl

regroup : (a b c d : List ℕ) → (a ++ b ++ c) ++ d ≡ a ++ (b ++ (c ++ d))
regroup a b c d = simp append_assoc

module _ (behind : ℕ → ℕ × ℕ) (stale : List ℕ) (pkt : Packet) where
  abbrev sent : Packet
  sent = record pkt { version = 1 }

  abbrev pub options : List ℕ
  options = (serialize_options true true false sent behind stale).bytes

  -- The packet that arrives.
  abbrev pub received : Packet
  received = record (with_options true true false sent (header pkt)) { payload = pkt.payload }

  -- A message whose header takes at most COAP_MAX_HEADER_SIZE bytes is serialised, and is parsed without
  -- error, whatever the memory behind its texts holds: the header, the token, the payload and each field
  -- whose option is set arrive as they are in the packet, the offset of a block is computed from its
  -- number and size, the other fields are zero or empty. The packet's fields are in their ranges, its
  -- code is not zero or its token not empty, and the payload is not longer than OC_MAX_APP_DATA_SIZE.
  pub udp_parse_message-serialize_message :
      (max_app_data_size : ℕ)
      → HasHeader pkt
      → IsSendable pkt
      → (pkt.code == 0 && length pkt.token == 0) ≡ false
      → length pkt.payload ≤ max_app_data_size
      → length options + marker_length pkt + length pkt.token + 4 ≤ max_header_size
      → (bytes : List ℕ) × (serialize_message behind stale pkt ≡ some bytes)
        × (udp_parse_message max_app_data_size bytes ≡ parsed received)
  unfolding serialize_message
  udp_parse_message-serialize_message m h ok n l fits = (
    (udp_header sent ++ pkt.token ++ options) ++ marked pkt.payload,
    outer_message-some sent options fits n,
    ap (udp_parse_message m) (regroup (udp_header sent) pkt.token options (marked pkt.payload))
        ∙ parse-udp_header m pkt h (options ++ marked pkt.payload)
        ∙ (reads-serialize_options m true true false behind stale 1 pkt.kind pkt.code pkt.mid
            pkt.token sent ok' (marked pkt.payload)).1
        ∙ reads-marked m _ true true false (with_options true true false sent (header pkt))
            pkt.payload (unfold with_options empty_packet in refl) l,
  )
    where
      ok' : IsSendable sent
      ok' = ground arith
