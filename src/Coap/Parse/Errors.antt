-- ===== src/Coap/Parse/Errors.antt =====
-- The codes that a parser of messages over UDP returns.
use knx_iot_stack.Prelude.{
  ℕ, zero, suc, ◌+◌, ◌*◌, ◌/◌, ◌%◌, ◌^◌, ◌≡◌, ◌≢◌, refl, subst, arith, Bool, true, false, List, [],
  ◌∷◌, ltb, length, take, drop, bit_and, bit_or, inl, inr, Bool-cases,
}
use knx_iot_stack.Coap.Options.{Read, got, overread, parse_option_header, is_payload_marker}
use knx_iot_stack.Coap.Packet.{
  Packet, unsupported_media_type, bad_option, no_options, bad_request, not_acceptable, empty_packet,
}
use knx_iot_stack.Coap.Parse.{
  Outcome, parsed, failed, overrun, overflow, out_of_fuel, go_on, take_option, note_option,
  parse_value, parse_behind, parse_one, parse_loop, parse_options, parse_token, udp_parse_message,
}

-- Not UNSUPPORTED_MEDIA_TYPE_4_15, and no payload after an option that was taken.
abbrev TakesNoPayload : Outcome → Type 0
TakesNoPayload (parsed pkt) = pkt.payload ≡ []
TakesNoPayload (failed unsupported_media_type pkt) = ⊥
TakesNoPayload (failed bad_request pkt) = Unit
TakesNoPayload (failed bad_option pkt) = Unit
TakesNoPayload (failed not_acceptable pkt) = Unit
TakesNoPayload overrun = Unit
TakesNoPayload overflow = Unit
TakesNoPayload out_of_fuel = Unit

-- Not UNSUPPORTED_MEDIA_TYPE_4_15.
abbrev IsSupported : Outcome → Type 0
IsSupported (parsed pkt) = Unit
IsSupported (failed unsupported_media_type pkt) = ⊥
IsSupported (failed bad_request pkt) = Unit
IsSupported (failed bad_option pkt) = Unit
IsSupported (failed not_acceptable pkt) = Unit
IsSupported overrun = Unit
IsSupported overflow = Unit
IsSupported out_of_fuel = Unit

take_option-TakesNoPayload :
    (inner outer : Bool) (number : ℕ) (value following : List ℕ) (pkt : Packet)
    → pkt.payload ≡ []
    → TakesNoPayload (take_option inner outer false number value following pkt)
unfolding take_option
take_option-TakesNoPayload inner outer number value following pkt h = ground arith

go_on-TakesNoPayload :
    (o : Outcome) (k : Packet → Outcome)
    → TakesNoPayload o
    → ((q : Packet) → q.payload ≡ [] → IsSupported (k q))
    → IsSupported (go_on o k)
go_on-TakesNoPayload (parsed pkt) k h f = f pkt h
go_on-TakesNoPayload (failed unsupported_media_type pkt) k h f = absurd h
go_on-TakesNoPayload (failed bad_request pkt) k h f = tt
go_on-TakesNoPayload (failed bad_option pkt) k h f = tt
go_on-TakesNoPayload (failed not_acceptable pkt) k h f = tt
go_on-TakesNoPayload overrun k h f = tt
go_on-TakesNoPayload overflow k h f = tt
go_on-TakesNoPayload out_of_fuel k h f = tt

module _ (max_app_data_size : ℕ) (inner outer : Bool) where
  parse_behind-IsSupported :
      (loop : List ℕ → ℕ → Packet → Outcome) (number : ℕ) (pkt : Packet) (r : Read (ℕ × ℕ))
      → ((rest : List ℕ) (n : ℕ) (q : Packet) → q.payload ≡ [] → IsSupported (loop rest n q))
      → pkt.payload ≡ []
      → IsSupported (parse_behind max_app_data_size inner outer false loop number pkt r)
  unfolding parse_behind note_option
  parse_behind-IsSupported loop number pkt overread h e = tt
  parse_behind-IsSupported loop number pkt (got (delta, len) rest) h e =
      elim (Bool-cases (ltb (length rest) len)) [
        | inl short ↦ rw (short, parse_value) tt
        | inr long ↦
            rw (long, parse_value)
              (go_on-TakesNoPayload
                (take_option inner outer false ((number + delta) % 2 ^ 32) (take len rest)
                  (drop len rest) (note_option ((number + delta) % 2 ^ 32) pkt))
                (loop (drop len rest) ((number + delta) % 2 ^ 32))
                (take_option-TakesNoPayload inner outer ((number + delta) % 2 ^ 32) (take len rest)
                  (drop len rest) (note_option ((number + delta) % 2 ^ 32) pkt) e)
                (λ q. h (drop len rest) ((number + delta) % 2 ^ 32) q))
      ]

  parse_loop-IsSupported :
      (fuel : ℕ) (bytes : List ℕ) (number : ℕ) (pkt : Packet)
      → pkt.payload ≡ []
      → IsSupported (parse_loop max_app_data_size inner outer false fuel bytes number pkt)
  unfolding parse_loop parse_one
  parse_loop-IsSupported zero bytes number pkt h = tt
  parse_loop-IsSupported (suc fuel) [] number pkt h = tt
  parse_loop-IsSupported (suc fuel) (b ∷ bytes) number pkt h =
      elim (Bool-cases (is_payload_marker b)) [
        | inl marker ↦ rw (marker, parse_one) tt
        | inr option ↦
            rw (option, parse_one)
              (parse_behind-IsSupported _ number pkt (parse_option_header (b ∷ bytes))
                (parse_loop-IsSupported fuel) h)
      ]

parse_token-IsSupported :
    (m token_len : ℕ) (bytes : List ℕ) (pkt : Packet)
    → pkt.payload ≡ []
    → IsSupported (parse_token m token_len bytes pkt)
unfolding parse_token parse_options
parse_token-IsSupported m token_len bytes pkt h = ground (
  arith,
  parse_loop-IsSupported m true true (suc (length (drop token_len bytes))) (drop token_len bytes) 0
      (record pkt { token = take token_len bytes; options = no_options }) h,
)

udp_parse_message-IsSupported : (m : ℕ) (bytes : List ℕ) → IsSupported (udp_parse_message m bytes)
unfolding udp_parse_message
udp_parse_message-IsSupported m [] = tt
udp_parse_message-IsSupported m (a ∷ []) = tt
udp_parse_message-IsSupported m (a ∷ b ∷ []) = tt
udp_parse_message-IsSupported m (a ∷ b ∷ c ∷ []) = tt
udp_parse_message-IsSupported m (a ∷ b ∷ c ∷ d ∷ bytes) =
    unfold empty_packet in
    parse_token-IsSupported m (bit_and a 0x0F) bytes
      (record empty_packet {
        version = bit_and a 0xC0 / 2 ^ 6;
        kind = bit_and a 0x30 / 2 ^ 4;
        code = b;
        mid = bit_or (c * 256) d;
      })
      refl

-- No message over UDP is refused with UNSUPPORTED_MEDIA_TYPE_4_15, whatever its Content-Format: the
-- payload is not yet known when the option is read.
pub udp_parse_message-supported :
    (max_app_data_size : ℕ) (bytes : List ℕ) (q : Packet)
    → udp_parse_message max_app_data_size bytes ≢ failed unsupported_media_type q
udp_parse_message-supported m bytes q e =
    subst IsSupported e (udp_parse_message-IsSupported m bytes)
