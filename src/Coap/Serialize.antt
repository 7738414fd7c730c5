-- ===== src/Coap/Serialize.antt =====
-- messaging/coap/coap.c: the serialisation of messages, `coap_oscore_serialize_message` with the options,
-- `coap_serialize_options`, and the UDP header.
-- Serialisers are modelled by the bytes that they write. `behind` gives, for the number of an option with
-- parts, the two bytes that stand behind its text in memory, of which the code reads one or both where the
-- text ends with the separator; `stale` is what the buffer holds at the place of an OSCORE option.
pub mod Parts
mod Tests
use knx_iot_stack.Prelude.{
  ℕ, zero, suc, ◌+◌, ◌-◌, ◌*◌, ◌/◌, ◌%◌, ◌^◌, Option, none, some, Bool, true, false, not, ◌&&◌,
  List, [], ◌∷◌, ◌++◌, ltb, leb, ◌==◌, if◌then◌else◌, length, bit_and, bit_or,
}
use knx_iot_stack.Coap.Options.{set_option_header, serialize_int_option}
use knx_iot_stack.Coap.Packet.{Packet, is_option}
use knx_iot_stack.Coap.OscoreOption.{serialize_oscore_option}

-- A separator that is the last byte of the text: the loop goes on at the byte after the terminator.
unfoldable pub parts_behind : ℕ → ℕ × ℕ → List (List ℕ)
parts_behind split_char (terminator, next) =
    if next == split_char then (terminator ∷ []) ∷ [] else []

-- The parts that the loop of `coap_serialize_array_option` finds, with the bytes of the current part that
-- it has passed. The byte after a separator is not compared with the separator.
unfoldable pub parts_from : ℕ → ℕ × ℕ → List ℕ → List ℕ → List (List ℕ)
unfolding parts_behind
parts_from split_char behind part [] = part ∷ []
parts_from split_char behind part (c ∷ []) =
    if c == split_char then part ∷ parts_behind split_char behind else (part ++ c ∷ []) ∷ []
parts_from split_char behind part (c ∷ d ∷ bytes) =
    let after = parts_from split_char behind (d ∷ []) bytes in
    let within = parts_from split_char behind (part ++ c ∷ []) (d ∷ bytes) in
    if c == split_char then part ∷ after else within

-- an `unsigned int` difference
abbrev pub delta_of : ℕ → ℕ → ℕ
delta_of number current_number = (number + 2 ^ 32 - current_number) % 2 ^ 32

unfoldable pub serialize_parts : ℕ → ℕ → List (List ℕ) → List ℕ
serialize_parts number current_number [] = []
serialize_parts number current_number (part ∷ parts) =
    set_option_header (delta_of number current_number) (length part)
    ++ part
    ++ serialize_parts number number parts

-- `coap_serialize_array_option`
unfoldable pub serialize_array_option : ℕ → ℕ → List ℕ → ℕ → ℕ × ℕ → List ℕ
unfolding serialize_parts parts_from
serialize_array_option number current_number array split_char behind =
    if split_char == 0
    then set_option_header (delta_of number current_number) (length array) ++ array
    else serialize_parts number current_number (parts_from split_char behind [] array)

-- The loop of `coap_log_2`, with the rounds that are left.
unfoldable pub log_2_loop : ℕ → ℕ → ℕ → ℕ
log_2_loop zero value result = result
log_2_loop (suc rounds) value result =
    let rest = log_2_loop rounds (value / 2) (result + 1) in
    if value / 2 == 0 then result + 1 else rest

-- `coap_log_2` of a uint16_t: sixteen shifts clear it.
unfoldable pub log_2 : ℕ → ℕ
unfolding log_2_loop
log_2 value = log_2_loop 16 value 0 - 1

-- the value of COAP_SERIALIZE_BLOCK_OPTION
unfoldable pub block_value : ℕ → ℕ → ℕ → ℕ
unfolding log_2
block_value num more size =
    let block = num * 2 ^ 4 % 2 ^ 32 in
    let flagged = if more == 0 then block else bit_or block 0x8 in
    bit_or flagged (bit_and (log_2 (size / 16)) 0xF)

-- What is written so far, and the number of the last option.
pub record Writer : Type 0 where
  pub current_number : ℕ
  pub bytes : List ℕ

-- The macros COAP_SERIALIZE_*_OPTION, under a further condition.
abbrev pub write : Bool → ℕ → (ℕ → List ℕ) → Writer → Writer
write set number serialized w = record {
  current_number = if set then number else w.current_number;
  bytes = if set then w.bytes ++ serialized w.current_number else w.bytes;
}

abbrev pub write_int : Bool → ℕ → ℕ → Writer → Writer
write_int set number value =
    write set number (λ current_number. serialize_int_option number current_number value)

abbrev pub write_array : Bool → ℕ → List ℕ → ℕ → ℕ × ℕ → Writer → Writer
write_array set number array split_char behind =
    write set number
      (λ current_number. serialize_array_option number current_number array split_char behind)

-- The conditions under which the options are written.
module _ (inner outer oscore : Bool) (pkt : Packet) where
  abbrev pub inside : ℕ → Bool
  inside number = inner && is_option number pkt.options

  abbrev pub outside : ℕ → Bool
  outside number = outer && is_option number pkt.options

  -- `coap_serialize_options`
  unfoldable pub serialize_options : (ℕ → ℕ × ℕ) → List ℕ → Writer
  serialize_options behind stale =
      let w0 : Writer = record { current_number = 0; bytes = [] } in
      let w3 = write_array (outside 3) 3 pkt.uri_host 0 (behind 3) w0 in
      let w4 = write_array (inside 4) 4 pkt.etag 0 (behind 4) w3 in
      let w6 = write_int (is_option 6 pkt.options) 6 pkt.observe w4 in
      let w7 = write_int (outside 7) 7 pkt.uri_port w6 in
      let w9 =
        write (oscore && outside 9) 9
          (λ current_number. serialize_oscore_option stale current_number pkt) w7 in
      let w11 = write_array (inside 11) 11 pkt.uri_path b'/' (behind 11) w9 in
      let w12 = write_int (inside 12) 12 pkt.content_format w11 in
      let w14 = write_int (outside 14) 14 pkt.max_age w12 in
      let w15 = write_array (inside 15) 15 pkt.uri_query b'&' (behind 15) w14 in
      let w17 = write_int (inside 17) 17 pkt.accept w15 in
      let w23 =
        write_int (inside 23) 23 (block_value pkt.block2_num pkt.block2_more pkt.block2_size) w17 in
      let w27 =
        write_int (inside 27) 27 (block_value pkt.block1_num pkt.block1_more pkt.block1_size) w23 in
      let w28 = write_int (inside 28) 28 pkt.size2 w27 in
      let w35 = write_array (outside 35) 35 pkt.proxy_uri 0 (behind 35) w28 in
      let w60 = write_int (inside 60) 60 pkt.size1 w35 in
      write_array (inside 252) 252 pkt.echo 0 (behind 252) w60

-- `coap_udp_set_header_fields`
unfoldable pub udp_header : Packet → List ℕ
udp_header pkt =
    bit_or (bit_or (bit_and (pkt.version * 2 ^ 6) 0xC0) (bit_and (pkt.kind * 2 ^ 4) 0x30))
      (bit_and (length pkt.token) 0x0F)
    ∷ pkt.code
    ∷ pkt.mid / 2 ^ 8 % 256
    ∷ pkt.mid % 256
    ∷ []

-- COAP_MAX_HEADER_SIZE of a build with block-wise transfers
abbrev pub max_header_size : ℕ
max_header_size = 181

abbrev pub marker_length : Packet → ℕ
marker_length pkt = if ltb 0 (length pkt.payload) then 1 else 0

-- The payload behind what is written so far, if that is not too long: `none` is the length zero.
unfoldable pub pack_payload : Packet → List ℕ → Option (List ℕ)
pack_payload pkt written =
    if leb (length written) max_header_size
    then some (written ++ (if ltb 0 (length pkt.payload) then 0xFF ∷ pkt.payload else []))
    else none

-- A message with header and token, from its serialised options.
unfoldable pub outer_message : Packet → List ℕ → Option (List ℕ)
outer_message pkt options =
    if ltb max_header_size (length options + marker_length pkt + length pkt.token + 4)
    then none
    else if pkt.code == 0 && length pkt.token == 0
    then some (udp_header pkt)
    else pack_payload pkt (udp_header pkt ++ pkt.token ++ options)

-- A message to be encrypted: its code and its serialised options.
unfoldable pub inner_message : Packet → List ℕ → Option (List ℕ)
inner_message pkt options =
    if ltb max_header_size (length options + marker_length pkt + 1)
    then none
    else pack_payload pkt (pkt.code ∷ options)

-- `coap_oscore_serialize_message`
module _ (behind : ℕ → ℕ × ℕ) (stale : List ℕ) (inner outer oscore : Bool) where
  unfoldable pub oscore_serialize_message : Packet → Option (List ℕ)
  unfolding outer_message inner_message
  oscore_serialize_message pkt =
      let pkt' = record pkt { version = 1 } in
      let options = (serialize_options inner outer oscore pkt' behind stale).bytes in
      if outer then outer_message pkt' options else inner_message pkt' options

-- `coap_serialize_message`
unfoldable pub serialize_message : (ℕ → ℕ × ℕ) → List ℕ → Packet → Option (List ℕ)
unfolding oscore_serialize_message
serialize_message behind stale = oscore_serialize_message behind stale true true false
