-- ===== src/Coap/Parse.antt =====
-- messaging/coap/coap.c: the parser of messages, `coap_udp_parse_message` with the loop over the
-- options, `coap_oscore_parse_options`.
-- `coap_merge_multi_option` joins the values of an option in the buffer, at the place of the first of
-- them. What it overwrites lies before the next option: the values that are joined stand one after the
-- other, each behind a header of a byte at least, and the separator takes the place of one such byte.
-- So the bytes that the loop has still to read are those of the message. The zero that is written behind
-- the payload lies behind the message.
pub mod Critical
pub mod Ends
pub mod Errors
pub mod Loop
mod Tests
use knx_iot_stack.Prelude.{
  ℕ, zero, suc, ◌+◌, ◌-◌, ◌*◌, ◌/◌, ◌%◌, ◌^◌, Option, none, some, Bool, true, false, not, ◌&&◌,
  ◌||◌, List, [], ◌∷◌, ◌++◌, ltb, leb, ◌==◌, if◌then◌else◌, length, take, drop, bit_and, bit_or,
  min,
}
use knx_iot_stack.Coap.Options.{
  Read, got, overread, parse_option_header, is_payload_marker, parse_int_option,
}
use knx_iot_stack.Coap.Packet.{
  Packet, Status, bad_request, bad_option, not_acceptable, unsupported_media_type, no_options,
  empty_packet, set_option,
}
use knx_iot_stack.Coap.OscoreOption.{
  Stored, stored, writes_behind, reads_behind, parse_oscore_option,
}

-- The outcome of a parser: COAP_NO_ERROR, or another code, each with the packet as it then is; a read
-- behind the message; a write behind an array of the OSCORE option; fuel that did not suffice.
pub data Outcome : Type 0 where
  parsed : Packet → Outcome
  failed : Status → Packet → Outcome
  overrun : Outcome
  overflow : Outcome
  out_of_fuel : Outcome

-- `coap_merge_multi_option`
unfoldable pub merge_multi_option : List ℕ → List ℕ → ℕ → List ℕ
merge_multi_option dst option separator =
    if ltb 0 (length dst) then dst ++ separator ∷ option else option

-- the values of Accept that do not lead to NOT_ACCEPTABLE_4_06
unfoldable pub is_acceptable : ℕ → Bool
is_acceptable accept =
    accept == 10000
    || accept == 60
    || accept == 10001
    || accept == 40
    || accept == 42
    || accept == 50
    || accept == 286
    || accept == 283
    || accept == 282
    || accept == 280

-- the values of Content-Format that do not lead to UNSUPPORTED_MEDIA_TYPE_4_15
unfoldable pub is_supported : ℕ → Bool
is_supported content_format =
    content_format == 10001
    || content_format == 60
    || content_format == 40
    || content_format == 42
    || content_format == 50
    || content_format == 286
    || content_format == 282
    || content_format == 283
    || content_format == 280

-- An option that is taken only inside, or only outside, of the encryption.
abbrev pub permit : Bool → Packet → Outcome → Outcome
permit allowed pkt taken = if allowed then taken else failed bad_option pkt

unfoldable pub take_content_format : ℕ → Packet → Outcome
unfolding is_supported
take_content_format content_format pkt =
    if ltb 0 (length pkt.payload) && not (is_supported content_format)
    then failed unsupported_media_type (record pkt { content_format = content_format })
    else parsed (record pkt { content_format = content_format })

unfoldable pub take_accept : ℕ → Packet → Outcome
unfolding is_acceptable
take_accept accept pkt =
    if is_acceptable accept
    then parsed (record pkt { accept = accept })
    else failed not_acceptable (record pkt { accept = accept })

unfoldable pub take_block2 : ℕ → Packet → Packet
take_block2 num pkt = record pkt {
  block2_more = bit_and num 0x08 / 2 ^ 3;
  block2_size = 16 * 2 ^ bit_and num 0x07;
  block2_offset = bit_and num 0xFFFFFFF0 * 2 ^ bit_and num 0x07 % 2 ^ 32;
  block2_num = num / 2 ^ 4;
}

unfoldable pub take_block1 : ℕ → Packet → Packet
take_block1 num pkt = record pkt {
  block1_more = bit_and num 0x08 / 2 ^ 3;
  block1_size = 16 * 2 ^ bit_and num 0x07;
  block1_offset = bit_and num 0xFFFFFFF0 * 2 ^ bit_and num 0x07 % 2 ^ 32;
  block1_num = num / 2 ^ 4;
}

unfoldable pub take_oscore : Stored Packet → Outcome
take_oscore reads_behind = overrun
take_oscore writes_behind = overflow
take_oscore (stored pkt) = parsed pkt

-- The `switch` over the number of an option, with the option's value and what follows it.
module _ (inner outer oscore : Bool) where
  unfoldable pub take_option : ℕ → List ℕ → List ℕ → Packet → Outcome
  unfolding take_content_format take_accept take_block2 take_block1 take_oscore
  take_option number value following pkt =
      if number == 9
      then permit (outer && oscore) pkt
          (take_oscore (parse_oscore_option (value ++ following) (length value) pkt))
      else if number == 12
      then permit inner pkt (take_content_format (parse_int_option value % 2 ^ 16) pkt)
      else if number == 14
      then parsed (record pkt { max_age = parse_int_option value })
      else if number == 4
      then permit inner pkt (parsed (record pkt { etag = take (min 8 (length value)) value }))
      else if number == 17
      then permit inner pkt (take_accept (parse_int_option value % 2 ^ 16) pkt)
      else if number == 35
      then permit outer pkt
          (parsed (record pkt { proxy_uri = merge_multi_option pkt.proxy_uri value 0 }))
      else if number == 3
      then permit outer pkt (parsed (record pkt { uri_host = value }))
      else if number == 7
      then permit outer pkt (parsed (record pkt { uri_port = parse_int_option value % 2 ^ 16 }))
      else if number == 11
      then permit inner pkt
          (parsed (record pkt { uri_path = merge_multi_option pkt.uri_path value b'/' }))
      else if number == 15
      then permit inner pkt
          (parsed (record pkt { uri_query = merge_multi_option pkt.uri_query value b'&' }))
      else if number == 6
      then parsed (record pkt { observe = parse_int_option value })
      else if number == 23
      then permit inner pkt (parsed (take_block2 (parse_int_option value) pkt))
      else if number == 27
      then permit inner pkt (parsed (take_block1 (parse_int_option value) pkt))
      else if number == 28
      then permit inner pkt (parsed (record pkt { size2 = parse_int_option value }))
      else if number == 60
      then permit inner pkt (parsed (record pkt { size1 = parse_int_option value }))
      else if number == 252
      then permit (inner && leb (length value) 40) pkt (parsed (record pkt { echo = value }))
      else if number == 2053 || number == 2049
      then permit inner pkt (parsed pkt)
      else if number % 2 == 1
      then failed bad_option pkt
      else parsed pkt

-- The loop goes on after an option that was taken.
abbrev pub go_on : Outcome → (Packet → Outcome) → Outcome
go_on (parsed pkt) k = k pkt
go_on (failed status pkt) k = failed status pkt
go_on overrun k = overrun
go_on overflow k = overflow
go_on out_of_fuel k = out_of_fuel

-- `SET_OPTION` under its condition
unfoldable pub note_option : ℕ → Packet → Packet
note_option number pkt = record pkt {
  options = if leb number 252 then set_option number pkt.options else pkt.options;
}

-- A payload is cut off at OC_MAX_APP_DATA_SIZE.
unfoldable pub take_payload : ℕ → List ℕ → Packet → Packet
take_payload max_app_data_size bytes pkt = record pkt { payload = take max_app_data_size bytes }

module _ (max_app_data_size : ℕ) (inner outer oscore : Bool) where
  -- The value of an option behind its header, with the number of the option; `loop` is the rest of
  -- the loop.
  unfoldable pub parse_value : (List ℕ → ℕ → Packet → Outcome) → ℕ → ℕ → List ℕ → Packet → Outcome
  unfolding note_option
  parse_value loop number option_length rest pkt = elim (ltb (length rest) option_length) [
    | true ↦ failed bad_option (note_option number pkt)
    | false ↦
        go_on
          (take_option inner outer oscore number (take option_length rest) (drop option_length rest)
            (note_option number pkt))
          (loop (drop option_length rest) number)
  ]

  unfoldable pub parse_behind :
      (List ℕ → ℕ → Packet → Outcome) → ℕ → Packet → Read (ℕ × ℕ) → Outcome
  unfolding parse_value
  parse_behind loop number pkt overread = overrun
  parse_behind loop number pkt (got (delta, option_length) rest) =
      parse_value loop ((number + delta) % 2 ^ 32) option_length rest pkt

  -- The payload, or one option, at the head of the bytes.
  unfoldable pub parse_one : (List ℕ → ℕ → Packet → Outcome) → ℕ → List ℕ → ℕ → Packet → Outcome
  unfolding parse_behind
  parse_one loop b bytes number pkt = elim (is_payload_marker b) [
    | true ↦ parsed (take_payload max_app_data_size bytes pkt)
    | false ↦ parse_behind loop number pkt (parse_option_header (b ∷ bytes))
  ]

  unfoldable pub parse_loop : ℕ → List ℕ → ℕ → Packet → Outcome
  unfolding parse_one
  parse_loop zero bytes number pkt = out_of_fuel
  parse_loop (suc fuel) [] number pkt = parsed pkt
  parse_loop (suc fuel) (b ∷ bytes) number pkt = parse_one (parse_loop fuel) b bytes number pkt

  -- `coap_oscore_parse_options`
  unfoldable pub parse_options : List ℕ → Packet → Outcome
  unfolding parse_loop
  parse_options bytes pkt =
      parse_loop (suc (length bytes)) bytes 0 (record pkt { options = no_options })

-- The message behind its header: the token, and then the options.
unfoldable pub parse_token : ℕ → ℕ → List ℕ → Packet → Outcome
unfolding parse_options
parse_token max_app_data_size token_len bytes pkt =
    if not (pkt.version == 1)
    then failed bad_request pkt
    else if ltb 8 token_len
    then failed bad_request pkt
    else if ltb (length bytes) token_len
    then overrun
    else parse_options max_app_data_size true true false (drop token_len bytes)
        (record pkt { token = take token_len bytes })

-- `coap_udp_parse_message`
unfoldable pub udp_parse_message : ℕ → List ℕ → Outcome
unfolding parse_token
udp_parse_message max_app_data_size (b ∷ code ∷ high ∷ low ∷ bytes) =
    parse_token max_app_data_size (bit_and b 0x0F) bytes (record empty_packet {
      version = bit_and b 0xC0 / 2 ^ 6;
      kind = bit_and b 0x30 / 2 ^ 4;
      code = code;
      mid = bit_or (high * 256) low;
    })
udp_parse_message max_app_data_size _ = overrun
