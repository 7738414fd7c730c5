-- ===== src/Coap/Parse/Tests.antt =====
-- Messages that are parsed, and the theorems at concrete messages.
use knx_iot_stack.Prelude.{ℕ, ◌≡◌, ◌≢◌, refl, arith, true, false, List, [], ◌∷◌}
use knx_iot_stack.Coap.Options.{
  parse_option_header, parse_extended, is_payload_marker, parse_int_option, set_option_header,
  option_nibble, extended,
}
use knx_iot_stack.Coap.Packet.{
  unsupported_media_type, bad_option, empty_packet, no_options, set_option,
}
use knx_iot_stack.Coap.Parse.{
  parsed, failed, out_of_fuel, take_option, udp_parse_message, parse_options, take_payload,
  merge_multi_option,
}
use knx_iot_stack.Coap.Parse.Errors.{udp_parse_message-supported}
use knx_iot_stack.Coap.Parse.Ends.{parse_options-ends}
use knx_iot_stack.Coap.Parse.Critical.{encode, AllTolerable, parse_options-tolerable}

-- GET /a/b with the token 07: the path is joined from its two options.
abbrev request : List ℕ
request = 0x41 ∷ 0x01 ∷ 0x12 ∷ 0x34 ∷ 0x07 ∷ 0xb1 ∷ b'a' ∷ 0x01 ∷ b'b' ∷ []

request_parsed :
    udp_parse_message 1024 request
    ≡ parsed (record empty_packet {
      version = 1;
      code = 1;
      mid = 0x1234;
      token = 7 ∷ [];
      options = set_option 11 no_options;
      uri_path = b'a' ∷ b'/' ∷ b'b' ∷ [];
    })
unfolding udp_parse_message parse_option_header parse_extended is_payload_marker take_option
    parse_int_option take_payload merge_multi_option set_option empty_packet
request_parsed = refl

-- The format 41, application/xml, is not among those that are named.
udp_parse_message-supported_example :
    udp_parse_message 1024 (0x40 ∷ 0x02 ∷ 0 ∷ 1 ∷ 0xc1 ∷ 41 ∷ 0xff ∷ b'x' ∷ [])
    ≢ failed unsupported_media_type empty_packet
udp_parse_message-supported_example =
    udp_parse_message-supported 1024 (0x40 ∷ 0x02 ∷ 0 ∷ 1 ∷ 0xc1 ∷ 41 ∷ 0xff ∷ b'x' ∷ [])
      empty_packet

parse_options-ends_example :
    parse_options 1024 true true false (0xb1 ∷ b'a' ∷ 0xd0 ∷ []) empty_packet ≢ out_of_fuel
parse_options-ends_example =
    parse_options-ends 1024 true true false (0xb1 ∷ b'a' ∷ 0xd0 ∷ []) empty_packet

-- Option 13 is critical and unknown.
critical_refused :
    parse_options 1024 true true false (0xb1 ∷ b'a' ∷ 0x20 ∷ []) empty_packet
    ≡ failed bad_option (record empty_packet {
      options = set_option 13 (set_option 11 no_options);
      uri_path = b'a' ∷ [];
    })
unfolding parse_options parse_option_header parse_extended is_payload_marker take_option
    parse_int_option merge_multi_option set_option empty_packet no_options
critical_refused = refl

abbrev good_options : List (ℕ × List ℕ)
good_options = (11, b'a' ∷ []) ∷ (16, 5 ∷ []) ∷ []

parse_options-tolerable_example : AllTolerable good_options
unfolding parse_options parse_option_header parse_extended is_payload_marker take_option
    parse_int_option take_payload merge_multi_option set_option empty_packet no_options encode
    set_option_header option_nibble extended
parse_options-tolerable_example =
    parse_options-tolerable 1024 true true false good_options (0xff ∷ 1 ∷ []) empty_packet
      (record empty_packet {
        options = set_option 16 (set_option 11 no_options);
        uri_path = b'a' ∷ [];
        payload = 1 ∷ [];
      })
      (omega arith) refl
