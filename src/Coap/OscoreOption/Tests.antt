-- ===== src/Coap/OscoreOption/Tests.antt =====
-- The OSCORE option on examples, and the theorems at concrete packets.
use knx_iot_stack.Prelude.{◌≡◌, refl, arith, [], ◌∷◌, ◌++◌, length}
use knx_iot_stack.Coap.Options.{set_option_header, option_nibble, extended}
use knx_iot_stack.Coap.Packet.{Packet, empty_packet}
use knx_iot_stack.Coap.OscoreOption.{
  writes_behind, reads_behind, stored, parse_piv, parse_oscore_option, oscore_value,
  serialize_oscore_option,
}
use knx_iot_stack.Coap.OscoreOption.RoundTrip.{HasOscore, with_oscore, parse-oscore_value}

-- A Partial IV of one byte, a kid context of two and a kid of one.
abbrev protected_request : Packet
protected_request = record empty_packet {
  oscore_flags = 0x19;
  piv = 0x14 ∷ [];
  kid_ctx = 0x37 ∷ 0xcb ∷ [];
  kid = 0x05 ∷ [];
}

-- After Uri-Port (7) the option 9 has the delta two.
serialized_option :
    serialize_oscore_option [] 7 protected_request
    ≡ 0x26 ∷ 0x19 ∷ 0x14 ∷ 2 ∷ 0x37 ∷ 0xcb ∷ 0x05 ∷ []
unfolding serialize_oscore_option set_option_header option_nibble extended
serialized_option = refl

protected_request-HasOscore : HasOscore protected_request
unfolding empty_packet
protected_request-HasOscore = record {
  piv_flags = refl;
  piv_fits = omega arith;
  kid_ctx_flag = refl;
  kid_ctx_fits = omega arith;
  kid_flag = refl;
  kid_fits = omega arith;
}

parse-oscore_value_example :
    parse_oscore_option
      (oscore_value [] protected_request ++ 0xff ∷ 1 ∷ [])
      (length (oscore_value [] protected_request))
      empty_packet
    ≡ stored (with_oscore protected_request empty_packet)
unfolding empty_packet
parse-oscore_value_example =
    parse-oscore_value [] protected_request protected_request-HasOscore (0xff ∷ 1 ∷ []) empty_packet
      refl refl refl refl

-- Flags that announce a Partial IV of seven bytes: it is copied behind the five bytes of its array.
overflow : parse_oscore_option (7 ∷ 1 ∷ 2 ∷ 3 ∷ 4 ∷ 5 ∷ 6 ∷ 7 ∷ []) 8 empty_packet ≡ writes_behind
unfolding parse_oscore_option parse_piv
overflow = refl

-- A Partial IV of which the message has one byte.
overread : parse_oscore_option (2 ∷ 1 ∷ []) 2 empty_packet ≡ reads_behind
unfolding parse_oscore_option parse_piv
overread = refl
