-- ===== src/Coap/Options/Tests.antt =====
-- Option headers and values on examples, and the theorems at concrete options.
use knx_iot_stack.Prelude.{◌≡◌, refl, [], ◌∷◌}
use knx_iot_stack.Coap.Options.{
  option_nibble, extended, set_option_header, int_value, serialize_int_option,
}

-- Content-Format (12) with the value 60, application/cbor, is c1 3c.
content_format : serialize_int_option 12 0 60 ≡ 0xc1 ∷ 0x3c ∷ []
unfolding serialize_int_option int_value set_option_header option_nibble extended
content_format = refl

-- A delta of 252 takes one byte of extension, one of 2049 takes two.
long_deltas :
    (set_option_header 252 3 ≡ 0xd3 ∷ 239 ∷ []) × (set_option_header 2049 3 ≡ 0xe3 ∷ 6 ∷ 0xf4 ∷ [])
unfolding set_option_header option_nibble extended
long_deltas = (refl, refl)
