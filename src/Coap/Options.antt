-- ===== src/Coap/Options.antt =====
-- messaging/coap/coap.c: the encoding of CoAP options, their headers (a delta to the number of the
-- option before, and a length) and their integer values.
-- The serializers are modelled by the bytes that they write; called with no buffer they return the
-- length of what they would write.
pub mod Headers
pub mod Integers
mod Tests
use knx_iot_stack.Prelude.{
  ℕ, ◌+◌, ◌-◌, ◌*◌, ◌/◌, ◌%◌, ◌^◌, Option, none, some, Bool, true, false, not, List, [], ◌∷◌, ◌++◌,
  ltb, leb, ◌==◌, if◌then◌else◌, length, bit_and, bit_or,
}

-- `coap_option_nibble`
unfoldable pub option_nibble : ℕ → ℕ
option_nibble value = if ltb value 13 then value else if leb value (0xFF + 13) then 13 else 14

-- The bytes that follow the first byte of the header, for the delta and for the length.
unfoldable pub extended : ℕ → List ℕ
extended v =
    if ltb 268 v
    then bit_and ((v - 269) / 256) 0xff ∷ bit_and (v - 269) 0xff ∷ []
    else if ltb 12 v
    then (v - 13) % 256 ∷ []
    else []

-- `coap_set_option_header`
unfoldable pub set_option_header : ℕ → ℕ → List ℕ
set_option_header delta length =
    bit_or (option_nibble delta * 16) (option_nibble length) ∷ extended delta ++ extended length

-- What is read from the message: `overread` where the code reads a byte behind its end.
pub data Read {ℓ} (A : Type ℓ) : Type ℓ where
  got : A → List ℕ → Read A
  overread : Read A

extended_one : List ℕ → Read ℕ
extended_one [] = overread
extended_one (b ∷ bs) = got (13 + b) bs

extended_two : List ℕ → Read ℕ
extended_two (b ∷ c ∷ bs) = got (14 + 255 + b * 256 + c) bs
extended_two _ = overread

-- The extension of a delta or of a length in `coap_oscore_parse_options`, for a nibble.
unfoldable pub parse_extended : ℕ → List ℕ → Read ℕ
unfolding extended_one extended_two
parse_extended nibble bytes =
    if nibble == 13
    then extended_one bytes
    else if nibble == 14
    then extended_two bytes
    else got nibble bytes

-- The header of an option: its delta and its length.
unfoldable pub parse_option_header : List ℕ → Read (ℕ × ℕ)
parse_option_header [] = overread
parse_option_header (b ∷ bs) = elim (parse_extended (b / 16) bs) [
  | overread ↦ overread
  | got delta bs' ↦ elim (parse_extended (bit_and b 0x0F) bs') [
    | overread ↦ overread
    | got length bs'' ↦ got (delta, length) bs''
  ]
]

-- the payload marker, which the loop takes any byte 0xF* for
unfoldable pub is_payload_marker : ℕ → Bool
is_payload_marker b = bit_and b 0xF0 == 0xF0

-- The value of `coap_serialize_int_option`: the bytes from the first that is not zero on.
unfoldable pub int_value : ℕ → List ℕ
int_value v =
    (if bit_and v 0xFF000000 == 0 then [] else v / 2 ^ 24 % 256 ∷ [])
    ++ (if bit_and v 0xFFFF0000 == 0 then [] else v / 2 ^ 16 % 256 ∷ [])
    ++ (if bit_and v 0xFFFFFF00 == 0 then [] else v / 2 ^ 8 % 256 ∷ [])
    ++ (if bit_and v 0xFFFFFFFF == 0 then [] else v % 256 ∷ [])

-- `coap_serialize_int_option`; the delta is an `unsigned int`.
unfoldable pub serialize_int_option : ℕ → ℕ → ℕ → List ℕ
serialize_int_option number current_number value =
    set_option_header ((number + 2 ^ 32 - current_number) % 2 ^ 32) (length (int_value value))
    ++ int_value value

-- the loop of `coap_parse_int_option`
unfoldable pub parse_int_from : ℕ → List ℕ → ℕ
parse_int_from var [] = var
parse_int_from var (b ∷ bs) = parse_int_from (bit_or (var * 256 % 2 ^ 32) b) bs

-- `coap_parse_int_option`
unfoldable pub parse_int_option : List ℕ → ℕ
unfolding parse_int_from
parse_int_option bytes = parse_int_from 0 bytes
