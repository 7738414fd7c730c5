-- ===== src/Text/Tests.antt =====
-- Texts on examples, and the theorems at concrete texts.
use knx_iot_stack.Prelude.{
  ℕ, ◌-◌, ltb, Bool, ◌&&◌, ◌/◌, ◌%◌, ◌<◌, ◌≡◌, ◌≢◌, ◌↔◌, refl, arith, none, some, true, false, List,
  [], ◌∷◌, length, take, replicate, get_or, AllBytes, no_bytes, more_bytes,
}
use Prim.Native.String.{String}
use Prim.Native.Char.{code}
use knx_iot_stack.Text.{print_byte}
use knx_iot_stack.Text.Uuid.{str_to_uuid, uuid_to_str, gen_uuid}
use knx_iot_stack.Text.Uuid.Writes.{digits_in, str_to_uuid-overflow, gen_uuid-marks}
use knx_iot_stack.Text.Uuid.RoundTrip.{str_to_uuid-uuid_to_str}
use knx_iot_stack.Text.Hex.{
  print_array, byte_array_to_hex_string, hex_string_to_byte_array, hex_string_to_oc_string,
  string_is_hex_array, char_convert_to_lower,
}
use knx_iot_stack.Text.Hex.RoundTrip.{
  hex_string_to_byte_array-print, hex_string_to_oc_string-digits,
}
use knx_iot_stack.Text.Numbers.{
  count_digits, write_digits, nibbles, strip_zeros, uint64_to_dec_string, uint64_to_hex_string,
}
use knx_iot_stack.Text.Numbers.Values.{text_value, has_leading_zero, uint64_to_hex_string-value}

abbrev chars : String → List ℕ
chars String.[] = []
chars (String.◌∷◌ c s) = code c ∷ chars s

abbrev some_id : List ℕ
some_id =
    0x12 ∷ 0x3e ∷ 0x45 ∷ 0x67 ∷ 0xe8 ∷ 0x9b ∷ 0x42 ∷ 0xd3 ∷ 0xa4 ∷ 0x56 ∷ 0x42 ∷ 0x66 ∷ 0x14 ∷ 0x17
    ∷ 0x40 ∷ 0xff ∷ []

some_id_text : uuid_to_str some_id 37 ≡ some (chars "123e4567-e89b-42d3-a456-4266141740ff")
unfolding uuid_to_str
some_id_text = refl

read_upper :
    str_to_uuid (chars "123E4567-E89B-42D3-A456-4266141740FF") (replicate 16 0) ≡ some some_id
unfolding str_to_uuid
read_upper = refl

-- A text that is too short is read behind its end.
too_short : str_to_uuid (chars "123e4567") (replicate 16 0) ≡ none
unfolding str_to_uuid
too_short = refl

abbrev all_below : List ℕ → Bool
all_below [] = true
all_below (b ∷ bytes) = ltb b 256 && all_below bytes

all_below_sound : (bytes : List ℕ) → all_below bytes ≡ true → AllBytes bytes
all_below_sound [] h = no_bytes
all_below_sound (b ∷ bytes) h =
    more_bytes (ground (arith, h)) (all_below_sound bytes (ground (arith, h)))

str_to_uuid-uuid_to_str_example :
    (text : List ℕ) × (uuid_to_str some_id 37 ≡ some text)
    × (str_to_uuid text (replicate 16 0) ≡ some some_id)
str_to_uuid-uuid_to_str_example =
    str_to_uuid-uuid_to_str some_id (replicate 16 0) refl refl (all_below_sound some_id refl) 37
      (omega arith)

-- A text with two dashes makes 17 bytes.
abbrev two_dashes : List ℕ
two_dashes = chars "123e4567-e89b-42d30a45604266141740ff"

str_to_uuid-overflow_example :
    (str_to_uuid two_dashes (replicate 16 0) ≡ none) ↔ (33 < digits_in (take 36 two_dashes))
str_to_uuid-overflow_example = str_to_uuid-overflow two_dashes (replicate 16 0) (omega arith) refl

two_dashes_overflow : str_to_uuid two_dashes (replicate 16 0) ≡ none
two_dashes_overflow = str_to_uuid-overflow_example.1 (omega arith)

gen_uuid-marks_example :
    (length (gen_uuid (λ i. 0xffffffff - i)) ≡ 16)
    × (get_or (gen_uuid (λ i. 0xffffffff - i)) 6 0 / 16 ≡ 4)
    × (get_or (gen_uuid (λ i. 0xffffffff - i)) 8 0 / 64 ≡ 1)
gen_uuid-marks_example = gen_uuid-marks (λ i. 0xffffffff - i)

printed_bytes : byte_array_to_hex_string (0x00 ∷ 0xa5 ∷ 0xff ∷ []) 7 ≡ some (chars "00a5ff")
unfolding byte_array_to_hex_string print_byte
printed_bytes = refl

-- An odd number of digits: the first byte has one digit.
read_odd : hex_string_to_byte_array (chars "5fF") 3 2 ≡ some (0x05 ∷ 0xff ∷ [])
unfolding hex_string_to_byte_array
read_odd = refl

-- A sign, a blank and another character are read as `sscanf` does.
read_signed : hex_string_to_byte_array (chars "-57g ab") 6 3 ≡ some (251 ∷ 7 ∷ 0xab ∷ [])
unfolding hex_string_to_byte_array
read_signed = refl

hex_string_to_byte_array-print_example :
    (text : List ℕ) × (byte_array_to_hex_string (0x00 ∷ 0xa5 ∷ 0xff ∷ []) 7 ≡ some text)
    × (hex_string_to_byte_array text (length text) 3 ≡ some (0x00 ∷ 0xa5 ∷ 0xff ∷ []))
hex_string_to_byte_array-print_example =
    hex_string_to_byte_array-print (0x00 ∷ 0xa5 ∷ 0xff ∷ []) 7 3
      (all_below_sound (0x00 ∷ 0xa5 ∷ 0xff ∷ []) refl) (omega arith) (omega arith) (omega arith)

abbrev some_digits : List ℕ
some_digits = chars "aB5"

some_digits-IsHex : string_is_hex_array some_digits ≡ true
unfolding string_is_hex_array
some_digits-IsHex = refl

hex_string_to_oc_string-digits_example :
    (length some_digits % 2 ≡ 0
      → (bytes : List ℕ) × (hex_string_to_oc_string some_digits (length some_digits) ≡ some bytes)
        × (print_array bytes ≡ char_convert_to_lower some_digits))
    × (length some_digits % 2 ≢ 0 → hex_string_to_oc_string some_digits (length some_digits) ≡ none)
hex_string_to_oc_string-digits_example =
    hex_string_to_oc_string-digits some_digits some_digits-IsHex (omega arith)

dec_text : uint64_to_dec_string 18446744073709551615 ≡ chars "18446744073709551615"
unfolding uint64_to_dec_string count_digits write_digits
dec_text = refl

hex_text : uint64_to_hex_string 0x10a ≡ chars "10a"
unfolding uint64_to_hex_string nibbles strip_zeros
hex_text = refl

uint64_to_hex_string-value_example :
    (text_value 16 0 (uint64_to_hex_string 0x10a) ≡ 0x10a)
    × (has_leading_zero (uint64_to_hex_string 0x10a) ≡ false)
uint64_to_hex_string-value_example = uint64_to_hex_string-value 0x10a (omega arith)
