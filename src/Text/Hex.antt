-- ===== src/Text/Hex.antt =====
-- api/oc_helpers.c: bytes as texts of hexadecimal digits.
pub mod RoundTrip
use knx_iot_stack.Prelude.{
  ℕ, zero, suc, ◌+◌, ◌-◌, ◌*◌, ◌/◌, ◌%◌, Option, none, some, Bool, true, false, ◌&&◌, ◌||◌, List,
  [], ◌∷◌, ◌++◌, ltb, leb, ◌==◌, if◌then◌else◌, length, drop, ◌>>=◌,
}
use knx_iot_stack.Text.{print_byte}

-- `oc_conv_byte_array_to_hex_string` with the size of the buffer: `none` is the result -1.
unfoldable pub print_array : List ℕ → List ℕ
print_array [] = []
print_array (b ∷ array) = print_byte b ++ print_array array

unfoldable pub byte_array_to_hex_string : List ℕ → ℕ → Option (List ℕ)
unfolding print_array
byte_array_to_hex_string array hex_str_len =
    if ltb hex_str_len (length array * 2 + 1) then none else some (print_array array)

-- The value of a hexadecimal digit.
unfoldable pub hex_value : ℕ → Option ℕ
hex_value ch =
    if leb b'0' ch && leb ch b'9'
    then some (ch - 48)
    else if leb b'a' ch && leb ch b'f'
    then some (ch - 87)
    else if leb b'A' ch && leb ch b'F'
    then some (ch - 55)
    else none

abbrev is_space : ℕ → Bool
is_space ch = ch == b' ' || (leb 9 ch && leb ch 13)

abbrev pub skip_spaces : List ℕ → List ℕ
skip_spaces [] = []
skip_spaces (ch ∷ text) = let rest = skip_spaces text in if is_space ch then rest else ch ∷ text

-- `sscanf` of one character with "%1x", after white space: `none` where nothing is converted.
unfoldable pub scan_one : List ℕ → Option ℕ
unfolding hex_value
scan_one text = elim (skip_spaces text) [ [] ↦ none | ch ∷ rest ↦ hex_value ch ]

-- The digit behind a sign, of a number that is stored in a `uint8_t`.
unfoldable pub signed_digit : ℕ → List ℕ → Option ℕ
signed_digit sign [] = none
signed_digit sign (ch ∷ text) = elim (hex_value ch) [
  | none ↦ none
  | some v ↦ some (if sign == b'-' then (256 - v) % 256 else v)
]

-- What follows a digit: another digit; the `x` of a prefix `0x`, which has no digits within the width;
-- or something else, which ends the number. (A prefix alone is no
-- number in the C standard.)
unfoldable pub second_digit : ℕ → List ℕ → Option ℕ
second_digit v [] = some v
second_digit v (ch ∷ text) = elim (hex_value ch) [
  | none ↦ if v == 0 && (ch == b'x' || ch == b'X') then none else some v
  | some w ↦ some (v * 16 + w)
]

unfoldable pub first_digit : List ℕ → Option ℕ
first_digit [] = none
first_digit (ch ∷ text) =
    if ch == b'+' || ch == b'-'
    then signed_digit ch text
    else elim (hex_value ch) [ none ↦ none | some v ↦ second_digit v text ]

-- `sscanf` with "%2x"; the number is stored in a `uint8_t`.
unfoldable pub scan_two : List ℕ → Option ℕ
unfolding first_digit second_digit signed_digit hex_value
scan_two text = first_digit (skip_spaces text)

-- The loop of `oc_conv_hex_string_to_byte_array` over `n` pairs of characters.
unfoldable pub scan_pairs : ℕ → List ℕ → Option (List ℕ)
unfolding scan_two
scan_pairs zero text = some []
scan_pairs (suc n) text = do b ← scan_two text; bytes ← scan_pairs n (drop 2 text); some (b ∷ bytes)

-- The digit in front of them, where their number is odd.
unfoldable scan_odd : ℕ → List ℕ → Option (List ℕ)
unfolding scan_one scan_pairs
scan_odd n text = do b ← scan_one text; bytes ← scan_pairs n (drop 1 text); some (b ∷ bytes)

-- `oc_conv_hex_string_to_byte_array` of a text, its length as the caller gives it, and the size of the
-- array: `none` is the result -1, else the bytes that are stored; their number is the new size.
unfoldable pub hex_string_to_byte_array : List ℕ → ℕ → ℕ → Option (List ℕ)
unfolding scan_pairs scan_odd
hex_string_to_byte_array hex_str hex_str_len array_len =
    if ltb hex_str_len 1 || ltb array_len ((hex_str_len + 1) / 2)
    then none
    else if hex_str_len % 2 == 0
    then scan_pairs (hex_str_len / 2) hex_str
    else scan_odd (hex_str_len / 2) hex_str

-- `oc_conv_hex_string_to_oc_string`, where its memory is allocated.
unfoldable pub hex_string_to_oc_string : List ℕ → ℕ → Option (List ℕ)
unfolding hex_string_to_byte_array
hex_string_to_oc_string hex_str hex_str_len =
    hex_string_to_byte_array hex_str hex_str_len (hex_str_len / 2)

-- `oc_string_is_hex_array`, true for the result 0.
unfoldable pub string_is_hex_array : List ℕ → Bool
unfolding hex_value
string_is_hex_array [] = true
string_is_hex_array (ch ∷ text) = elim (hex_value ch) [
  | none ↦ false
  | some v ↦ string_is_hex_array text
]

-- `tolower` in the C locale, and `oc_char_convert_to_lower`
abbrev pub to_lower : ℕ → ℕ
to_lower ch = if leb b'A' ch && leb ch b'Z' then ch + 32 else ch

unfoldable pub char_convert_to_lower : List ℕ → List ℕ
char_convert_to_lower [] = []
char_convert_to_lower (ch ∷ text) = to_lower ch ∷ char_convert_to_lower text
