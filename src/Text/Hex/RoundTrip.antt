-- ===== src/Text/Hex/RoundTrip.antt =====
-- Bytes are printed and read back, and digits are read and printed.
use knx_iot_stack.Prelude.{
  ℕ, zero, suc, ◌+◌, ◌*◌, ◌/◌, ◌%◌, ◌<◌, ◌≤◌, ◌≡◌, ◌≢◌, refl, arith, ◌∙◌, none, some, true, false,
  List, [], ◌∷◌, ltb, ◌==◌, length, AllBytes, more_bytes, Option-cases, inl, inr,
}
use knx_iot_stack.Text.{hex_digit, print_byte}
use knx_iot_stack.Text.Hex.{
  print_array, byte_array_to_hex_string, hex_value, second_digit, scan_two, scan_pairs, skip_spaces,
  hex_string_to_byte_array, hex_string_to_oc_string, string_is_hex_array, to_lower,
  char_convert_to_lower,
}

hex_value-hex_digit : (d : ℕ) → d < 16 → hex_value (hex_digit d) ≡ some d
unfolding hex_value hex_digit
hex_value-hex_digit d h = ground arith

-- A digit is no white space and no sign, and printing its value gives it in lower case.
record IsDigit (ch v : ℕ) : Type 0 where
  below : v < 16
  kept : (text : List ℕ) → skip_spaces (ch ∷ text) ≡ ch ∷ text
  unsigned : (ch == b'+') ≡ false
  positive : (ch == b'-') ≡ false
  printed : hex_digit v ≡ to_lower ch

hex_value-IsDigit : (ch v : ℕ) → hex_value ch ≡ some v → IsDigit ch v
unfolding hex_value hex_digit
hex_value-IsDigit ch v h = record {
  below = ground arith;
  kept = λ text. ground arith;
  unsigned = ground arith;
  positive = ground arith;
  printed = ground arith;
}

-- Two digits are read as their number.
scan-digits :
    (a b v w : ℕ) (text : List ℕ)
    → hex_value a ≡ some v
    → hex_value b ≡ some w
    → scan_two (a ∷ b ∷ text) ≡ some (v * 16 + w)
unfolding scan_two
scan-digits a b v w text h g =
    let d = hex_value-IsDigit a v h in
    rw (d.kept (b ∷ text), d.unsigned, d.positive, h, second_digit, g) refl

first_is_digit :
    (ch : ℕ) (text : List ℕ)
    → string_is_hex_array (ch ∷ text) ≡ true
    → (v : ℕ) × (hex_value ch ≡ some v) × (string_is_hex_array text ≡ true)
unfolding string_is_hex_array
first_is_digit ch text h = elim (Option-cases (hex_value ch)) [
  | inl e ↦ ground (arith, h, e)
  | inr (v, e) ↦ (v, e, ground (arith, h, e))
]

scan_pairs-print_array :
    (array : List ℕ) → AllBytes array → scan_pairs (length array) (print_array array) ≡ some array
unfolding scan_pairs print_array print_byte
scan_pairs-print_array [] a = refl
scan_pairs-print_array (b ∷ array) (more_bytes h a) =
    let high = hex_value-hex_digit (b / 16) (omega arith) in
    let low = hex_value-hex_digit (b % 16) (omega arith) in
    let value : b / 16 * 16 + b % 16 ≡ b = omega arith in
    rw
      (
        scan-digits (hex_digit (b / 16)) (hex_digit (b % 16)) (b / 16) (b % 16) (print_array array)
            high low,
        scan_pairs-print_array array a,
        value,
      )
      refl

length-print_array : (array : List ℕ) → length (print_array array) ≡ length array + length array
unfolding print_array print_byte
length-print_array [] = refl
length-print_array (b ∷ array) = omega (arith, length-print_array array)

-- A text of an even number of characters, not none, is read by pairs.
read_even :
    (text : List ℕ) (n array_len : ℕ)
    → length text ≡ n + n
    → 0 < n
    → n ≤ array_len
    → hex_string_to_byte_array text (length text) array_len ≡ scan_pairs n text
unfolding hex_string_to_byte_array
read_even text n array_len h p l =
    let half : (n + n) / 2 ≡ n = omega arith in
    let some_left : ltb (n + n) 1 ≡ false = ground arith in
    let fits : ltb array_len ((n + n + 1) / 2) ≡ false = ground arith in
    let even : ((n + n) % 2 == 0) ≡ true = ground arith in rw (h, some_left, fits, even, half) refl

-- Printing an array that is not empty, into a buffer with two characters for each byte and one for the
-- end, gives a text, and reading that text, into an array that is large enough, gives the bytes back.
pub hex_string_to_byte_array-print :
    (array : List ℕ) (hex_str_len array_len : ℕ)
    → AllBytes array
    → 0 < length array
    → length array * 2 + 1 ≤ hex_str_len
    → length array ≤ array_len
    → (text : List ℕ) × (byte_array_to_hex_string array hex_str_len ≡ some text)
      × (hex_string_to_byte_array text (length text) array_len ≡ some array)
unfolding byte_array_to_hex_string
hex_string_to_byte_array-print array hex_str_len array_len a p h l = (
  print_array array,
  ground arith,
  read_even (print_array array) (length array) array_len (length-print_array array) p l
      ∙ scan_pairs-print_array array a,
)

-- What pairs of digits are read as is printed as those digits in lower case.
scan_pairs-digits :
    (n : ℕ) (text : List ℕ)
    → length text ≡ n + n
    → string_is_hex_array text ≡ true
    → (bytes : List ℕ) × (scan_pairs n text ≡ some bytes)
      × (print_array bytes ≡ char_convert_to_lower text)
unfolding scan_pairs print_array print_byte string_is_hex_array char_convert_to_lower
scan_pairs-digits zero [] l h = ([], refl, refl)
scan_pairs-digits zero (a ∷ text) l h = absurd (omega (arith, l))
scan_pairs-digits (suc n) [] l h = absurd (omega (arith, l))
scan_pairs-digits (suc n) (a ∷ []) l h = absurd (omega (arith, l))
scan_pairs-digits (suc n) (a ∷ b ∷ text) l h =
    let (v, e, more) = first_is_digit a (b ∷ text) h in
    let (w, f, rest) = first_is_digit b text more in
    let (bytes, read, printed) = scan_pairs-digits n text (omega (arith, l)) rest in
    let d = hex_value-IsDigit a v e in
    let c = hex_value-IsDigit b w f in
    let high : (v * 16 + w) / 16 ≡ v = omega (arith, c.below) in
    let low : (v * 16 + w) % 16 ≡ w = omega (arith, c.below) in
    (
      (v * 16 + w) ∷ bytes,
      rw (scan-digits a b v w text e f, read) refl,
      rw (high, low, d.printed, c.printed, printed) refl,
    )

-- A text of digits is converted if their number is even and not zero, and printing the bytes gives the
-- text in lower case; if their number is odd, the conversion fails, since it provides for one byte less
-- than it needs.
pub hex_string_to_oc_string-digits :
    (text : List ℕ)
    → string_is_hex_array text ≡ true
    → 0 < length text
    → (length text % 2 ≡ 0
        → (bytes : List ℕ) × (hex_string_to_oc_string text (length text) ≡ some bytes)
          × (print_array bytes ≡ char_convert_to_lower text))
      × (length text % 2 ≢ 0 → hex_string_to_oc_string text (length text) ≡ none)
unfolding hex_string_to_oc_string hex_string_to_byte_array
hex_string_to_oc_string-digits text h p = (
  λ even.
      let n : length text ≡ length text / 2 + length text / 2 = omega (arith, even) in
      let (bytes, read, printed) = scan_pairs-digits (length text / 2) text n h in
      (
        bytes,
        read_even text (length text / 2) (length text / 2) n (omega (arith, even, p)) (omega arith)
            ∙ read,
        printed,
      ),
  λ odd.
      let short : ltb (length text / 2) ((length text + 1) / 2) ≡ true = ground arith in
      let left : ltb (length text) 1 ≡ false = ground arith in rw (left, short) refl,
)
