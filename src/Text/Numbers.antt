-- ===== src/Text/Numbers.antt =====
-- api/oc_helpers.c: numbers of 64 bits as texts, in decimal and in hexadecimal digits.
pub mod Values
use knx_iot_stack.Prelude.{
  ℕ, zero, suc, ◌+◌, ◌-◌, ◌*◌, ◌/◌, ◌%◌, ◌^◌, List, [], ◌∷◌, ◌==◌, if◌then◌else◌, bit_and,
}
use knx_iot_stack.Text.{hex_digit}

-- The loop of `oc_conv_uint64_to_dec_string` that counts the digits, in at most `n` rounds.
unfoldable pub count_digits : ℕ → ℕ → ℕ
count_digits zero temp = 0
count_digits (suc n) temp =
    let rest = count_digits n (temp / 10) in if temp == 0 then 0 else suc rest

-- The loop that writes the digits: the last `n`, in front of those that are written.
unfoldable pub write_digits : ℕ → ℕ → List ℕ → List ℕ
write_digits zero number written = written
write_digits (suc n) number written = write_digits n (number / 10) ((b'0' + number % 10) ∷ written)

-- `oc_conv_uint64_to_dec_string`; a number of 64 bits has at most 20 digits.
unfoldable pub uint64_to_dec_string : ℕ → List ℕ
uint64_to_dec_string number =
    if number == 0 then b'0' ∷ [] else write_digits (count_digits 20 number) number []

-- The loop of `oc_conv_uint64_to_hex_string` that writes the last `n` of the 16 digits; the number is
-- shifted into a `uint8_t`.
unfoldable pub nibbles : ℕ → ℕ → List ℕ
unfolding hex_digit
nibbles zero number = []
nibbles (suc n) number = hex_digit (bit_and (number / 2 ^ (n * 4) % 256) 0xF) ∷ nibbles n number

-- The loop that counts the leading zeros, and the copy without them.
unfoldable pub strip_zeros : List ℕ → List ℕ
strip_zeros [] = []
strip_zeros (ch ∷ text) = let rest = strip_zeros text in if ch == b'0' then rest else ch ∷ text

-- `oc_conv_uint64_to_hex_string`
unfoldable pub uint64_to_hex_string : ℕ → List ℕ
uint64_to_hex_string number = if number == 0 then b'0' ∷ [] else strip_zeros (nibbles 16 number)
