-- ===== src/Coap/Options/Integers.antt =====
-- Integer options: the value is written without leading zeros, and read back.
use knx_iot_stack.Prelude.{
  ℕ, ◌+◌, ◌-◌, ◌*◌, ◌/◌, ◌%◌, ◌^◌, ◌≤◌, ◌<◌, ◌≡◌, ◌↔◌, refl, arith, ◌∙◌, append_assoc, take,
  take-append, List, [], ◌∷◌, ◌++◌, ltb, ◌==◌, if◌then◌else◌, length, bit_and, bit_or,
}
use knx_iot_stack.Prelude.Bits.{bit_and-ones, bit_and-shifted, bit_or_add}
use knx_iot_stack.Coap.Options.{
  int_value, parse_int_from, parse_int_option, got, parse_option_header, set_option_header,
  serialize_int_option,
}
use knx_iot_stack.Coap.Options.Headers.{parse-set_option_header}

-- The masks tell whether a 32-bit value needs four, three, two or one byte.
module _ (v : ℕ) (h : v < 2 ^ 32) where
  mask_24 : (bit_and v 0xFF000000 == 0) ≡ ltb v (2 ^ 24)
  mask_24 = ground (arith, bit_and-shifted 24 v 0xFF, bit_and-ones 8 (v / 2 ^ 24))

  mask_16 : (bit_and v 0xFFFF0000 == 0) ≡ ltb v (2 ^ 16)
  mask_16 = ground (arith, bit_and-shifted 16 v 0xFFFF, bit_and-ones 16 (v / 2 ^ 16))

  mask_8 : (bit_and v 0xFFFFFF00 == 0) ≡ ltb v (2 ^ 8)
  mask_8 = ground (arith, bit_and-shifted 8 v 0xFFFFFF, bit_and-ones 24 (v / 2 ^ 8))

  mask_0 : (bit_and v 0xFFFFFFFF == 0) ≡ ltb v 1
  mask_0 = ground (arith, bit_and-ones 32 v)

  int_value_lem : int_value v ≡ (
      if ltb v 1
      then []
      else if ltb v (2 ^ 8)
      then v ∷ []
      else if ltb v (2 ^ 16)
      then v / 2 ^ 8 ∷ v % 256 ∷ []
      else if ltb v (2 ^ 24)
      then v / 2 ^ 16 ∷ v / 2 ^ 8 % 256 ∷ v % 256 ∷ []
      else v / 2 ^ 24 ∷ v / 2 ^ 16 % 256 ∷ v / 2 ^ 8 % 256 ∷ v % 256 ∷ [])
  unfolding int_value
  int_value_lem = rw (mask_24, mask_16, mask_8, mask_0) (ground arith)

  -- At most four bytes, and none exactly for the value zero.
  pub length-int_value : (length (int_value v) ≤ 4) × ((length (int_value v) ≡ 0) ↔ (v ≡ 0))
  length-int_value = rw int_value_lem (ground arith)

parse_byte : (var b : ℕ) → b < 256 → var < 2 ^ 24 → bit_or (var * 256 % 2 ^ 32) b ≡ var * 256 + b
parse_byte var b hb hv =
    let e : var * 256 % 2 ^ 32 ≡ var * 256 = omega arith in rw e (bit_or_add 8 var b hb)

parse_step :
    (var b : ℕ) (bs : List ℕ)
    → b < 256
    → var < 2 ^ 24
    → parse_int_from var (b ∷ bs) ≡ parse_int_from (var * 256 + b) bs
unfolding parse_int_from
parse_step var b bs hb hv = rw (parse_byte var b hb hv)

parse_none : (var : ℕ) → parse_int_from var [] ≡ var
unfolding parse_int_from
parse_none var = refl

parse_four :
    (a b c d : ℕ)
    → a < 256
    → b < 256
    → c < 256
    → d < 256
    → parse_int_from 0 (a ∷ b ∷ c ∷ d ∷ []) ≡ ((a * 256 + b) * 256 + c) * 256 + d
parse_four a b c d ha hb hc hd =
    parse_step 0 a (b ∷ c ∷ d ∷ []) ha (omega arith)
    ∙ parse_step (0 * 256 + a) b (c ∷ d ∷ []) hb (omega arith)
    ∙ parse_step ((0 * 256 + a) * 256 + b) c (d ∷ []) hc (omega arith)
    ∙ parse_step (((0 * 256 + a) * 256 + b) * 256 + c) d [] hd (omega arith)
    ∙ parse_none ((((0 * 256 + a) * 256 + b) * 256 + c) * 256 + d)
    ∙ omega arith

-- Leading zeros do not change the value.
parse_zero : (bs : List ℕ) → parse_int_from 0 (0 ∷ bs) ≡ parse_int_from 0 bs
parse_zero bs = parse_step 0 0 bs (omega arith) (omega arith)

-- A 32-bit value is read back as it was written.
pub parse-int_value : (v : ℕ) → v < 2 ^ 32 → parse_int_option (int_value v) ≡ v
unfolding parse_int_option
parse-int_value v h = rw (int_value_lem v h) (
    ground (
      arith,
      parse_none 0,
      parse_zero (v ∷ []),
      parse_zero (0 ∷ v ∷ []),
      parse_zero (0 ∷ 0 ∷ v ∷ []),
      parse_four 0 0 0 v (omega arith) (omega arith) (omega arith),
      parse_zero (v / 2 ^ 8 ∷ v % 256 ∷ []),
      parse_zero (0 ∷ v / 2 ^ 8 ∷ v % 256 ∷ []),
      parse_four 0 0 (v / 2 ^ 8) (v % 256) (omega arith) (omega arith),
      parse_zero (v / 2 ^ 16 ∷ v / 2 ^ 8 % 256 ∷ v % 256 ∷ []),
      parse_four 0 (v / 2 ^ 16) (v / 2 ^ 8 % 256) (v % 256) (omega arith),
      parse_four (v / 2 ^ 24) (v / 2 ^ 16 % 256) (v / 2 ^ 8 % 256) (v % 256),
    ))

-- An integer option with a number not below the one before and in range: its header is read back as
-- the difference of the numbers and the length of the value, and the bytes of that length that follow
-- are read back as the value.
pub parse-serialize_int_option :
    (number current value : ℕ) (rest : List ℕ)
    → current ≤ number
    → number < 2 ^ 16
    → value < 2 ^ 32
    → (n : ℕ) × (tail : List ℕ) × (parse_option_header
          (serialize_int_option number current value ++ rest)
        ≡ got (number - current, n) tail)
      × (parse_int_option (take n tail) ≡ value)
unfolding serialize_int_option
parse-serialize_int_option number current value rest le hn hv = (
  length (int_value value),
  int_value value ++ rest,
  rw (delta, append_assoc (set_option_header (number - current) (length (int_value value))))
      (parse-set_option_header (number - current) (length (int_value value))
        (int_value value ++ rest) (omega arith) (omega (arith, length-int_value value hv))),
  rw (take-append (int_value value) rest) (parse-int_value value hv),
)
  where
    delta : (number + 2 ^ 32 - current) % 2 ^ 32 ≡ number - current
    delta = omega arith
