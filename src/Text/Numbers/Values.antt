-- ===== src/Text/Numbers/Values.antt =====
-- The texts of numbers, against the usual value of a text of digits.
use knx_iot_stack.Prelude.{
  ℕ, zero, suc, ◌+◌, ◌-◌, ◌*◌, ◌/◌, ◌%◌, ◌^◌, ◌<◌, ◌≤◌, ◌≡◌, ◌≢◌, refl, ap, arith, ◌∙◌, false, Bool,
  List, [], ◌∷◌, ltb, ◌==◌, if◌then◌else◌, bit_and, ℕ_discrete,
}
use native.Mathlib.Nat.{
  pow-suc, mul_comm, mul_assoc, mul-add, add-mul, div-add-mod, div-div-eq-div-mul,
}
use knx_iot_stack.Prelude.Bits.{bit_and-ones}
use knx_iot_stack.Text.{hex_digit}
use knx_iot_stack.Text.Numbers.{
  count_digits, write_digits, uint64_to_dec_string, nibbles, strip_zeros, uint64_to_hex_string,
}

-- What a digit stands for.
abbrev digit_value : ℕ → ℕ
digit_value ch = if ltb ch b'a' then ch - 48 else ch - 87

-- The number that a text of digits stands for, behind digits that stand for `before`.
abbrev pub text_value : ℕ → ℕ → List ℕ → ℕ
text_value base before [] = before
text_value base before (ch ∷ text) = text_value base (before * base + digit_value ch) text

-- The first character of a text is not a zero, unless it is the only one.
abbrev pub has_leading_zero : List ℕ → Bool
has_leading_zero [] = false
has_leading_zero (ch ∷ []) = false
has_leading_zero (ch ∷ d ∷ text) = ch == b'0'

digit_value-decimal : (d : ℕ) → d < 10 → digit_value (b'0' + d) ≡ d
digit_value-decimal d h = ground arith

-- What the digits of a number and the text behind them stand for, behind the digits in front of the number.
text_value-write_digits :
    (n number : ℕ) (text : List ℕ)
    → number < 10 ^ n
    → text_value 10 0 (write_digits n number text) ≡ text_value 10 number text
unfolding write_digits
text_value-write_digits zero number text h = ap (λ k. text_value 10 k text) (omega arith)
text_value-write_digits (suc n) number text h =
    text_value-write_digits n (number / 10) ((b'0' + number % 10) ∷ text)
      (omega (arith, h, pow-suc 10 n))
    ∙ ap (λ k. text_value 10 k text)
        (ap (λ d. number / 10 * 10 + d) (digit_value-decimal (number % 10) (omega arith))
          ∙ omega arith)

abbrev zero_first : List ℕ → Bool
zero_first [] = false
zero_first (ch ∷ text) = ch == b'0'

zero_first-write_digits :
    (n number : ℕ) (text : List ℕ)
    → 10 ^ n ≤ number
    → number < 10 ^ suc n
    → zero_first (write_digits (suc n) number text) ≡ false
unfolding write_digits
zero_first-write_digits zero number text l h = ground (arith, pow-suc 10 0)
zero_first-write_digits (suc n) number text l h =
    zero_first-write_digits n (number / 10) ((b'0' + number % 10) ∷ text)
      (omega (arith, l, pow-suc 10 n)) (omega (arith, h, pow-suc 10 (suc n)))

count_digits-zero : (n : ℕ) → count_digits n 0 ≡ 0
unfolding count_digits
count_digits-zero zero = refl
count_digits-zero (suc n) = refl

count_digits-one : (n number : ℕ) → number / 10 ≡ 0 → number ≢ 0 → count_digits (suc n) number ≡ 1
unfolding count_digits
count_digits-one n number e p = rw e (ground (arith, p, count_digits-zero n))

-- The digits are as many as the number needs.
count_digits-needed :
    (n number : ℕ)
    → number < 10 ^ n
    → number ≢ 0
    → (k : ℕ) × (count_digits n number ≡ suc k) × (10 ^ k ≤ number) × (number < 10 ^ suc k)
unfolding count_digits
count_digits-needed zero number h p = absurd (p (omega (arith, h)))
count_digits-needed (suc n) number h p = elim (ℕ_discrete (number / 10) 0) [
  | yes e ↦ (0, count_digits-one n number e p, omega (arith, p), omega (arith, e, pow-suc 10 0))
  | no q ↦
      let (k, e, l, u) = count_digits-needed n (number / 10) (omega (arith, h, pow-suc 10 n)) q in
      (
        suc k,
        ground (arith, p, e),
        omega (arith, l, pow-suc 10 k),
        omega (arith, u, pow-suc 10 (suc k)),
      )
]

no_leading_zero : (text : List ℕ) → zero_first text ≡ false → has_leading_zero text ≡ false
no_leading_zero [] h = refl
no_leading_zero (ch ∷ []) h = refl
no_leading_zero (ch ∷ d ∷ text) h = h

-- The decimal text of a number of 64 bits stands for that number, and has no leading zero.
pub uint64_to_dec_string-value :
    (number : ℕ)
    → number < 2 ^ 64
    → (text_value 10 0 (uint64_to_dec_string number) ≡ number)
      × (has_leading_zero (uint64_to_dec_string number) ≡ false)
unfolding uint64_to_dec_string
uint64_to_dec_string-value number h = elim (ℕ_discrete number 0) [
  | yes e ↦ rw e (refl, refl)
  | no p ↦
      let (k, e, l, u) = count_digits-needed 20 number (omega (arith, h)) p in
      let positive : (number == 0) ≡ false = ground (arith, p) in
      rw (positive, e)
        (
          text_value-write_digits (suc k) number [] u,
          no_leading_zero (write_digits (suc k) number [])
              (zero_first-write_digits k number [] l u),
        )
]

pow_16 : (n : ℕ) → 2 ^ (n * 4) ≡ 16 ^ n
pow_16 zero = refl
pow_16 (suc n) =
    let e : suc n * 4 ≡ suc (suc (suc (suc (n * 4)))) = omega arith in
    rw e (
      omega (
        arith,
        pow-suc 2 (suc (suc (suc (n * 4)))),
        pow-suc 2 (suc (suc (n * 4))),
        pow-suc 2 (suc (n * 4)),
        pow-suc 2 (n * 4),
        pow-suc 16 n,
        pow_16 n,
      ))

nibble : (n number : ℕ) → bit_and (number / 2 ^ (n * 4) % 256) 0xF ≡ number / 16 ^ n % 16
nibble n number = rw (pow_16 n) (bit_and-ones 4 (number / 16 ^ n % 256) ∙ omega arith)

digit_value-hex_digit : (d : ℕ) → d < 16 → digit_value (hex_digit d) ≡ d
unfolding hex_digit
digit_value-hex_digit d h = ground arith

mod_step : (a m : ℕ) → a % (m * 16) ≡ a / m % 16 * m + a % m
mod_step a m = omega (
  arith,
  div-add-mod a m,
  ap (λ q. m * 16 * q) (div-div-eq-div-mul a m 16),
  div-add-mod a (m * 16),
  ap (λ q. m * q) (div-add-mod (a / m) 16),
  mul-add m (16 * (a / m / 16)) (a / m % 16),
  mul_assoc m 16 (a / m / 16),
  mul_comm m (a / m % 16),
)

text_value-nibbles :
    (n number before : ℕ)
    → text_value 16 before (nibbles n number) ≡ before * 16 ^ n + number % 16 ^ n
unfolding nibbles
text_value-nibbles zero number before = omega arith
text_value-nibbles (suc n) number before =
    let d = number / 16 ^ n % 16 in
    rw (nibble n number, digit_value-hex_digit d (omega arith))
      (omega (
        arith,
        text_value-nibbles n number (before * 16 + d),
        add-mul (before * 16) d (16 ^ n),
        mul_assoc before 16 (16 ^ n),
        ap (λ q. before * q) (pow-suc 16 n ∙ mul_comm (16 ^ n) 16),
        ap (λ q. number % q) (pow-suc 16 n),
        mod_step number (16 ^ n),
      ))

text_value-strip_zeros : (text : List ℕ) → text_value 16 0 (strip_zeros text) ≡ text_value 16 0 text
unfolding strip_zeros
text_value-strip_zeros [] = refl
text_value-strip_zeros (ch ∷ text) = elim (ℕ_discrete ch b'0') [
  | yes e ↦ rw e (text_value-strip_zeros text)
  | no d ↦ let f : (ch == b'0') ≡ false = ground (arith, d) in rw f refl
]

zero_first-strip_zeros : (text : List ℕ) → zero_first (strip_zeros text) ≡ false
unfolding strip_zeros
zero_first-strip_zeros [] = refl
zero_first-strip_zeros (ch ∷ text) = ground (arith, zero_first-strip_zeros text)

-- The hexadecimal text of a number of 64 bits stands for that number, and has no leading zero.
pub uint64_to_hex_string-value :
    (number : ℕ)
    → number < 2 ^ 64
    → (text_value 16 0 (uint64_to_hex_string number) ≡ number)
      × (has_leading_zero (uint64_to_hex_string number) ≡ false)
unfolding uint64_to_hex_string
uint64_to_hex_string-value number h = elim (ℕ_discrete number 0) [
  | yes e ↦ rw e (refl, refl)
  | no p ↦
      let positive : (number == 0) ≡ false = ground (arith, p) in
      rw positive (
        text_value-strip_zeros (nibbles 16 number)
            ∙ text_value-nibbles 16 number 0
            ∙ omega (arith, h),
        no_leading_zero (strip_zeros (nibbles 16 number))
            (zero_first-strip_zeros (nibbles 16 number)),
      )
]
