-- ===== src/Prelude/Bits.antt =====
-- Laws of the bit operations at variables, one binary digit at a time, and `testbit`.
use Prim.Native.Nat.{
  ℕ, zero, suc, ◌+◌, ◌-◌, ◌*◌, ◌/◌, ◌%◌, ◌^◌, ◌≤◌, ◌<◌, min, max, bit_and, bit_or, digits,
  bit_and-bitwise, bit_or-bitwise,
}
use mathlib.Core.Path.{◌≡◌, refl, sym, ap, ◌∙◌}
use native.Mathlib.Nat.{
  zero-add, suc-add, pow-suc, mul-one, sub-zero, mul_comm, div-add-mod, div-div-eq-div-mul,
}
use mathlib.Core.Bool.{Bool, true, false, not}
use native.Mathlib.Omega.{arith}
use native.Mathlib.Decide.{ℕ_discrete}
use knx_iot_stack.Prelude.Tests.{◌==◌, ltb, if◌then◌else◌}

-- A test passes at every number below a bound; the test runs from the bound down.
unfoldable pub passes_below : (ℕ → Bool) → ℕ → Bool
passes_below test zero = true
passes_below test (suc bound) = if test bound then passes_below test bound else false

pub passes_below-at :
    (test : ℕ → Bool) (bound : ℕ) {k : ℕ}
    → k < bound
    → passes_below test bound ≡ true
    → test k ≡ true
unfolding passes_below
passes_below-at test zero l t = absurd (omega (arith, l))
passes_below-at test (suc bound) {k} l t = elim (ℕ_discrete k bound) [
  | yes e ↦ rw e (ground (arith, t))
  | no n ↦ passes_below-at test bound {k = k} (omega (arith, l, n)) (ground (arith, t))
]

-- An operation on binary digits: its fuel is no more than the number needs, so that the first digit
-- can be split off.
module _ (z : ℕ → ℕ) (f : ℕ → ℕ → ℕ) where
  digits-suc_fuel : (n a b : ℕ) → a ≤ n → digits z f (suc n) a b ≡ digits z f n a b
  digits-suc_fuel zero zero b l = refl
  digits-suc_fuel zero (suc a) b l = absurd (omega (arith, l))
  digits-suc_fuel (suc n) zero b l = refl
  digits-suc_fuel (suc n) (suc a) b l =
      ap (λ rest. rest * 2 + f (suc a % 2) (b % 2))
        (digits-suc_fuel n (suc a / 2) (b / 2) (omega (arith, l)))

  digits-more_fuel : (extra n a b : ℕ) → a ≤ n → digits z f (extra + n) a b ≡ digits z f n a b
  digits-more_fuel zero n a b l = rw zero-add refl
  digits-more_fuel (suc extra) n a b l =
      rw suc-add
        (digits-suc_fuel (extra + n) a b (omega (arith, l)) ∙ digits-more_fuel extra n a b l)

  digits-half : (a b : ℕ) → digits z f a (suc a / 2) b ≡ digits z f (suc a / 2) (suc a / 2) b
  digits-half a b =
      let e : a ≡ (a - suc a / 2) + suc a / 2 = omega arith in
      ap (λ n. digits z f n (suc a / 2) b) e
      ∙ digits-more_fuel (a - suc a / 2) (suc a / 2) (suc a / 2) b (omega arith)

  digits-first :
      (a b : ℕ)
      → digits z f (suc a) (suc a) b
        ≡ digits z f (suc a / 2) (suc a / 2) (b / 2) * 2 + f (suc a % 2) (b % 2)
  digits-first a b = ap (λ rest. rest * 2 + f (suc a % 2) (b % 2)) (digits-half a (b / 2))

  -- Where the operation of a digit with zero is a fixed function that the halves follow, so is that of
  -- the numbers.
  digits-zero :
      (g : ℕ → ℕ)
      → g 0 ≡ z 0
      → ((a : ℕ) → g (a / 2) * 2 + f (a % 2) 0 ≡ g a)
      → (n a : ℕ) → a ≤ n
      → digits z f n a 0 ≡ g a
  digits-zero g p q zero zero l = sym p
  digits-zero g p q zero (suc a) l = absurd (omega (arith, l))
  digits-zero g p q (suc n) zero l = sym p
  digits-zero g p q (suc n) (suc a) l =
      ap (λ rest. rest * 2 + f (suc a % 2) 0) (digits-zero g p q n (suc a / 2) (omega (arith, l)))
      ∙ q (suc a)

pub bit_and_step : (a b : ℕ) → bit_and a b ≡ bit_and (a / 2) (b / 2) * 2 + min (a % 2) (b % 2)
bit_and_step zero b = rw (bit_and-bitwise 0 b, bit_and-bitwise 0 (b / 2)) (omega arith)
bit_and_step (suc a) b =
    bit_and-bitwise (suc a) b
    ∙ digits-first (λ d. 0) min a b
    ∙ ap (λ rest. rest * 2 + min (suc a % 2) (b % 2)) (sym (bit_and-bitwise (suc a / 2) (b / 2)))

pub bit_or_step : (a b : ℕ) → bit_or a b ≡ bit_or (a / 2) (b / 2) * 2 + max (a % 2) (b % 2)
bit_or_step zero b = rw (bit_or-bitwise 0 b, bit_or-bitwise 0 (b / 2)) (omega arith)
bit_or_step (suc a) b =
    bit_or-bitwise (suc a) b
    ∙ digits-first (λ d. d) max a b
    ∙ ap (λ rest. rest * 2 + max (suc a % 2) (b % 2)) (sym (bit_or-bitwise (suc a / 2) (b / 2)))

pub bit_and-zero : (a : ℕ) → bit_and a 0 ≡ 0
bit_and-zero a =
    bit_and-bitwise a 0
    ∙ digits-zero (λ d. 0) min (λ c. 0) refl (λ c. omega arith) a a (omega arith)

pub bit_or-zero : (a : ℕ) → bit_or a 0 ≡ a
bit_or-zero a =
    bit_or-bitwise a 0 ∙ digits-zero (λ d. d) max (λ c. c) refl (λ c. omega arith) a a (omega arith)

-- Bit `i` of `w`.
unfoldable pub testbit : ℕ → ℕ → Bool
testbit w zero = w % 2 == 1
testbit w (suc i) = testbit (w / 2) i

-- `w & (1 << i)` is not zero exactly when bit `i` is set.
pub bit_and-pow : (w i : ℕ) → (bit_and w (2 ^ i) == 0) ≡ not (testbit w i)
unfolding testbit
bit_and-pow w zero = ground (arith, bit_and_step w 1, bit_and-zero (w / 2))
bit_and-pow w (suc i) =
    ground (arith, bit_and_step w (2 ^ suc i), bit_and-pow (w / 2) i, pow-suc 2 i)

half_or : (w : ℕ) → bit_or w 1 / 2 ≡ w / 2
half_or w = omega (arith, bit_or_step w 1, bit_or-zero (w / 2))

half_or_pow : (w i : ℕ) → bit_or w (2 ^ suc i) / 2 ≡ bit_or (w / 2) (2 ^ i)
half_or_pow w i =
    let e : 2 ^ suc i / 2 ≡ 2 ^ i = omega (arith, pow-suc 2 i) in
    let h : bit_or (w / 2) (2 ^ suc i / 2) ≡ bit_or (w / 2) (2 ^ i) = rw e in
    omega (arith, bit_or_step w (2 ^ suc i), h, pow-suc 2 i)

mul_pow_suc : (w k : ℕ) → w * 2 ^ suc k ≡ w * 2 ^ k * 2
mul_pow_suc w k = rw (pow-suc 2 k) (omega arith)

half_shift : (w k : ℕ) → w * 2 ^ suc k / 2 ≡ w * 2 ^ k
half_shift w k = omega (arith, mul_pow_suc w k)

quotient : (w m : ℕ) → w / (m * 2) ≡ w / 2 / m
quotient w m = rw (div-div-eq-div-mul, mul_comm 2 m)

mod_double : (w m : ℕ) → w % (m * 2) ≡ w / 2 % m * 2 + w % 2
mod_double w m =
    omega
      (arith, div-add-mod w (m * 2), div-add-mod (w / 2) m, ap (λ (q : ℕ). m * q) (quotient w m))

half_mod : (w n : ℕ) → w % 2 ^ suc n / 2 ≡ w / 2 % 2 ^ n
half_mod w n = rw (pow-suc 2 n) (omega (arith, mod_double w (2 ^ n)))

low_mod : (w n : ℕ) → w % 2 ^ suc n % 2 ≡ w % 2
low_mod w n = rw (pow-suc 2 n) (omega (arith, mod_double w (2 ^ n)))

-- `w | (1 << i)` sets bit `i`, and no other.
pub testbit-bit_or_pow :
    (w i j : ℕ) → testbit (bit_or w (2 ^ i)) j ≡ (if i == j then true else testbit w j)
unfolding testbit
testbit-bit_or_pow w zero zero = ground (arith, bit_or_step w 1)
testbit-bit_or_pow w zero (suc j) = rw (half_or w) (ground arith)
testbit-bit_or_pow w (suc i) zero = ground (arith, bit_or_step w (2 ^ suc i), pow-suc 2 i)
testbit-bit_or_pow w (suc i) (suc j) =
    rw (half_or_pow w i, testbit-bit_or_pow (w / 2) i j) (ground arith)

-- `w << k` moves bit `i` to `i + k` and clears the bits below `k`.
pub testbit-shift :
    (w k i : ℕ) → testbit (w * 2 ^ k) i ≡ (if ltb i k then false else testbit w (i - k))
unfolding testbit
testbit-shift w zero i = rw (mul-one, sub-zero) (ground arith)
testbit-shift w (suc k) zero = ground (arith, mul_pow_suc w k)
testbit-shift w (suc k) (suc i) = rw (half_shift w k, testbit-shift w k i) (ground arith)

pub testbit-zero : (i : ℕ) → testbit 0 i ≡ false
unfolding testbit
testbit-zero zero = refl
testbit-zero (suc i) = testbit-zero i

-- Truncation to `n` bits clears the bits from `n` on, and no other.
pub testbit-mod : (n w i : ℕ) → testbit (w % 2 ^ n) i ≡ (if ltb i n then testbit w i else false)
unfolding testbit
testbit-mod zero w zero = ground arith
testbit-mod zero w (suc i) =
    let e : w % 1 / 2 ≡ 0 = omega arith in rw (e, testbit-zero i) (ground arith)
testbit-mod (suc n) w zero = ground (arith, low_mod w n)
testbit-mod (suc n) w (suc i) = rw (half_mod w n, testbit-mod n (w / 2) i) (ground arith)

-- Digits that do not overlap are joined by addition.
pub bit_or_add : (k x y : ℕ) → y < 2 ^ k → bit_or (x * 2 ^ k) y ≡ x * 2 ^ k + y
bit_or_add zero x y h = let e : y ≡ 0 = omega arith in rw e (omega (arith, bit_or-zero (x * 1)))
bit_or_add (suc k) x y h =
    let half : y / 2 < 2 ^ k = omega (arith, pow-suc 2 k) in
    let ih : bit_or (x * 2 ^ suc k / 2) (y / 2) ≡ x * 2 ^ k + y / 2 =
      rw (half_shift x k) (bit_or_add k x (y / 2) half) in
    omega (arith, bit_or_step (x * 2 ^ suc k) y, ih, mul_pow_suc x k)

-- A mask of `k` ones.
abbrev pub ones : ℕ → ℕ
ones zero = 0
ones (suc k) = ones k * 2 + 1

pub bit_and-ones : (k x : ℕ) → bit_and x (ones k) ≡ x % 2 ^ k
bit_and-ones zero x = omega (arith, bit_and-zero x)
bit_and-ones (suc k) x =
    let half : (ones k * 2 + 1) / 2 ≡ ones k = omega arith in
    let ih : bit_and (x / 2) ((ones k * 2 + 1) / 2) ≡ x / 2 % 2 ^ k =
      rw half (bit_and-ones k (x / 2)) in
    rw (pow-suc 2 k) (omega (arith, bit_and_step x (ones k * 2 + 1), ih, mod_double x (2 ^ k)))

-- A mask that is shifted up by `k` digits takes the digits from `k` on.
pub bit_and-shifted : (k x m : ℕ) → bit_and x (m * 2 ^ k) ≡ bit_and (x / 2 ^ k) m * 2 ^ k
bit_and-shifted zero x m =
    let e : x / 1 ≡ x = omega arith in rw (mul-one m, e) (sym (mul-one (bit_and x m)))
bit_and-shifted (suc k) x m =
    let ih : bit_and (x / 2) (m * 2 ^ suc k / 2) ≡ bit_and (x / 2 / 2 ^ k) m * 2 ^ k =
      rw (half_shift m k) (bit_and-shifted k (x / 2) m) in
    let q : x / 2 ^ suc k ≡ x / 2 / 2 ^ k = rw (pow-suc 2 k) (quotient x (2 ^ k)) in
    rw q (
      omega (
        arith,
        bit_and_step x (m * 2 ^ suc k),
        ih,
        mul_pow_suc m k,
        mul_pow_suc (bit_and (x / 2 / 2 ^ k) m) k,
      ))

bit_or_idem_below : (n a b : ℕ) → a ≤ n → b ≤ n → bit_or (bit_or a b) b ≡ bit_or a b
bit_or_idem_below zero a b h k =
    let p : a ≡ 0 = omega arith in let q : b ≡ 0 = omega arith in rw (p, q) refl
bit_or_idem_below (suc n) a b h k =
    let half : bit_or a b / 2 ≡ bit_or (a / 2) (b / 2) = omega (arith, bit_or_step a b) in
    let ih : bit_or (bit_or a b / 2) (b / 2) ≡ bit_or (a / 2) (b / 2) =
      rw half (bit_or_idem_below n (a / 2) (b / 2) (omega arith) (omega arith)) in
    omega (arith, bit_or_step a b, bit_or_step (bit_or a b) b, ih)

-- Setting bits again changes nothing.
pub bit_or_idem : (a b : ℕ) → bit_or (bit_or a b) b ≡ bit_or a b
bit_or_idem a b = bit_or_idem_below (a + b) a b (omega arith) (omega arith)
