-- ===== src/Access/Masks.antt =====
-- Masks with bits in common.
use knx_iot_stack.Prelude.{
  ℕ, zero, suc, ◌/◌, ◌%◌, ◌^◌, ◌<◌, ◌≡◌, ◌↔◌, refl, sym, ap, arith, ◌∙◌, Bool, true, false, not,
  ◌&&◌, ltb, ◌==◌, if◌then◌else◌, bit_and, inl, inr, Bool-cases,
}
use knx_iot_stack.Prelude.Bits.{testbit, bit_and_step, bit_and-pow, bit_and-zero, testbit-mod}
use native.Mathlib.Nat.{pow-suc, mod-eq_of_lt}
use knx_iot_stack.Access.{has}

-- Two numbers have one of the lowest `n` bits in common.
abbrev pub shares : ℕ → ℕ → ℕ → Bool
shares zero w k = false
shares (suc n) w k =
    let rest = shares n (w / 2) (k / 2) in if (k % 2 == 1) && (w % 2 == 1) then true else rest

pub bit_and-shares : (n w k : ℕ) → k < 2 ^ n → (bit_and w k == 0) ≡ not (shares n w k)
bit_and-shares zero w k h = let e : k ≡ 0 = omega arith in rw (e, bit_and-zero w) refl
bit_and-shares (suc n) w k h =
    let half : k / 2 < 2 ^ n = omega (arith, h, pow-suc 2 n) in
    ground (arith, bit_and_step w k, bit_and-shares n (w / 2) (k / 2) half)

not-not : (b : Bool) → not (not b) ≡ b
not-not true = refl
not-not false = refl

pub has-shares : (n w k : ℕ) → k < 2 ^ n → has w k ≡ shares n w k
has-shares n w k h = ap not (bit_and-shares n w k h) ∙ not-not (shares n w k)

pub has-testbit : (w i : ℕ) → has w (2 ^ i) ≡ testbit w i
has-testbit w i = ap not (bit_and-pow w i) ∙ not-not (testbit w i)

common : (n w k i : ℕ) → i < n → testbit w i ≡ true → testbit k i ≡ true → shares n w k ≡ true
unfolding testbit
common zero w k i l a b = absurd (omega (arith, l))
common (suc n) w k zero l a b = ground (arith, a, b)
common (suc n) w k (suc i) l a b = ground (arith, common n (w / 2) (k / 2) i (omega (arith, l)) a b)

-- Numbers have bits in common exactly when a bit is set in both.
pub shares-testbit :
    (n w k : ℕ)
    → (shares n w k ≡ true) ↔ ((i : ℕ) × (i < n) × (testbit w i ≡ true) × (testbit k i ≡ true))
unfolding testbit
shares-testbit zero w k = ((λ h. ground (arith, h)), λ (i, l, a, b). absurd (omega (arith, l)))
shares-testbit (suc n) w k = (
  λ h. elim (Bool-cases ((k % 2 == 1) && (w % 2 == 1))) [
    | inl e ↦ (0, omega arith, ground (arith, e), ground (arith, e))
    | inr e ↦
        let (i, l, a, b) = (shares-testbit n (w / 2) (k / 2)).0 (ground (arith, h, e)) in
        (suc i, omega (arith, l), a, b)
  ],
  λ (i, l, a, b). common (suc n) w k i l a b,
)

-- A bit is set in both numbers.
abbrev pub InCommon : ℕ → ℕ → Type 0
InCommon w k = (i : ℕ) × (testbit w i ≡ true) × (testbit k i ≡ true)

below_top : (n k i : ℕ) → k < 2 ^ n → testbit k i ≡ true → i < n
below_top n k i h t =
    let e : k % 2 ^ n ≡ k = mod-eq_of_lt h in
    let m : testbit k i ≡ (if ltb i n then testbit k i else false) =
      sym (ap (λ x. testbit x i) e) ∙ testbit-mod n k i in
    ground (arith, m, t)

-- A mask has a bit of another, below `2 ^ n`, exactly if they have one in common.
pub has-InCommon : (n w k : ℕ) → k < 2 ^ n → (has w k ≡ true) ↔ InCommon w k
has-InCommon n w k h = (
  λ t. let (i, l, a, b) = (shares-testbit n w k).0 (sym (has-shares n w k h) ∙ t) in (i, a, b),
  λ (i, a, b). has-shares n w k h ∙ (shares-testbit n w k).1 (i, below_top n k i h b, a, b),
)
