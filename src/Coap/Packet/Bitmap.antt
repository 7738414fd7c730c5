-- ===== src/Coap/Packet/Bitmap.antt =====
-- The map of options: an option is set exactly when it was set or is the one that is set now.
use knx_iot_stack.Prelude.{
  ℕ, zero, suc, ◌/◌, ◌%◌, ◌^◌, ◌<◌, ◌≡◌, ◌≢◌, refl, ap, ◌∙◌, arith, Bool, true, false, not, List,
  [], ◌∷◌, ◌==◌, if◌then◌else◌, length, get_or, set, length-set, set-set, ℕ_discrete, dec_lt, ◌≤◌,
  bit_or,
}
use knx_iot_stack.Prelude.Bits.{testbit, bit_and-pow, testbit-bit_or_pow, bit_or_idem}
use knx_iot_stack.Coap.Packet.{set_option, is_option}

not-not : (b : Bool) → not (not b) ≡ b
not-not true = refl
not-not false = refl

-- An option is the bit of its number.
is_option-testbit :
    (opt : ℕ) (options : List ℕ)
    → is_option opt options ≡ testbit (get_or options (opt / 8) 0) (opt % 8)
unfolding is_option
is_option-testbit opt options = rw (bit_and-pow (get_or options (opt / 8) 0) (opt % 8)) (not-not _)

get_or-set_self : (xs : List ℕ) (i v d : ℕ) → i < length xs → get_or (set xs i v) i d ≡ v
get_or-set_self [] i v d h = elim h [ ]
get_or-set_self (x ∷ xs) zero v d h = refl
get_or-set_self (x ∷ xs) (suc i) v d h = get_or-set_self xs i v d (omega arith)

get_or-set_ne : (xs : List ℕ) (i j v d : ℕ) → i ≢ j → get_or (set xs i v) j d ≡ get_or xs j d
get_or-set_ne [] i j v d h = refl
get_or-set_ne (x ∷ xs) zero zero v d h = absurd (h refl)
get_or-set_ne (x ∷ xs) zero (suc j) v d h = refl
get_or-set_ne (x ∷ xs) (suc i) zero v d h = refl
get_or-set_ne (x ∷ xs) (suc i) (suc j) v d h = get_or-set_ne xs i j v d (λ e. h (ap suc e))

pub length-set_option :
    (opt : ℕ) (options : List ℕ) → length (set_option opt options) ≡ length options
unfolding set_option
length-set_option opt options = length-set options _ _

-- The byte of an option changes by the bit of the option, and no other byte changes.
byte-set_option :
    (opt j : ℕ) (options : List ℕ)
    → opt / 8 < length options
    → get_or (set_option opt options) j 0
      ≡ (if opt / 8 == j then bit_or (get_or options j 0) (2 ^ (opt % 8)) else get_or options j 0)
unfolding set_option
byte-set_option opt j options h = elim (ℕ_discrete (opt / 8) j) [
  | yes e ↦ rw (← e) (get_or-set_self options (opt / 8) _ 0 h ∙ ground arith)
  | no n ↦ get_or-set_ne options (opt / 8) j _ 0 n ∙ ground arith
]

-- Setting an option sets it and no other.
pub is_option-set_option :
    (opt other : ℕ) (options : List ℕ)
    → opt / 8 < length options
    → is_option other (set_option opt options)
      ≡ (if opt == other then true else is_option other options)
is_option-set_option opt other options h =
    is_option-testbit other (set_option opt options)
    ∙ ap (λ b. testbit b (other % 8)) (byte-set_option opt (other / 8) options h)
    ∙ ground (
      arith,
      testbit-bit_or_pow (get_or options (other / 8) 0) (opt % 8) (other % 8),
      is_option-testbit other options,
    )

set_beyond : (xs : List ℕ) (i v : ℕ) → length xs ≤ i → set xs i v ≡ xs
set_beyond [] i v h = refl
set_beyond (x ∷ xs) zero v h = absurd (omega (arith, h))
set_beyond (x ∷ xs) (suc i) v h = ap (λ l. x ∷ l) (set_beyond xs i v (omega (arith, h)))

-- Setting an option again changes nothing.
pub set_option_idem :
    (opt : ℕ) (options : List ℕ) → set_option opt (set_option opt options) ≡ set_option opt options
unfolding set_option
set_option_idem opt options = elim (dec_lt (opt / 8) (length options)) [
  | yes h ↦
      set-set options (opt / 8) _ _
      ∙ ap (set options (opt / 8)) (
          ap (λ b. bit_or b (2 ^ (opt % 8))) (get_or-set_self options (opt / 8) _ 0 h)
          ∙ bit_or_idem (get_or options (opt / 8) 0) (2 ^ (opt % 8)))
  | no n ↦
      set_beyond (set_option opt options) (opt / 8) _
        (omega (arith, n, length-set_option opt options))
]
