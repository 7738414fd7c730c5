-- ===== src/Prelude/Keyed.antt =====
-- Lists of records that are known by their addresses: different addresses, and removal by address.
use Prim.Native.Nat.{ℕ}
use mathlib.Core.Path.{◌≡◌, sym}
use mathlib.Core.Logic.{◌≢◌}
use mathlib.Core.List.{List, [], ◌∷◌, ◌++◌}
use native.Mathlib.Omega.{arith}
use knx_iot_stack.Prelude.Tests.{◌==◌, if◌then◌else◌}

module _ {A : Type 0} (address : A → ℕ) where
  -- No record of the list has the address.
  abbrev pub Fresh : ℕ → List A → Type 0
  Fresh a [] = Unit {0}
  Fresh a (x ∷ xs) = (address x ≢ a) × Fresh a xs

  -- The records have different addresses.
  abbrev pub Distinct : List A → Type 0
  Distinct [] = Unit {0}
  Distinct (x ∷ xs) = Fresh (address x) xs × Distinct xs

  -- No record of the first list has the address of one of the second.
  abbrev pub Apart : List A → List A → Type 0
  Apart pre [] = Unit {0}
  Apart pre (x ∷ xs) = Fresh (address x) pre × Apart pre xs

  Fresh-snoc : (a : ℕ) (xs : List A) (x : A) → Fresh a xs → address x ≢ a → Fresh a (xs ++ x ∷ [])
  Fresh-snoc a [] x f n = (n, tt)
  Fresh-snoc a (y ∷ ys) x f n = (f.0, Fresh-snoc a ys x f.1 n)

  pub Apart-nil : (xs : List A) → Apart [] xs
  Apart-nil [] = tt
  Apart-nil (x ∷ xs) = (tt, Apart-nil xs)

  pub Apart-snoc :
      (pre xs : List A) (x : A) → Apart pre xs → Fresh (address x) xs → Apart (pre ++ x ∷ []) xs
  Apart-snoc pre [] x a f = tt
  Apart-snoc pre (y ∷ ys) x a f =
      (Fresh-snoc (address y) pre x a.0 (λ e. f.0 (sym e)), Apart-snoc pre ys x a.1 f.1)

  -- `oc_list_remove`, on the sequence of the records
  unfoldable pub remove_at : ℕ → List A → List A
  remove_at a [] = []
  remove_at a (x ∷ xs) = if address x == a then xs else x ∷ remove_at a xs

  pub remove_at-middle :
      (pre xs : List A) (x : A)
      → Fresh (address x) pre
      → remove_at (address x) (pre ++ x ∷ xs) ≡ pre ++ xs
  unfolding remove_at
  remove_at-middle [] xs x f = ground arith
  remove_at-middle (y ∷ ys) xs x f = ground (arith, remove_at-middle ys xs x f.1)
