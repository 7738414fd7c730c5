-- ===== src/LinkedList/Chains.antt =====
-- What a memory holds: the chain of the items of a list.
use knx_iot_stack.Prelude.{
  ℕ, zero, suc, ◌+◌, ◌<◌, ◌≤◌, ◌≡◌, ◌≢◌, refl, arith, ◌∙◌, sym, ap, Option, some, none, Bool, true,
  false, List, [], ◌∷◌, ◌++◌, ◌==◌, if◌then◌else◌,
}
use knx_iot_stack.Prelude as P
use knx_iot_stack.LinkedList.{Memory, write, tail_loop}

-- The links from `l` lead through these items, and then end.
abbrev pub Chain : Memory → ℕ → List ℕ → Type 0
Chain m l [] = m l ≡ 0
Chain m l (x ∷ xs) = (m l ≡ x) × ((x ≢ 0) × Chain m x xs)

-- The address is none of these.
abbrev pub Fresh : ℕ → List ℕ → Type 0
Fresh a [] = Unit {0}
Fresh a (x ∷ xs) = (x ≢ a) × Fresh a xs

abbrev pub Distinct : List ℕ → Type 0
Distinct [] = Unit {0}
Distinct (x ∷ xs) = Fresh x xs × Distinct xs

-- The last of `l` and the items.
unfoldable pub last : ℕ → List ℕ → ℕ
last l [] = l
last l (x ∷ xs) = last x xs

pub neq_false : (a b : ℕ) → a ≢ b → (a == b) ≡ false
neq_false a b n = ground arith

pub write_same : (m : Memory) (a v : ℕ) → write m a v a ≡ v
unfolding write
write_same m a v = ground arith

pub write_other : (m : Memory) (a v p : ℕ) → p ≢ a → write m a v p ≡ m p
unfolding write
write_other m a v p n = ground arith

-- A write elsewhere leaves a chain alone.
pub Chain-write :
    (m : Memory) (a v l : ℕ) (xs : List ℕ)
    → Fresh a (l ∷ xs)
    → Chain m l xs
    → Chain (write m a v) l xs
Chain-write m a v l [] f c = write_other m a v l f.0 ∙ c
Chain-write m a v l (x ∷ xs) f c =
    (write_other m a v l f.0 ∙ c.0, (c.1.0, Chain-write m a v x xs f.1 c.1.1))

pub last-Fresh : (a l : ℕ) (xs : List ℕ) → Fresh a (l ∷ xs) → last l xs ≢ a
unfolding last
last-Fresh a l [] f = f.0
last-Fresh a l (x ∷ xs) f = last-Fresh a x xs f.1

-- The link of the last item may be set to a new item whose own link is the end.
pub Chain-write-last :
    (m : Memory) (l item : ℕ) (xs : List ℕ)
    → Distinct (l ∷ xs)
    → Fresh item (l ∷ xs)
    → item ≢ 0
    → m item ≡ 0
    → Chain m l xs
    → Chain (write m (last l xs) item) l (xs ++ item ∷ [])
unfolding last
Chain-write-last m l item [] d f n e c =
    (write_same m l item, (n, write_other m l item item (λ p. f.0 (sym p)) ∙ e))
Chain-write-last m l item (x ∷ xs) d f n e c = (
  write_other m (last x xs) item l (λ p. last-Fresh l x xs d.0 (sym p)) ∙ c.0,
  (c.1.0, Chain-write-last m x item xs d.1 f.1 n e c.1.1),
)

-- The loop of the tail stops at the last item.
pub tail_loop-last :
    (n : ℕ) (m : Memory) (l : ℕ) (xs : List ℕ)
    → Chain m l xs
    → P.length xs < n
    → tail_loop n m l ≡ some (last l xs)
unfolding tail_loop last
tail_loop-last zero m l xs c b = absurd (omega (arith, b))
tail_loop-last (suc n) m l [] c b = ground (arith, c)
tail_loop-last (suc n) m l (x ∷ xs) c b =
    rw (c.0, neq_false x 0 c.1.0) (tail_loop-last n m x xs c.1.1 (omega (arith, b)))

write_first-link :
    (m : Memory) (l item : ℕ) → l ≢ item → write (write m item (m l)) l item item ≡ m l
write_first-link m l item n =
    write_other (write m item (m l)) l item item (λ e. n (sym e)) ∙ write_same m item (m l)

-- The first link may be set to a new item that links to the old first item.
pub Chain-write_first :
    (m : Memory) (l item : ℕ) (xs : List ℕ)
    → Fresh l xs
    → Fresh item (l ∷ xs)
    → item ≢ 0
    → Chain m l xs
    → Chain (write (write m item (m l)) l item) l (item ∷ xs)
Chain-write_first m l item [] d f n c =
    (write_same (write m item (m l)) l item, (n, write_first-link m l item f.0 ∙ c))
Chain-write_first m l item (x ∷ xs) d f n c = (
  write_same (write m item (m l)) l item,
  (
    n,
    (
      write_first-link m l item f.0 ∙ c.0,
      (
        c.1.0,
        Chain-write (write m item (m l)) l item x xs d (Chain-write m item (m l) x xs f.1 c.1.1),
      ),
    ),
  ),
)

-- The first link may skip the first item.
pub Chain-skip :
    (m : Memory) (l x : ℕ) (xs : List ℕ)
    → Fresh l (x ∷ xs)
    → Chain m x xs
    → Chain (write m l (m x)) l xs
Chain-skip m l x [] f c = write_same m l (m x) ∙ c
Chain-skip m l x (y ∷ xs) f c =
    (write_same m l (m x) ∙ c.0, (c.1.0, Chain-write m l (m x) y xs f.1 c.1.1))
