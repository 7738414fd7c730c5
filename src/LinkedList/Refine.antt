-- ===== src/LinkedList/Refine.antt =====
-- The operations of linked lists on the sequence of their items.
use knx_iot_stack.Prelude.{
  ℕ, zero, suc, ◌+◌, ◌<◌, ◌≤◌, ◌≡◌, ◌≢◌, refl, arith, ◌∙◌, sym, ap, subst, Option, some, none, Bool,
  true, false, List, [], ◌∷◌, ◌++◌, ◌==◌, if◌then◌else◌, Bool-cases, inl, inr, ==_iff,
}
use knx_iot_stack.Prelude as P
use knx_iot_stack.LinkedList.{
  Memory, write, tail, link, link_tail, add, unlink, remove2, memory_of, remove, length_loop,
  length,
}
use knx_iot_stack.LinkedList.Chains.{
  Chain, Fresh, Distinct, last, neq_false, write_same, write_other, Chain-write, last-Fresh,
  Chain-write-last, tail_loop-last, Chain-skip,
}

-- The memory holds a list with these items, at different addresses.
abbrev pub Holds : Memory → ℕ → List ℕ → Type 0
Holds m list xs = (list ≢ 0) × (Distinct (list ∷ xs) × Chain m list xs)

-- The items without the first occurrence of one.
unfoldable pub without : ℕ → List ℕ → List ℕ
without item [] = []
without item (x ∷ xs) = if x == item then xs else x ∷ without item xs

-- The item if it is there, and else NULL.
unfoldable pub found : ℕ → List ℕ → ℕ
found item [] = 0
found item (x ∷ xs) = if x == item then item else found item xs

-- Outside a list and its items, the memories are the same.
abbrev pub SameOutside : Memory → Memory → List ℕ → Type 0
SameOutside m m' xs = (a : ℕ) → Fresh a xs → m' a ≡ m a

last-nonzero : (m : Memory) (l : ℕ) (xs : List ℕ) → l ≢ 0 → Chain m l xs → last l xs ≢ 0
unfolding last
last-nonzero m l [] z c = z
last-nonzero m l (x ∷ xs) z c = last-nonzero m x xs c.1.0 c.1.1

link_tail-last :
    (n : ℕ) (m : Memory) (list item : ℕ) (xs : List ℕ)
    → list ≢ 0
    → Chain m list xs
    → P.length xs < n + 1
    → link_tail m list item (tail n m list) ≡ some (write m (last list xs) item)
unfolding link_tail link tail last
link_tail-last n m list item [] z c b = rw c refl
link_tail-last n m list item (x ∷ xs) z c b =
    rw
      (
        c.0,
        neq_false x 0 c.1.0,
        tail_loop-last n m x xs c.1.1 (omega (arith, b)),
        link,
        neq_false (last x xs) 0 (last-nonzero m x xs c.1.0 c.1.1),
      )
      refl

Fresh-snoc : (a item : ℕ) (xs : List ℕ) → Fresh a xs → item ≢ a → Fresh a (xs ++ item ∷ [])
Fresh-snoc a item [] f n = (n, tt)
Fresh-snoc a item (x ∷ xs) f n = (f.0, Fresh-snoc a item xs f.1 n)

Distinct-snoc : (item : ℕ) (xs : List ℕ) → Distinct xs → Fresh item xs → Distinct (xs ++ item ∷ [])
Distinct-snoc item [] d f = (tt, tt)
Distinct-snoc item (x ∷ xs) d f =
    (Fresh-snoc x item xs d.0 (λ e. f.0 (sym e)), Distinct-snoc item xs d.1 f.1)

-- Adding an item that is not in a list of different items, and is not NULL, puts it at the end;
-- with as much fuel as there are items the loop ends, and memory but the item, the list and its
-- items is left alone.
pub add-snoc :
    (n : ℕ) (m : Memory) (list item : ℕ) (xs : List ℕ)
    → Holds m list xs
    → Fresh item (list ∷ xs)
    → item ≢ 0
    → P.length xs ≤ n
    → (m' : Memory) × ((add n m list item ≡ some m')
        × (Holds m' list (xs ++ item ∷ []) × SameOutside m m' (item ∷ list ∷ xs)))
unfolding add
add-snoc n m list item xs h f z b = (
  write (write m item 0) (last list xs) item,
  (
    link_tail-last n (write m item 0) list item xs h.0 (Chain-write m item 0 list xs f h.1.1)
        (omega (arith, b)),
    (
      (
        h.0,
        (
          Distinct-snoc item (list ∷ xs) h.1.0 f,
          Chain-write-last (write m item 0) list item xs h.1.0 f z (write_same m item 0)
              (Chain-write m item 0 list xs f h.1.1),
        ),
      ),
      λ a g.
          write_other (write m item 0) (last list xs) item a (λ e. last-Fresh a list xs g.1 (sym e))
          ∙ write_other m item 0 a (λ e. g.0 (sym e)),
    ),
  ),
)

-- The length is the number of items.
length_loop-length :
    (n : ℕ) (m : Memory) (l count : ℕ) (xs : List ℕ)
    → Chain m l xs
    → P.length xs < n
    → length_loop n m (m l) count ≡ some (P.length xs + count)
unfolding length_loop
length_loop-length zero m l count xs c b = absurd (omega (arith, b))
length_loop-length (suc n) m l count [] c b = rw c (ap some (omega arith))
length_loop-length (suc n) m l count (x ∷ xs) c b =
    rw (c.0, neq_false x 0 c.1.0)
      (length_loop-length n m x (count + 1) xs c.1.1 (omega (arith, b)) ∙ ap some (omega arith))

-- The length of a list is the number of its items, and is found when there is fuel for one more.
pub length-Chain :
    (n : ℕ) (m : Memory) (list : ℕ) (xs : List ℕ)
    → Chain m list xs
    → P.length xs < n
    → length n m list ≡ some (P.length xs)
unfolding length
length-Chain n m list xs c b = length_loop-length n m list 0 xs c b ∙ ap some (omega arith)

-- Unlinking an item takes its first occurrence out of the chain, and says whether it was there.
unlink-without :
    (n : ℕ) (m : Memory) (l item : ℕ) (xs : List ℕ)
    → Distinct (l ∷ xs)
    → Chain m l xs
    → P.length xs < n
    → (m' : Memory) × ((unlink n m l item item ≡ some (found item xs, m'))
        × (Chain m' l (without item xs) × SameOutside m m' (l ∷ xs)))
unfolding unlink without found
unlink-without zero m l item xs d c b = absurd (omega (arith, b))
unlink-without (suc n) m l item [] d c b = (m, (rw c refl, (c, λ a f. refl)))
unlink-without (suc n) m l item (x ∷ xs) d c b = elim (Bool-cases (x == item)) [
  | inl here ↦
      rw (c.0, neq_false x 0 c.1.0, here)
        (let e = (==_iff x item).0 here in
          (
            write m l (m x),
            (
              ap (λ i. some (item, write m l (m i))) (sym e),
              (Chain-skip m l x xs d.0 c.1.1, λ a f. write_other m l (m x) a (λ p. f.0 (sym p))),
            ),
          ))
  | inr away ↦
      rw (c.0, neq_false x 0 c.1.0, away)
        (let (m', (e, (c', same))) = unlink-without n m x item xs d.1 c.1.1 (omega (arith, b)) in
          (m', (e, ((same l d.0 ∙ c.0, (c.1.0, c')), λ a f. same a f.1))))
]

Fresh-without : (a item : ℕ) (xs : List ℕ) → Fresh a xs → Fresh a (without item xs)
unfolding without
Fresh-without a item [] f = tt
Fresh-without a item (x ∷ xs) f = ground (arith, Fresh-without a item xs f.1)

Distinct-without : (item : ℕ) (xs : List ℕ) → Distinct xs → Distinct (without item xs)
unfolding without
Distinct-without item [] d = tt
Distinct-without item (x ∷ xs) d =
    ground (arith, Distinct-without item xs d.1, Fresh-without x item xs d.0)

neq_of_false : (a b : ℕ) → (a == b) ≡ false → a ≢ b
neq_of_false a b e = ground (arith, e)

pub Fresh-without_same : (item : ℕ) (xs : List ℕ) → Distinct xs → Fresh item (without item xs)
unfolding without
Fresh-without_same item [] d = tt
Fresh-without_same item (x ∷ xs) d = elim (Bool-cases (x == item)) [
  | inl here ↦ rw here (subst (λ a. Fresh a xs) ((==_iff x item).0 here) d.0)
  | inr away ↦ rw away (neq_of_false x item away, Fresh-without_same item xs d.1)
]

-- Removing an item from a list of different items takes it out and returns it, or returns NULL and
-- leaves the list as it is when the item is not there; with fuel for one more than the items the
-- loop ends, and memory outside the list is left alone.
pub remove2-without :
    (n : ℕ) (m : Memory) (list item : ℕ) (xs : List ℕ)
    → Holds m list xs
    → P.length xs < n
    → (m' : Memory) × ((remove2 n m list item ≡ some (found item xs, m'))
        × (Holds m' list (without item xs) × SameOutside m m' (list ∷ xs)))
unfolding remove2
remove2-without n m list item xs h b =
    let (m', (e, (c, same))) = unlink-without n m list item xs h.1.0 h.1.1 b in
    (
      m',
      (
        e,
        ((h.0, ((Fresh-without list item xs h.1.0.0, Distinct-without item xs h.1.0.1), c)), same),
      ),
    )

-- `oc_list_remove` has the effect of `oc_list_remove2`, without the result.
pub remove-remove2 :
    (n : ℕ) (m : Memory) (list item : ℕ) → remove n m list item ≡ memory_of (remove2 n m list item)
unfolding remove remove2
remove-remove2 n m list item = refl
