-- ===== src/LinkedList/Ends.antt =====
-- Linked lists used as stacks and queues: push, pop, chop and insert.
use knx_iot_stack.Prelude.{
  ℕ, zero, suc, ◌+◌, ◌<◌, ◌≤◌, ◌≡◌, ◌≢◌, refl, arith, ◌∙◌, sym, ap, subst, Option, some, none, Bool,
  true, false, List, [], ◌∷◌, ◌++◌, ◌==◌, if◌then◌else◌, Bool-cases, inl, inr, ==_iff,
}
use knx_iot_stack.Prelude as P
use knx_iot_stack.LinkedList.{
  Memory, write, memory_of, link_first, push, chop_loop, chop_at, chop, pop, insert,
}
use knx_iot_stack.LinkedList.Chains.{
  Chain, Fresh, Distinct, last, neq_false, write_same, write_other, last-Fresh, Chain-write_first,
  Chain-skip,
}
use knx_iot_stack.LinkedList.Refine.{
  Holds, without, remove2-without, remove-remove2, Fresh-without_same,
}

-- Popping returns the first item and leaves the others.
pub pop-Holds :
    (m : Memory) (list x : ℕ) (xs : List ℕ)
    → Holds m list (x ∷ xs)
    → ((pop m list).0 ≡ x) × Holds (pop m list).1 list xs
unfolding pop
pop-Holds m list x xs h =
    rw (h.1.1.0, neq_false x 0 h.1.1.1.0)
      (refl, (h.0, ((h.1.0.0.1, h.1.0.1.1), Chain-skip m list x xs h.1.0.0 h.1.1.1.1)))

-- Pushing an item, neither NULL nor the list itself, puts it first, after it is taken out of its
-- old place if it was in the list; the items of the list are different, and the fuel is for one
-- more than them.
pub push-Holds :
    (n : ℕ) (m : Memory) (list item : ℕ) (xs : List ℕ)
    → Holds m list xs
    → item ≢ 0
    → list ≢ item
    → P.length xs < n
    → (m' : Memory) × ((push n m list item ≡ some m') × Holds m' list (item ∷ without item xs))
unfolding push link_first memory_of
push-Holds n m list item xs h z l b =
    let (m₁, (e, (k, same))) = remove2-without n m list item xs h b in
    let fresh = Fresh-without_same item xs h.1.0.1 in
    (
      write (write m₁ item (m₁ list)) list item,
      (
        ap (link_first list item) (remove-remove2 n m list item ∙ ap memory_of e),
        (
          h.0,
          (
            (((λ p. l (sym p)), k.1.0.0), (fresh, k.1.0.1)),
            Chain-write_first m₁ list item (without item xs) k.1.0.0 (l, fresh) z k.1.1,
          ),
        ),
      ),
    )

chop_loop-last :
    (n : ℕ) (m : Memory) (l x : ℕ) (xs : List ℕ)
    → Chain m l (xs ++ x ∷ [])
    → P.length xs < n
    → chop_loop n m l ≡ some (last l xs)
unfolding chop_loop last
chop_loop-last zero m l x xs c b = absurd (omega (arith, b))
chop_loop-last (suc n) m l x [] c b = rw (c.0, c.1.1) refl
chop_loop-last (suc n) m l x (y ∷ []) c b =
    rw (c.0, c.1.1.0, neq_false x 0 c.1.1.1.0) (chop_loop-last n m y x [] c.1.1 (omega (arith, b)))
chop_loop-last (suc n) m l x (y ∷ z ∷ xs) c b =
    rw (c.0, c.1.1.0, neq_false z 0 c.1.1.1.0)
      (chop_loop-last n m y x (z ∷ xs) c.1.1 (omega (arith, b)))

Fresh-prefix : (a : ℕ) (xs ys : List ℕ) → Fresh a (xs ++ ys) → Fresh a xs
Fresh-prefix a [] ys f = tt
Fresh-prefix a (x ∷ xs) ys f = (f.0, Fresh-prefix a xs ys f.1)

Distinct-prefix : (xs ys : List ℕ) → Distinct (xs ++ ys) → Distinct xs
Distinct-prefix [] ys d = tt
Distinct-prefix (x ∷ xs) ys d = (Fresh-prefix x xs ys d.0, Distinct-prefix xs ys d.1)

Chain-cut :
    (m : Memory) (l x : ℕ) (xs : List ℕ)
    → Distinct (l ∷ xs ++ x ∷ [])
    → Chain m l (xs ++ x ∷ [])
    → (m (last l xs) ≡ x) × Chain (write m (last l xs) 0) l xs
unfolding last
Chain-cut m l x [] d c = (c.0, write_same m l 0)
Chain-cut m l x (y ∷ xs) d c =
    let (e, c') = Chain-cut m y x xs d.1 c.1.1 in
    (
      e,
      (
        write_other m (last y xs) 0 l
              (λ p. last-Fresh l y xs (Fresh-prefix l (y ∷ xs) (x ∷ []) d.0) (sym p))
            ∙ c.0,
        (c.1.0, c'),
      ),
    )

link-nonzero : (m : Memory) (l x : ℕ) (xs : List ℕ) → Chain m l (xs ++ x ∷ []) → m l ≢ 0
link-nonzero m l x [] c e = c.1.0 (sym c.0 ∙ e)
link-nonzero m l x (y ∷ xs) c e = c.1.0 (sym c.0 ∙ e)

chop-last :
    (n : ℕ) (m : Memory) (list x : ℕ) (xs : List ℕ)
    → Chain m list (xs ++ x ∷ [])
    → P.length xs ≤ n
    → chop n m list ≡ some (m (last list xs), write m (last list xs) 0)
unfolding chop chop_at last
chop-last n m list x [] c b =
    rw (neq_false (m list) 0 (link-nonzero m list x [] c), ap m c.0, c.1.1) refl
chop-last n m list x (y ∷ xs) c b =
    rw
      (
        c.0,
        neq_false y 0 c.1.0,
        neq_false (m y) 0 (link-nonzero m y x xs c.1.1),
        chop_loop-last n m y x xs c.1.1 (omega (arith, b)),
      )
      refl

-- Chopping a list of different items that is not empty takes the last item away and returns it;
-- with as much fuel as the list has other items the loop ends.
pub chop-snoc :
    (n : ℕ) (m : Memory) (list x : ℕ) (xs : List ℕ)
    → Holds m list (xs ++ x ∷ [])
    → P.length xs ≤ n
    → (m' : Memory) × ((chop n m list ≡ some (x, m')) × Holds m' list xs)
chop-snoc n m list x xs h b = (
  write m (last list xs) 0,
  (
    chop-last n m list x xs h.1.1 b
        ∙ ap (λ i. some (i, write m (last list xs) 0)) (Chain-cut m list x xs h.1.0 h.1.1).0,
    (h.0, (Distinct-prefix (list ∷ xs) (x ∷ []) h.1.0, (Chain-cut m list x xs h.1.0 h.1.1).1)),
  ),
)

Fresh-middle : (a x : ℕ) (xs ys : List ℕ) → Fresh a (xs ++ x ∷ ys) → x ≢ a
Fresh-middle a x [] ys f = f.0
Fresh-middle a x (y ∷ xs) ys f = Fresh-middle a x xs ys f.1

Chain-insert :
    (m : Memory) (l prev item : ℕ) (pre post : List ℕ)
    → Distinct (l ∷ pre ++ prev ∷ post)
    → Fresh item (l ∷ pre ++ prev ∷ post)
    → item ≢ 0
    → Chain m l (pre ++ prev ∷ post)
    → Chain (write (write m item (m prev)) prev item) l (pre ++ prev ∷ item ∷ post)
Chain-insert m l prev item [] post d f z c = (
  write_other _ prev item l (λ e. d.0.0 (sym e)) ∙ write_other m item _ l f.0 ∙ c.0,
  (c.1.0, Chain-write_first m prev item post d.1.0 f.1 z c.1.1),
)
Chain-insert m l prev item (x ∷ pre) post d f z c = (
  write_other _ prev item l (λ e. Fresh-middle l prev (x ∷ pre) post d.0 (sym e))
      ∙ write_other m item _ l f.0
      ∙ c.0,
  (c.1.0, Chain-insert m x prev item pre post d.1 f.1 z c.1.1),
)

-- Inserting a new item after one of the list puts it right behind that one.
pub insert-Chain :
    (n : ℕ) (m : Memory) (list prev item : ℕ) (pre post : List ℕ)
    → Holds m list (pre ++ prev ∷ post)
    → Fresh item (list ∷ pre ++ prev ∷ post)
    → item ≢ 0
    → prev ≢ 0
    → (m' : Memory) × ((insert n m list prev item ≡ some m')
        × Chain m' list (pre ++ prev ∷ item ∷ post))
unfolding insert
insert-Chain n m list prev item pre post h f z p = (
  write (write m item (m prev)) prev item,
  (rw (neq_false prev 0 p) refl, Chain-insert m list prev item pre post h.1.0 f z h.1.1),
)
