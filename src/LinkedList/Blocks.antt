-- ===== src/LinkedList/Blocks.antt =====
-- Adding a block of linked items to a list.
use knx_iot_stack.Prelude.{
  ℕ, zero, suc, ◌+◌, ◌≡◌, ◌≢◌, ◌⊎◌, inl, inr, refl, ◌∙◌, sym, ap, some, none, [], ◌∷◌,
}
use knx_iot_stack.LinkedList.{
  Memory, write, tail, tail_loop, link, link_block, add_block, length_loop, length,
}
use knx_iot_stack.LinkedList.Chains.{Fresh, neq_false, write_same, write_other}
use knx_iot_stack.LinkedList.Refine.{Holds}

-- A walk that starts in a set of items that no link leaves never ends.
length_loop-Closed :
    (n : ℕ) (m : Memory) (S : ℕ → Type 0) (l count : ℕ)
    → ((a : ℕ) → S a → (a ≢ 0) × S (m a))
    → S l
    → length_loop n m l count ≡ none
unfolding length_loop
length_loop-Closed zero m S l count closed s = refl
length_loop-Closed (suc n) m S l count closed s =
    let (p, s') = closed l s in
    rw (neq_false l 0 p) (length_loop-Closed n m S (m l) (count + 1) closed s')

-- One of three items.
OneOf : ℕ → ℕ → ℕ → ℕ → Type 0
OneOf a b c x = (x ≡ a) ⊎ ((x ≡ b) ⊎ (x ≡ c))

circle_closed :
    (m : Memory) (a b c : ℕ)
    → a ≢ 0
    → b ≢ 0
    → c ≢ 0
    → m a ≡ b
    → m b ≡ c
    → m c ≡ a
    → (x : ℕ) → OneOf a b c x
    → (x ≢ 0) × OneOf a b c (m x)
unfolding OneOf
circle_closed m a b c p q r ea eb ec x (inl e) = ((λ z. p (sym e ∙ z)), inr (inl (ap m e ∙ ea)))
circle_closed m a b c p q r ea eb ec x (inr (inl e)) =
    ((λ z. q (sym e ∙ z)), inr (inr (ap m e ∙ eb)))
circle_closed m a b c p q r ea eb ec x (inr (inr e)) = ((λ z. r (sym e ∙ z)), inl (ap m e ∙ ec))

link_item :
    (m : Memory) (list item l : ℕ) → l ≢ 0 → some (link m list item l) ≡ some (write m l item)
unfolding link
link_item m list item l z = rw (neq_false l 0 z) refl

-- After a block of two items is added to a list of one item, the length of the list is never found,
-- whatever the fuel.
pub add_block-circle :
    (m : Memory) (list a b c : ℕ)
    → Holds m list (a ∷ [])
    → Holds m b (c ∷ [])
    → Fresh b (list ∷ a ∷ [])
    → Fresh c (list ∷ a ∷ [])
    → (m' : Memory) × ((add_block 2 m list b ≡ some m') × ((n : ℕ) → length n m' list ≡ none))
unfolding add_block link_block tail tail_loop length OneOf
add_block-circle m list a b c h k f g =
    let m' = write (write m c a) a b in
    let list-a : m' list ≡ a =
      write_other (write m c a) a b list (λ e. h.1.0.0.0 (sym e))
      ∙ write_other m c a list g.0
      ∙ h.1.1.0 in
    (
      m',
      (
        rw
            (
              h.1.1.0,
              h.1.1.1.1,
              k.1.1.0,
              k.1.1.1.1,
              neq_false a 0 h.1.1.1.0,
              neq_false c 0 k.1.1.1.0,
            )
            (link_item (write m c a) list b a h.1.1.1.0),
        λ n.
            length_loop-Closed n m' (OneOf a b c) (m' list) 0
              (circle_closed m' a b c h.1.1.1.0 k.0 k.1.1.1.0 (write_same (write m c a) a b)
                (write_other (write m c a) a b b (λ e. f.1.0 (sym e))
                  ∙ write_other m c a b (λ e. k.1.0.0.0 (sym e))
                  ∙ k.1.1.0)
                (write_other (write m c a) a b c (λ e. g.1.0 (sym e)) ∙ write_same m c a))
              (inl list-a),
      ),
    )
