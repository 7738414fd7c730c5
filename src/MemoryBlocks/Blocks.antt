-- ===== src/MemoryBlocks/Blocks.antt =====
-- Allocation and freeing in a pool.
use knx_iot_stack.Prelude.{
  ℕ, zero, suc, ◌+◌, ◌*◌, ◌<◌, ◌≡◌, refl, arith, ◌∙◌, sym, ap, subst, Option, none, some,
  Option-cases, Bool, false, List, [], ◌∷◌, length, get_elem?, set, replicate, find_index, ◌==◌,
  Bool-cases, inl, inr, ◌⊎◌, some_inj, find_index-get_elem?, lt→ltb, ==_iff,
}
use knx_iot_stack.MemoryBlocks.{Pool, alloc, alloc_at, numfree, numfree_of, free, free_at}

is_free : ℕ → Bool
is_free c = c == 0

numfree-none : (count : List ℕ) → find_index is_free count ≡ none → numfree_of count ≡ 0
unfolding numfree_of find_index is_free
numfree-none [] e = refl
numfree-none (c ∷ count) e = ground (arith, numfree-none count)

numfree-set :
    (count : List ℕ) (i : ℕ)
    → get_elem? count i ≡ some 0
    → numfree_of count ≡ numfree_of (set count i 1) + 1
unfolding numfree_of
numfree-set [] i e = cc
numfree-set (c ∷ count) zero e = rw (some_inj e) refl
numfree-set (c ∷ count) (suc i) e = ground (arith, numfree-set count i e)

suc_times : (ptr i size : ℕ) → ptr + suc i * size ≡ ptr + size + i * size
suc_times ptr i size = omega arith

before : (ptr i size : ℕ) → 0 < size → (ptr == ptr + size + i * size) ≡ false
before ptr i size p = ground (arith, p)

-- Freeing the block at an index that is in use takes one use away.
free_at-set :
    (size ptr i : ℕ) (count : List ℕ)
    → 0 < size
    → get_elem? count i ≡ some 0
    → free_at size ptr (ptr + i * size) (set count i 1) ≡ count
unfolding free_at
free_at-set size ptr i [] p e = cc
free_at-set size ptr zero (c ∷ count) p e = rw (some_inj e) (ground arith)
free_at-set size ptr (suc i) (c ∷ count) p e =
    rw (suc_times ptr i size, before ptr i size p)
      (ap (λ cs. c ∷ cs) (free_at-set size (ptr + size) i count p e))

found : (count : List ℕ) (i : ℕ) → find_index is_free count ≡ some i → get_elem? count i ≡ some 0
unfolding is_free
found count i e =
    let (c, g, z) = find_index-get_elem? is_free count i e in g ∙ ap some ((==_iff c 0).0 z)

-- A pool of blocks gives none exactly when none is free; else it gives the first free block, cleared,
-- and has one free block less. The heap is not used.
pub alloc-numfree :
    (heap : Option ℕ) (m : Pool)
    → 0 < length m.count
    → ((alloc heap m ≡ (none, m)) × (numfree m ≡ 0))
      ⊎ ((i : ℕ) × ((alloc heap m).0 ≡ some (m.mem + i * m.size))
          × (get_elem? m.count i ≡ some 0)
          × (numfree m ≡ numfree (alloc heap m).1 + 1)
          × ((alloc heap m).1.blocks ≡ set m.blocks i (replicate m.size 0)))
unfolding alloc alloc_at numfree is_free
alloc-numfree heap m p = elim (Option-cases (find_index is_free m.count)) [
  | inl full ↦ rw (lt→ltb 0 (length m.count) p, full) (inl (refl, numfree-none m.count full))
  | inr (i, e) ↦
      let g = found m.count i e in
      rw (lt→ltb 0 (length m.count) p, e) (inr (i, refl, g, numfree-set m.count i g, refl))
]

free-count : (m : Pool) (ptr : ℕ) → (free m ptr).count ≡ free_at m.size m.mem ptr m.count
unfolding free
free-count m ptr = elim (Bool-cases m.has_cb) [ inl c ↦ rw c refl | inr n ↦ rw n refl ]

alloc-alloc_at :
    (heap : Option ℕ) (m : Pool)
    → 0 < length m.count
    → alloc heap m ≡ alloc_at m (find_index is_free m.count)
unfolding alloc is_free
alloc-alloc_at heap m p = rw (lt→ltb 0 (length m.count) p) refl

free-alloc_at :
    (m : Pool) (o : Option ℕ) (ptr : ℕ)
    → 0 < m.size
    → find_index is_free m.count ≡ o
    → (alloc_at m o).0 ≡ some ptr
    → (free (alloc_at m o).1 ptr).count ≡ m.count
unfolding alloc_at
free-alloc_at m none ptr p e h = cc
free-alloc_at m (some i) ptr p e h =
    free-count (alloc_at m (some i)).1 ptr
    ∙ ap (λ q. free_at m.size m.mem q (set m.count i 1)) (sym (some_inj h))
    ∙ free_at-set m.size m.mem i m.count p (found m.count i e)

-- Freeing a block just allocated from a pool of blocks, whose size is not zero, restores the uses
-- of all its blocks.
pub free-alloc :
    (heap : Option ℕ) (m : Pool) (ptr : ℕ)
    → 0 < length m.count
    → 0 < m.size
    → (alloc heap m).0 ≡ some ptr
    → (free (alloc heap m).1 ptr).count ≡ m.count
free-alloc heap m ptr p q =
    subst (λ r. r.0 ≡ some ptr → (free r.1 ptr).count ≡ m.count) (sym (alloc-alloc_at heap m p))
      (free-alloc_at m (find_index is_free m.count) ptr q refl)
