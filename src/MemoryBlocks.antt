-- ===== src/MemoryBlocks.antt =====
-- util/oc_memb.c: pools of memory blocks of one size, of a build with OC_DYNAMIC_ALLOCATION and without
-- OC_MEMORY_TRACE. A pool with no blocks passes its calls on to the platform's heap, which is an
-- argument: the address that `calloc` returns, if any. An address in the pool is a number; the contents
-- of a block are its bytes.
pub mod Blocks
mod Tests
use knx_iot_stack.Prelude.{
  ℕ, zero, suc, ◌+◌, ◌-◌, ◌*◌, Option, none, some, Bool, true, false, ◌&&◌, List, [], ◌∷◌, ◌++◌,
  length, get_elem?, set, replicate, find_index, ltb, leb, ◌==◌, if◌then◌else◌,
}

-- `struct oc_memb`: `num` is the length of `count`. `has_cb` is whether `buffers_avail_cb` is set, and
-- `reported` what it was called with.
pub record Pool : Type 0 where
  pub size : ℕ
  pub mem : ℕ
  pub count : List ℕ
  pub blocks : List (List ℕ)
  pub has_cb : Bool
  pub reported : List ℕ

-- the loop of `_oc_memb_alloc`: the first block that is not used
unfoldable pub alloc_at : Pool → Option ℕ → Option ℕ × Pool
alloc_at m none = (none, m)
alloc_at m (some i) = (
  some (m.mem + i * m.size),
  record m { count = set m.count i 1; blocks = set m.blocks i (replicate m.size 0) },
)

-- `_oc_memb_alloc`; `heap` is what `calloc` returns
unfoldable pub alloc : Option ℕ → Pool → Option ℕ × Pool
unfolding alloc_at find_index
alloc heap m =
    if ltb 0 (length m.count) then alloc_at m (find_index (λ c. c == 0) m.count) else (heap, m)

-- `oc_memb_numfree`
unfoldable pub numfree_of : List ℕ → ℕ
numfree_of [] = 0
numfree_of (c ∷ count) = if c == 0 then numfree_of count + 1 else numfree_of count

unfoldable pub numfree : Pool → ℕ
unfolding numfree_of
numfree m = numfree_of m.count

-- The loop of `_oc_memb_free`: the block at `ptr2` is the first of `count`.
unfoldable pub free_at : ℕ → ℕ → ℕ → List ℕ → List ℕ
free_at size ptr2 ptr [] = []
free_at size ptr2 ptr (c ∷ count) =
    if ptr2 == ptr
    then (if ltb 0 c then c - 1 else c) ∷ count
    else c ∷ free_at size (ptr2 + size) ptr count

-- `_oc_memb_free`
unfoldable pub free : Pool → ℕ → Pool
unfolding free_at numfree
free m ptr =
    let m' = record m { count = free_at m.size m.mem ptr m.count } in
    if m.has_cb then record m' { reported = m'.reported ++ numfree m' ∷ [] } else m'

-- `oc_memb_inmemb`
unfoldable pub inmemb : Pool → ℕ → Bool
inmemb m ptr = leb m.mem ptr && ltb ptr (m.mem + length m.count * m.size)
