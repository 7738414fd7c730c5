-- ===== src/MemoryBlocks/Tests.antt =====
-- A pool of three blocks, and the theorems at it.
use knx_iot_stack.Prelude.{◌≡◌, refl, true, [], ◌∷◌}
use knx_iot_stack.MemoryBlocks.{Pool, inmemb}

abbrev pool : Pool
pool = record {
  size = 2;
  mem = 1000;
  count = 1 ∷ 0 ∷ 0 ∷ [];
  blocks = (1 ∷ 2 ∷ []) ∷ (3 ∷ 4 ∷ []) ∷ (5 ∷ 6 ∷ []) ∷ [];
  has_cb = true;
  reported = [];
}

allocated_in_pool : inmemb pool 1002 ≡ true
unfolding inmemb
allocated_in_pool = refl
