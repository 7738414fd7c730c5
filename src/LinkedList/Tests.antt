-- ===== src/LinkedList/Tests.antt =====
-- Lists in a small memory, and the theorems at them.
use knx_iot_stack.Prelude.{ℕ, ◌≡◌, refl, arith, some, none, [], ◌∷◌, ◌==◌, if◌then◌else◌}
use knx_iot_stack.LinkedList.{Memory, add_block, remove2, length}
use knx_iot_stack.LinkedList.Chains.{Fresh}
use knx_iot_stack.LinkedList.Refine.{Holds, SameOutside, found, without, remove2-without}
use knx_iot_stack.LinkedList.Blocks.{add_block-circle}

-- The list at 1 has the items 10 and 20, and the block at 30 goes on with 40.
unfoldable memory : Memory
memory p = if p == 1 then 10 else if p == 10 then 20 else if p == 30 then 40 else 0

held : Holds memory 1 (10 ∷ 20 ∷ [])
unfolding memory
held = (
  omega arith,
  (
    ((omega arith, (omega arith, tt)), ((omega arith, tt), (tt, tt))),
    (refl, (omega arith, (refl, (omega arith, refl)))),
  ),
)

fresh : Fresh 30 (1 ∷ 10 ∷ 20 ∷ [])
fresh = (omega arith, (omega arith, (omega arith, tt)))

remove2-without_example :
    (m' : Memory) × ((remove2 3 memory 1 20 ≡ some (20, m'))
      × (Holds m' 1 (10 ∷ []) × SameOutside memory m' (1 ∷ 10 ∷ 20 ∷ [])))
unfolding found without
remove2-without_example = remove2-without 3 memory 1 20 (10 ∷ 20 ∷ []) held (omega arith)

-- The list at 20, whose only item is 1, and the block of 30 and 40.
unfoldable one_item : Memory
one_item p = if p == 20 then 1 else if p == 30 then 40 else 0

add_block-circle_example :
    (m' : Memory) × ((add_block 2 one_item 20 30 ≡ some m') × ((n : ℕ) → length n m' 20 ≡ none))
unfolding one_item
add_block-circle_example =
    add_block-circle one_item 20 1 30 40
      (omega arith, (((omega arith, tt), (tt, tt)), (refl, (omega arith, refl))))
      (omega arith, (((omega arith, tt), (tt, tt)), (refl, (omega arith, refl))))
      (omega arith, (omega arith, tt)) (omega arith, (omega arith, tt))
