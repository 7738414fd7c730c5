-- ===== src/LinkedList.antt =====
-- util/oc_list.c: singly linked lists whose items hold their link in their first field.
-- A memory gives the word at every address. A list variable holds the address of its first item, and
-- the first word of an item is the address of the next; NULL is 0. So a variable and a link are read
-- and written alike, as the code's pointers to pointers do. The loops run on fuel, and return `none`
-- when it runs out; a chain of links that ends needs no more fuel than one unit above its length.
pub mod Chains
pub mod Refine
pub mod Ends
pub mod Blocks
mod Tests
use knx_iot_stack.Prelude.{ℕ, zero, suc, ◌+◌, Option, none, some, Bool, ◌==◌, if◌then◌else◌}

abbrev pub Memory : Type 0
Memory = ℕ → ℕ

unfoldable pub write : Memory → ℕ → ℕ → Memory
write m a v p = if p == a then v else m p

-- `oc_list_init`
unfoldable pub init : Memory → ℕ → Memory
unfolding write
init m list = write m list 0

-- `oc_list_head`
unfoldable pub head : Memory → ℕ → ℕ
head m list = m list

-- `oc_list_copy`
unfoldable pub copy : Memory → ℕ → ℕ → Memory
unfolding write
copy m dest src = write m dest (m src)

-- the loop of `oc_list_tail`
unfoldable pub tail_loop : ℕ → Memory → ℕ → Option ℕ
tail_loop zero m l = none
tail_loop (suc n) m l = let rest = tail_loop n m (m l) in if m l == 0 then some l else rest

-- `oc_list_tail`
unfoldable pub tail : ℕ → Memory → ℕ → Option ℕ
unfolding tail_loop
tail n m list = if m list == 0 then some 0 else tail_loop n m (m list)

-- The end of `oc_list_add` and of `oc_list_add_block`, with the tail of the list.
unfoldable pub link : Memory → ℕ → ℕ → ℕ → Memory
unfolding write
link m list item l = if l == 0 then write m list item else write m l item

unfoldable pub link_tail : Memory → ℕ → ℕ → Option ℕ → Option Memory
unfolding link
link_tail m list item none = none
link_tail m list item (some l) = some (link m list item l)

-- `oc_list_add`
unfoldable pub add : ℕ → Memory → ℕ → ℕ → Option Memory
unfolding write tail link_tail
add n m list item = link_tail (write m item 0) list item (tail n (write m item 0) list)

-- `oc_list_add_block`: the last item of the block is linked to the tail `l` of the list.
unfoldable pub link_block : Memory → ℕ → ℕ → Option ℕ → Option ℕ → Option Memory
unfolding write link
link_block m list item none last = none
link_block m list item (some l) none = none
link_block m list item (some l) (some last) = some (link (write m last l) list item l)

unfoldable pub add_block : ℕ → Memory → ℕ → ℕ → Option Memory
unfolding tail link_block
add_block n m list item = link_block m list item (tail n m list) (tail n m item)

-- The loops of `oc_list_remove`, `oc_list_remove2`, `oc_list_remove_block` and
-- `oc_list_remove_block2`: the link to `first` becomes the link of `last`; in the first two `last` is
-- the item itself. The result is `first` where it is found, and NULL else.
unfoldable pub unlink : ℕ → Memory → ℕ → ℕ → ℕ → Option (ℕ × Memory)
unfolding write
unlink zero m l first last = none
unlink (suc n) m l first last =
    let rest = unlink n m (m l) first last in
    if m l == 0
    then some (0, m)
    else if m l == first
    then some (first, write m l (m last))
    else rest

-- `oc_list_remove2`
unfoldable pub remove2 : ℕ → Memory → ℕ → ℕ → Option (ℕ × Memory)
unfolding unlink
remove2 n m list item = unlink n m list item item

unfoldable pub memory_of : Option (ℕ × Memory) → Option Memory
memory_of none = none
memory_of (some (item, m)) = some m

-- `oc_list_remove`
unfoldable pub remove : ℕ → Memory → ℕ → ℕ → Option Memory
unfolding unlink memory_of
remove n m list item = memory_of (unlink n m list item item)

-- `oc_list_remove_block2`
unfoldable pub remove_block2 : ℕ → Memory → ℕ → ℕ → ℕ → Option (ℕ × Memory)
unfolding unlink
remove_block2 n m list first last = unlink n m list first last

-- `oc_list_remove_block`
unfoldable pub remove_block : ℕ → Memory → ℕ → ℕ → ℕ → Option Memory
unfolding unlink memory_of
remove_block n m list first last = memory_of (unlink n m list first last)

-- the end of `oc_list_push`
unfoldable pub link_first : ℕ → ℕ → Option Memory → Option Memory
unfolding write
link_first list item none = none
link_first list item (some m) = some (write (write m item (m list)) list item)

-- `oc_list_push`
unfoldable pub push : ℕ → Memory → ℕ → ℕ → Option Memory
unfolding remove link_first
push n m list item = link_first list item (remove n m list item)

-- the loop of `oc_list_chop`, up to the item before the last
unfoldable pub chop_loop : ℕ → Memory → ℕ → Option ℕ
chop_loop zero m l = none
chop_loop (suc n) m l = let rest = chop_loop n m (m l) in if m (m l) == 0 then some l else rest

unfoldable pub chop_at : Memory → Option ℕ → Option (ℕ × Memory)
unfolding write
chop_at m none = none
chop_at m (some l) = some (m l, write m l 0)

-- `oc_list_chop`
unfoldable pub chop : ℕ → Memory → ℕ → Option (ℕ × Memory)
unfolding write chop_loop chop_at
chop n m list =
    if m list == 0
    then some (0, m)
    else if m (m list) == 0
    then some (m list, write m list 0)
    else chop_at m (chop_loop n m (m list))

-- `oc_list_pop`
unfoldable pub pop : Memory → ℕ → ℕ × Memory
unfolding write
pop m list = (m list, if m list == 0 then m else write m list (m (m list)))

-- the loop of `oc_list_length`
unfoldable pub length_loop : ℕ → Memory → ℕ → ℕ → Option ℕ
length_loop zero m l count = none
length_loop (suc n) m l count =
    let rest = length_loop n m (m l) (count + 1) in if l == 0 then some count else rest

-- `oc_list_length`
unfoldable pub length : ℕ → Memory → ℕ → Option ℕ
unfolding length_loop
length n m list = length_loop n m (m list) 0

-- `oc_list_insert`
unfoldable pub insert : ℕ → Memory → ℕ → ℕ → ℕ → Option Memory
unfolding write push
insert n m list previtem newitem =
    if previtem == 0
    then push n m list newitem
    else some (write (write m newitem (m previtem)) previtem newitem)

-- `oc_list_item_next`
unfoldable pub item_next : Memory → ℕ → ℕ
item_next m item = if item == 0 then 0 else m item
