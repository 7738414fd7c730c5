-- ===== src/GroupTables.antt =====
-- api/oc_knx_fp.c: the group object table, and the tables of recipients and publishers. A table is the
-- list of its entries; the group addresses of an entry are a list, in place of an array and its length.
pub mod Visits
pub mod Recipients
mod Tests
use knx_iot_stack.Prelude.{
  ℤ, pos, negsuc, ℕ, zero, suc, ◌+◌, Option, none, some, Bool, true, false, ◌&&◌, ◌||◌, List, [],
  ◌∷◌, ltb, leb, ◌==◌, if◌then◌else◌, length, get_elem?, get_or, set, drop, find_index, bytes_eq,
}

-- `id > -1`, and `id == -1`
abbrev pub is_used : ℤ → Bool
is_used (pos n) = true
is_used (negsuc n) = false

abbrev is_minus_one : ℤ → Bool
is_minus_one (pos n) = false
is_minus_one (negsuc n) = n == 0

abbrev pub same_id : ℤ → ℤ → Bool
same_id (pos m) (pos n) = m == n
same_id (pos m) (negsuc n) = false
same_id (negsuc m) (pos n) = false
same_id (negsuc m) (negsuc n) = m == n

-- `oc_group_object_table_t`
pub record Entry : Type 0 where
  pub id : ℤ
  pub href : List ℕ
  pub cflags : ℕ
  pub ga : List ℕ

-- `is_in_array`
unfoldable pub is_in_array : ℕ → List ℕ → Bool
is_in_array value [] = false
is_in_array value (a ∷ array) =
    let rest = is_in_array value array in if a == value then true else rest

-- `find_empty_slot_in_group_object_table`; `none` is the result -1, here and below.
unfoldable pub find_empty_slot : ℤ → List Entry → Option ℕ
unfolding find_index
find_empty_slot id table = if is_used id then find_index (λ e. is_minus_one e.id) table else none

-- `oc_core_set_group_object_table`, told whether its memory is allocated: `none` where it writes behind
-- the table. Without the memory, or with a negative id, the entry has no group addresses.
unfoldable pub set_entry : Bool → ℕ → Entry → List Entry → Option (List Entry)
set_entry allocated index e table =
    if ltb index (length table)
    then some (set table index (record e { ga = if allocated && is_used e.id then e.ga else [] }))
    else none

-- `oc_core_get_group_object_table_entry`
unfoldable pub get_entry : ℕ → List Entry → Option Entry
get_entry index table = get_elem? table index

-- `oc_core_find_index_in_group_object_table_from_id`
unfoldable pub find_from_id : ℤ → List Entry → Option ℕ
unfolding find_index
find_from_id id table = find_index (λ e. same_id e.id id) table

-- A loop from index `i` on that returns at the first entry that passes a test.
unfoldable pub scan : (Entry → Bool) → ℕ → List Entry → Option ℕ
scan test i [] = none
scan test i (e ∷ table) = let rest = scan test (i + 1) table in if test e then some i else rest

-- An entry that is in use and has the group address; the inner loop over the addresses.
unfoldable pub has_address : ℕ → Entry → Bool
unfolding is_in_array
has_address group_address e = is_used e.id && is_in_array group_address e.ga

-- an entry with the URL
unfoldable pub has_url : List ℕ → Entry → Bool
unfolding bytes_eq
has_url url e = bytes_eq url e.href

-- `oc_core_find_group_object_table_index` and `oc_core_find_group_object_table_url`
unfoldable pub find_table_index : ℕ → List Entry → Option ℕ
find_table_index group_address table = scan (has_address group_address) 0 table

unfoldable pub find_table_url : List ℕ → List Entry → Option ℕ
find_table_url url table = scan (has_url url) 0 table

-- `oc_core_find_next_group_object_table_index` and `oc_core_find_next_group_object_table_url`
unfoldable pub find_next_table_index : ℕ → Option ℕ → List Entry → Option ℕ
find_next_table_index group_address none table = none
find_next_table_index group_address (some cur_index) table =
    scan (has_address group_address) (cur_index + 1) (drop (cur_index + 1) table)

unfoldable pub find_next_table_url : List ℕ → Option ℕ → List Entry → Option ℕ
find_next_table_url url none table = none
find_next_table_url url (some cur_index) table =
    scan (has_url url) (cur_index + 1) (drop (cur_index + 1) table)

-- The loop of a client over the entries with a group address: the indices that it visits.
unfoldable pub visit : ℕ → ℕ → Option ℕ → List Entry → List ℕ
visit zero group_address index table = []
visit (suc fuel) group_address none table = []
visit (suc fuel) group_address (some index) table =
    index ∷ visit fuel group_address (find_next_table_index group_address (some index) table) table

unfoldable pub visit_all : ℕ → ℕ → List Entry → List ℕ
visit_all fuel group_address table =
    visit fuel group_address (find_table_index group_address table) table

-- `oc_free_group_object_table_entry`, for an entry of the table
unfoldable pub free_entry : ℕ → Bool → List Entry → List Entry
free_entry index init table = elim (get_elem? table index) [
  | none ↦ table
  | some e ↦
      set table index
        (record { id = negsuc 0; href = if init then e.href else []; cflags = 0; ga = [] })
]

-- `oc_core_find_nr_used_in_group_object_table`
unfoldable pub nr_used : List Entry → ℕ
nr_used [] = 0
nr_used (e ∷ table) = if is_used e.id then nr_used table + 1 else nr_used table

-- `oc_group_rp_table_t`, its fields that are read
pub record Recipient : Type 0 where
  pub grpid : ℕ
  pub ga : List ℕ

-- `oc_find_grpid_in_table`
unfoldable pub find_grpid : ℕ → List Recipient → ℕ
unfolding is_in_array
find_grpid group_address [] = 0
find_grpid group_address (r ∷ table) =
    let rest = find_grpid group_address table in
    if is_in_array group_address r.ga then r.grpid else rest

-- The loop of `oc_core_check_recipient_index_on_group_address`, whose condition is the length of the
-- array: `none` where it reads behind the array.
unfoldable pub check_loop : ℕ → List ℕ → Option Bool
check_loop group_address [] = none
check_loop group_address (a ∷ array) =
    let rest = check_loop group_address array in if a == group_address then some true else rest

-- `oc_core_check_recipient_index_on_group_address`: the result -1 is true as a `bool`.
unfoldable pub check_recipient : ℕ → ℕ → List Recipient → Option Bool
check_recipient index group_address table = elim (get_elem? table index) [
  | none ↦ some true
  | some r ↦
      if group_address == 0
      then some true
      else if length r.ga == 0
      then some false
      else check_loop group_address r.ga
]
