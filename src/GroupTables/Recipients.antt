-- ===== src/GroupTables/Recipients.antt =====
-- New entries of the group object table, and the check of the addresses of a recipient.
use knx_iot_stack.Prelude.{
  ℤ, pos, negsuc, ℕ, zero, suc, ◌+◌, ◌≡◌, ◌≢◌, refl, ap, arith, ◌∙◌, none, some, Bool, true, false,
  ◌&&◌, List, [], ◌∷◌, ◌==◌, if◌then◌else◌, length, get_elem?, set, find_index, find_index-lt,
  find_index-get_elem?, find_index-set_new,
}
use knx_iot_stack.GroupTables.{
  is_used, is_minus_one, same_id, Entry, Recipient, is_in_array, find_empty_slot, set_entry,
  find_from_id, nr_used, check_loop, check_recipient,
}

check_loop-is_in_array :
    (ga : ℕ) (array : List ℕ)
    → check_loop ga array ≡ (if is_in_array ga array then some true else none)
unfolding check_loop is_in_array
check_loop-is_in_array ga [] = refl
check_loop-is_in_array ga (a ∷ array) = ground (arith, check_loop-is_in_array ga array)

-- For a recipient with group addresses, and an address other than zero, the check finds the address if
-- the recipient has it, and else reads behind the array.
pub check_recipient-overrun :
    (index group_address : ℕ) (table : List Recipient) (r : Recipient)
    → get_elem? table index ≡ some r
    → group_address ≢ 0
    → length r.ga ≢ 0
    → check_recipient index group_address table
      ≡ (if is_in_array group_address r.ga then some true else none)
unfolding check_recipient
check_recipient-overrun index group_address table r h n m =
    let a : (group_address == 0) ≡ false = ground (arith, n) in
    let b : (length r.ga == 0) ≡ false = ground (arith, m) in
    rw (check_recipient, h, a, b) (check_loop-is_in_array group_address r.ga)

nr_used-set :
    (table : List Entry) (i : ℕ) (e f : Entry)
    → get_elem? table i ≡ some f
    → is_used f.id ≡ false
    → is_used e.id ≡ true
    → nr_used (set table i e) ≡ nr_used table + 1
unfolding nr_used
nr_used-set [] i e f h u v = ground (arith, h)
nr_used-set (x ∷ table) zero e f h u v =
    let q : is_used x.id ≡ false =
      ap (λ o. elim o [ none ↦ false | some y ↦ is_used y.id ]) h ∙ u in
    ground (arith, q, v)
nr_used-set (x ∷ table) (suc i) e f h u v = ground (arith, nr_used-set table i e f h u v)

not_used : (id : ℤ) → is_minus_one id ≡ true → is_used id ≡ false
not_used (pos n) h = ground (arith, h)
not_used (negsuc n) h = refl

same_id_self : (id : ℤ) → same_id id id ≡ true
same_id_self (pos n) = ground arith
same_id_self (negsuc n) = ground arith

-- An entry with an id that is not in the table, stored at the empty slot that is found for it, is found
-- under its id, at that slot, and one more entry is in use.
pub set_entry-empty_slot :
    (allocated : Bool) (index : ℕ) (e : Entry) (table : List Entry)
    → find_empty_slot e.id table ≡ some index
    → find_from_id e.id table ≡ none
    → (table' : List Entry) × (set_entry allocated index e table ≡ some table')
      × (find_from_id e.id table' ≡ some index)
      × (nr_used table' ≡ nr_used table + 1)
unfolding find_empty_slot set_entry find_from_id
set_entry-empty_slot allocated index e table h n =
    let used : is_used e.id ≡ true = ground (arith, h) in
    let slot : find_index (λ e. is_minus_one e.id) table ≡ some index = ground (arith, h) in
    let l = find_index-lt (λ e. is_minus_one e.id) table index slot in
    let (f, at, empty) = find_index-get_elem? (λ e. is_minus_one e.id) table index slot in
    let stored = record e { ga = if allocated && is_used e.id then e.ga else [] } in
    (
      set table index stored,
      ground (arith, l),
      find_index-set_new (λ x. same_id x.id e.id) table index stored n (same_id_self e.id) l,
      nr_used-set table index stored f at (not_used f.id empty) used,
    )
