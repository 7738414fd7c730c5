-- ===== src/GroupTables/Tests.antt =====
-- The tables on examples, and the theorems at concrete tables.
use knx_iot_stack.Prelude.{
  ℤ, pos, negsuc, ℕ, ◌+◌, ◌≡◌, refl, arith, none, some, true, List, [], ◌∷◌, if◌then◌else◌,
  find_index,
}
use knx_iot_stack.GroupTables.{
  Entry, Recipient, is_in_array, find_empty_slot, set_entry, find_from_id, nr_used, check_loop,
  check_recipient, visit_all, visit, find_table_index, find_next_table_index, scan, has_address,
}
use knx_iot_stack.GroupTables.Visits.{indices, visit_all-indices}
use knx_iot_stack.GroupTables.Recipients.{check_recipient-overrun, set_entry-empty_slot}

abbrev entry : ℤ → List ℕ → Entry
entry id ga = record { id = id; href = []; cflags = 0; ga = ga }

-- The second entry is free: its addresses do not count.
abbrev table : List Entry
table = entry (pos 1) (7 ∷ 8 ∷ []) ∷ entry (negsuc 0) (7 ∷ []) ∷ entry (pos 2) (7 ∷ []) ∷ []

visited : visit_all 4 7 table ≡ 0 ∷ 2 ∷ []
unfolding visit_all visit find_table_index find_next_table_index scan has_address
visited = refl

visit_all-indices_example : visit_all 4 7 table ≡ indices (has_address 7) 0 table
visit_all-indices_example = visit_all-indices 4 7 table (omega arith)

abbrev recipients : List Recipient
recipients = record { grpid = 5; ga = 7 ∷ [] } ∷ []

-- The recipient does not have the address.
overrun : check_recipient 0 9 recipients ≡ none
unfolding check_recipient check_loop
overrun = refl

check_recipient-overrun_example :
    check_recipient 0 9 recipients ≡ (if is_in_array 9 (7 ∷ []) then some true else none)
check_recipient-overrun_example =
    check_recipient-overrun 0 9 recipients (record { grpid = 5; ga = 7 ∷ [] }) refl (omega arith)
      (omega arith)

slot_found : find_empty_slot (pos 3) table ≡ some 1
unfolding find_empty_slot find_index
slot_found = refl

id_new : find_from_id (pos 3) table ≡ none
unfolding find_from_id find_index
id_new = refl

set_entry-empty_slot_example :
    (t : List Entry) × (set_entry true 1 (entry (pos 3) (9 ∷ [])) table ≡ some t)
    × (find_from_id (pos 3) t ≡ some 1)
    × (nr_used t ≡ nr_used table + 1)
set_entry-empty_slot_example =
    set_entry-empty_slot true 1 (entry (pos 3) (9 ∷ [])) table slot_found id_new
