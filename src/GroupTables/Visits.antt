-- ===== src/GroupTables/Visits.antt =====
-- The loop over the entries with a group address visits all of them.
use knx_iot_stack.Prelude.{
  ℕ, zero, suc, ◌+◌, ◌<◌, ◌≡◌, refl, ap, arith, Bool, List, [], ◌∷◌, if◌then◌else◌, length, drop,
  Bool-cases, inl, inr,
}
use knx_iot_stack.GroupTables.{
  Entry, scan, has_address, find_table_index, find_next_table_index, visit, visit_all,
}

-- The indices of the entries that pass a test, the first entry at index `i`.
abbrev pub indices : (Entry → Bool) → ℕ → List Entry → List ℕ
indices test i [] = []
indices test i (e ∷ table) =
    if test e then i ∷ indices test (i + 1) table else indices test (i + 1) table

drop-suc :
    (i : ℕ) (table : List Entry) {e : Entry} {rest : List Entry}
    → drop i table ≡ e ∷ rest
    → drop (i + 1) table ≡ rest
drop-suc zero [] h = ground (arith, h)
drop-suc zero (x ∷ table) h = cc
drop-suc (suc i) [] h = ground (arith, h)
drop-suc (suc i) (x ∷ table) h =
    let e : suc i + 1 ≡ suc (i + 1) = omega arith in rw e (drop-suc i table h)

-- From any index on: what is left of the table is visited.
visit-scan :
    (left : List Entry) (fuel i ga : ℕ) (table : List Entry)
    → drop i table ≡ left
    → length left < fuel
    → visit fuel ga (scan (has_address ga) i left) table ≡ indices (has_address ga) i left
unfolding scan visit find_next_table_index
visit-scan [] zero i ga table d l = refl
visit-scan [] (suc fuel) i ga table d l = refl
visit-scan (e ∷ left) zero i ga table d l = absurd (omega (arith, l))
visit-scan (e ∷ left) (suc fuel) i ga table d l = elim (Bool-cases (has_address ga e)) [
  | inl h ↦
      rw (h, drop-suc i table d)
        (ap (λ r. i ∷ r)
          (visit-scan left fuel (i + 1) ga table (drop-suc i table d) (omega (arith, l))))
  | inr h ↦
      rw h (visit-scan left (suc fuel) (i + 1) ga table (drop-suc i table d) (omega (arith, l)))
]

-- Starting with `oc_core_find_group_object_table_index` and going on with
-- `oc_core_find_next_group_object_table_index`, a client visits exactly the entries that are in use and
-- have the group address, each once and in the order of the table; one round more than there are entries
-- is enough.
pub visit_all-indices :
    (fuel group_address : ℕ) (table : List Entry)
    → length table < fuel
    → visit_all fuel group_address table ≡ indices (has_address group_address) 0 table
unfolding visit_all find_table_index
visit_all-indices fuel group_address table l = visit-scan table fuel 0 group_address table refl l
