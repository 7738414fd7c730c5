-- ===== src/Replay/Records.antt =====
-- The table of replay records: how records are found, added, evicted and freed.
use knx_iot_stack.Prelude.{
  ℕ, zero, suc, ◌+◌, ◌≤◌, ◌<◌, ◌≡◌, ◌⊎◌, refl, arith, true, false, not, none, some, List, [], ◌∷◌,
  get_elem?, set, length, ltb, if◌then◌else◌, find_index, find_index-set_new, find_index-get_elem?,
  find_index-none, get_elem?-set_self, get_elem?-set_ne, subst, sym, ◌≢◌, get_elem?-lt, length-set,
  set-set, Option-cases, inl, inr, bytes_eq, bytes_eq_refl, bytes_eq_sound, Bool-cases, ◌∙◌,
}
use native.Mathlib.Nat.{add-zero}
use native.Mathlib.Numerals.{one-add}
use knx_iot_stack.Replay.Store.{get_record-set}
use knx_iot_stack.Replay.{
  ReplayRecord, freed, matches, get_record, oldest_from, oldest, free_record, get_empty_record,
  add_client, free_client,
}

-- The record at `o` holds the least of `best_time` and the times of `rest`.
abbrev IsOldest : List ReplayRecord → List ReplayRecord → ℕ → ℕ → Type 0
IsOldest recs rest o best_time =
    (r : ReplayRecord) × (get_elem? recs o ≡ some r)
    × (r.time ≤ best_time)
    × ((j : ℕ) (x : ReplayRecord) → get_elem? rest j ≡ some x → r.time ≤ x.time)

IsOldest-cons :
    (recs rest : List ReplayRecord) (x : ReplayRecord) (o best_time t : ℕ)
    → t ≤ best_time
    → t ≤ x.time
    → IsOldest recs rest o t
    → IsOldest recs (x ∷ rest) o best_time
IsOldest-cons recs rest x o best_time t h k (r, e, le, all) = (r, e, omega arith, each)
  where
    each : (j : ℕ) (y : ReplayRecord) → get_elem? (x ∷ rest) j ≡ some y → r.time ≤ y.time
    each zero y p = ground arith
    each (suc j) y p = all j y p

oldest_from-IsOldest :
    (recs rest : List ReplayRecord) (i best best_time : ℕ)
    → ((j : ℕ) (r : ReplayRecord) → get_elem? rest j ≡ some r → get_elem? recs (i + j) ≡ some r)
    → (b : ReplayRecord) → get_elem? recs best ≡ some b
    → b.time ≡ best_time
    → IsOldest recs rest (oldest_from rest i best best_time) best_time
unfolding oldest_from
oldest_from-IsOldest recs [] i best best_time at b e t = (b, e, omega arith, λ j r h. absurd (cc))
oldest_from-IsOldest recs (x ∷ rest) i best best_time at b e t =
    elim (Bool-cases (ltb x.time best_time)) [
      | inl lt ↦ rw lt (
          IsOldest-cons recs rest x _ best_time x.time (ground arith) (omega arith)
            (oldest_from-IsOldest recs rest (i + 1) i x.time next x here refl))
      | inr ge ↦ rw ge (
          IsOldest-cons recs rest x _ best_time best_time (omega arith) (ground arith)
            (oldest_from-IsOldest recs rest (i + 1) best best_time next b e t))
    ]
  where
    here : get_elem? recs i ≡ some x
    here = rw add-zero at (at 0 x refl)

    next :
        (j : ℕ) (r : ReplayRecord) → get_elem? rest j ≡ some r → get_elem? recs (i + 1 + j) ≡ some r
    next j r h = let e : i + 1 + j ≡ i + suc j = omega arith in rw e (at (suc j) r h)

-- `out` is a record that was not in use, and nothing has changed.
abbrev pub TookFree : List ReplayRecord → ℕ × List ReplayRecord → Type 0
TookFree recs (i, recs') =
    (r : ReplayRecord) × (get_elem? recs i ≡ some r) × (r.in_use ≡ false) × (recs' ≡ recs)

-- All records were in use, and `out` is one with the least time, which has been freed.
abbrev pub Evicted : List ReplayRecord → ℕ × List ReplayRecord → Type 0
Evicted recs (i, recs') =
    ((j : ℕ) (x : ReplayRecord) → get_elem? recs j ≡ some x → x.in_use ≡ true)
    × (r : ReplayRecord) × (get_elem? recs i ≡ some r)
    × ((j : ℕ) (x : ReplayRecord) → get_elem? recs j ≡ some x → r.time ≤ x.time)
    × (recs' ≡ set recs i freed)

oldest-IsOldest :
    (r : ReplayRecord) (rs : List ReplayRecord)
    → IsOldest (r ∷ rs) (r ∷ rs) (oldest (r ∷ rs)) r.time
unfolding oldest
oldest-IsOldest r rs =
    IsOldest-cons (r ∷ rs) rs r _ r.time r.time (omega arith) (omega arith)
      (oldest_from-IsOldest (r ∷ rs) rs 1 0 r.time (λ j x h. rw one-add h) r refl refl)

-- A record that is not in use serves as it is; if all are in use, the record with the least time
-- is evicted, and no other record is touched.
pub get_empty_record_lem :
    (recs : List ReplayRecord)
    → 0 < length recs
    → TookFree recs (get_empty_record recs) ⊎ Evicted recs (get_empty_record recs)
unfolding free_record get_empty_record
get_empty_record_lem [] h = absurd (omega arith)
get_empty_record_lem (r ∷ rs) h = elim (Option-cases (find_index (λ x. not x.in_use) (r ∷ rs))) [
  | inl e ↦
      let (o, at, le, all) = oldest-IsOldest r rs in
      rw (e, get_empty_record)
        (inr ((λ j x p. busy x (find_index-none _ (r ∷ rs) j e p)), o, at, all, refl))
  | inr (i, e) ↦
      let (x, at, free) = find_index-get_elem? _ (r ∷ rs) i e in
      rw (e, get_empty_record) (inl (x, at, busy' x free, refl))
]
  where
    busy : (x : ReplayRecord) → not x.in_use ≡ false → x.in_use ≡ true
    busy x p = ground arith

    busy' : (x : ReplayRecord) → not x.in_use ≡ true → x.in_use ≡ false
    busy' x p = ground arith

get_record-add_new :
    (recs : List ReplayRecord) (kid ctx : List ℕ) (i : ℕ) (r : ReplayRecord)
    → get_record recs kid ctx ≡ none
    → 0 < length kid
    → i < length recs
    → matches kid ctx r ≡ true
    → get_record (set recs i r) kid ctx ≡ some i
unfolding get_record
get_record-add_new recs kid ctx i r e k l m =
    ground (arith, find_index-set_new (matches kid ctx) recs i r)

matches_self :
    (kid ctx : List ℕ) (ssn window now : ℕ)
    → matches kid ctx (record {
      rx_ssn = ssn;
      rx_kid = kid;
      rx_kid_ctx = ctx;
      time = now;
      window = window;
      in_use = true;
    })
      ≡ true
unfolding matches
matches_self kid ctx ssn window now = ground (arith, bytes_eq_refl kid, bytes_eq_refl ctx)

matches-freed : (kid ctx : List ℕ) → matches kid ctx freed ≡ false
unfolding matches
matches-freed kid ctx = refl

matches_kid : (kid ctx : List ℕ) (r : ReplayRecord) → matches kid ctx r ≡ true → kid ≡ r.rx_kid
unfolding matches
matches_kid kid ctx r h = bytes_eq_sound kid r.rx_kid (ground arith)

free_client-find_index :
    (recs : List ReplayRecord) (kid kid' ctx : List ℕ)
    → find_index (matches kid' ctx) (free_client recs kid)
      ≡ (if bytes_eq kid kid' then none else find_index (matches kid' ctx) recs)
unfolding free_client find_index
free_client-find_index [] kid kid' ctx = ground arith
free_client-find_index (r ∷ rs) kid kid' ctx = ground (
  arith,
  free_client-find_index rs kid kid' ctx,
  matches-freed kid' ctx,
  matches_kid kid' ctx r,
  bytes_eq_refl kid,
  bytes_eq_sound kid r.rx_kid,
  bytes_eq_sound kid kid',
)

-- Freeing a client's key: no record is found under its KID any more, under any context, and what
-- is found under the other KIDs stays the same.
pub get_record-free_client :
    (recs : List ReplayRecord) (kid kid' ctx : List ℕ)
    → get_record (free_client recs kid) kid' ctx
      ≡ (if bytes_eq kid kid' then none else get_record recs kid' ctx)
unfolding get_record
get_record-free_client recs kid kid' ctx = ground (arith, free_client-find_index recs kid kid' ctx)

-- The record that `oc_replay_add_client` writes for a client that it does not know.
abbrev new_record : ℕ → ℕ → List ℕ → List ℕ → ReplayRecord
new_record now ssn kid ctx = record {
  rx_ssn = ssn;
  rx_kid = kid;
  rx_kid_ctx = ctx;
  time = now;
  window = 1;
  in_use = true;
}

-- The record that a call writes: that of the client, if it is known; else one that was not in use; else,
-- if all are in use, one with the least time.
abbrev pub Chosen : List ReplayRecord → List ℕ → List ℕ → ℕ → Type 0
Chosen recs kid ctx i =
    (get_record recs kid ctx ≡ some i)
    ⊎ ((get_record recs kid ctx ≡ none)
        × ((r : ReplayRecord) × (get_elem? recs i ≡ some r)
            × ((r.in_use ≡ false)
                ⊎ (((j : ℕ) (x : ReplayRecord) → get_elem? recs j ≡ some x → x.in_use ≡ true)
                    × ((j : ℕ) (x : ReplayRecord) → get_elem? recs j ≡ some x → r.time ≤ x.time)))))

-- After a call the client is found at the record that was chosen for it, with its SSN as the only one in
-- the window, and all other records are as they were.
abbrev pub Synchronised : List ReplayRecord → List ReplayRecord → ℕ → List ℕ → List ℕ → Type 0
Synchronised recs recs' ssn kid ctx =
    (i : ℕ) × (r : ReplayRecord) × Chosen recs kid ctx i
    × (get_record recs' kid ctx ≡ some i)
    × (get_elem? recs' i ≡ some r)
    × (r.rx_ssn ≡ ssn)
    × (r.window ≡ 1)
    × ((j : ℕ) → i ≢ j → get_elem? recs' j ≡ get_elem? recs j)
    × (length recs' ≡ length recs)

Synchronised-set :
    (recs : List ReplayRecord) (now ssn : ℕ) (kid ctx : List ℕ) (i : ℕ)
    → Chosen recs kid ctx i
    → get_record recs kid ctx ≡ none
    → 0 < length kid
    → i < length recs
    → Synchronised recs (set recs i (new_record now ssn kid ctx)) ssn kid ctx
Synchronised-set recs now ssn kid ctx i c e k l = (
  i,
  new_record now ssn kid ctx,
  c,
  get_record-add_new recs kid ctx i (new_record now ssn kid ctx) e k l
      (matches_self kid ctx ssn 1 now),
  get_elem?-set_self recs i (new_record now ssn kid ctx) l,
  refl,
  refl,
  λ j n. get_elem?-set_ne recs (new_record now ssn kid ctx) n,
  length-set recs i _,
)

-- What is written over the freed record is what would be written over the old one.
add_unknown :
    (recs : List ReplayRecord) (now ssn : ℕ) (kid ctx : List ℕ)
    → 0 < length recs
    → get_record recs kid ctx ≡ none
    → (i : ℕ) × (i < length recs)
      × Chosen recs kid ctx i
      × (add_client now recs ssn kid ctx ≡ set recs i (new_record now ssn kid ctx))
unfolding add_client
add_unknown recs now ssn kid ctx l e = elim (get_empty_record_lem recs l) [
  | inl (r, at, free, same) ↦ (
    (get_empty_record recs).0,
    get_elem?-lt recs _ at,
    inr (e, (r, at, inl free)),
    rw (e, add_client) (rw same),
  )
  | inr (used, r, at, least, eq) ↦ (
    (get_empty_record recs).0,
    get_elem?-lt recs _ at,
    inr (e, (r, at, inr (used, least))),
    rw (e, add_client) (rw eq (set-set recs _ freed (new_record now ssn kid ctx))),
  )
]

get_record-get_elem? :
    (recs : List ReplayRecord) (kid ctx : List ℕ) (i : ℕ)
    → get_record recs kid ctx ≡ some i
    → (r : ReplayRecord) × (get_elem? recs i ≡ some r)
unfolding get_record
get_record-get_elem? recs kid ctx i e =
    let (r, at, m) = find_index-get_elem? (matches kid ctx) recs i (ground arith) in (r, at)

abbrev renewed : ReplayRecord → ℕ → ℕ → ReplayRecord
renewed r ssn now = record r { rx_ssn = ssn; window = 1; time = now }

known :
    (recs : List ReplayRecord) (now ssn : ℕ) (kid ctx : List ℕ) (i : ℕ) (r : ReplayRecord)
    → get_record recs kid ctx ≡ some i
    → get_elem? recs i ≡ some r
    → add_client now recs ssn kid ctx ≡ set recs i (renewed r ssn now)
unfolding add_client
known recs now ssn kid ctx i r e at = rw (e, add_client, at)

-- Adding a client with a KID, to a table with any records at all: the client is synchronised with the SSN
-- given, at its own record if it was known, else at a record that was not in use, else, if all are in
-- use, at one that was used the longest ago; the other records and the size of the table stay.
pub add_client-Synchronised :
    (recs : List ReplayRecord) (now ssn : ℕ) (kid ctx : List ℕ)
    → 0 < length recs
    → 0 < length kid
    → Synchronised recs (add_client now recs ssn kid ctx) ssn kid ctx
add_client-Synchronised recs now ssn kid ctx l k = elim (Option-cases (get_record recs kid ctx)) [
  | inl e ↦
      let (i, lt, c, eq) = add_unknown recs now ssn kid ctx l e in
      subst (λ out. Synchronised recs out ssn kid ctx) (sym eq)
        (Synchronised-set recs now ssn kid ctx i c e k lt)
  | inr (i, e) ↦
      let (r, at) = get_record-get_elem? recs kid ctx i e in
      let r' = renewed r ssn now in
      subst (λ out. Synchronised recs out ssn kid ctx) (sym (known recs now ssn kid ctx i r e at))
        (
          i,
          r',
          inl e,
          get_record-set recs kid ctx i r r' at (refl, refl, refl) ∙ e,
          get_elem?-set_self recs i r' (get_elem?-lt recs i at),
          refl,
          refl,
          λ j n. get_elem?-set_ne recs r' n,
          length-set recs i r',
        )
]
