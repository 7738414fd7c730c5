-- ===== src/Process/Events/Growth.antt =====
-- The growth of a full queue: the events that wait stay as they are, in their order.
use knx_iot_stack.Prelude.{
  ℕ, zero, suc, ◌+◌, ◌-◌, ◌*◌, ◌%◌, ◌≤◌, ◌<◌, ◌≡◌, refl, ap, ap₂, ◌∙◌, arith, ◌∷◌, ltb,
  if◌then◌else◌, dec_lt, lt→ltb,
}
use native.Mathlib.Nat.{mod-eq_of_lt, mod-eq-sub-mod}
use knx_iot_stack.Process.Events.{
  Event, Queue, no_event, write, grow_loop, grow, waiting, contents, IsValid,
}

-- What lies below the index that the loop is at is left alone.
grow_loop-below :
    (rounds limit nevents i j : ℕ) (events : ℕ → Event) (k : ℕ)
    → k < i
    → i + rounds ≤ limit
    → grow_loop rounds limit nevents i j events k ≡ events k
unfolding grow_loop
grow_loop-below zero limit nevents i j events k h l = refl
grow_loop-below (suc rounds) limit nevents i j events k h l =
    grow_loop-below rounds limit nevents (i + 1) _ _ k (omega arith) (omega arith) ∙ ground arith

-- What was moved is left alone.
grow_loop-moved :
    (rounds limit nevents i j : ℕ) (events : ℕ → Event) (m : ℕ)
    → m < j
    → i + rounds ≤ limit
    → grow_loop rounds limit nevents i j events (limit + m) ≡ events (limit + m)
unfolding grow_loop
grow_loop-moved zero limit nevents i j events m h l = refl
grow_loop-moved (suc rounds) limit nevents i j events m h l =
    grow_loop-moved rounds limit nevents (i + 1) (if ltb i nevents then j + 1 else j) _ m
      (ground arith) (omega arith)
    ∙ ground arith

-- The array after one round that moves an event.
abbrev moved_one : ℕ → ℕ → ℕ → (ℕ → Event) → ℕ → Event
moved_one limit i j events = write (write events (limit + j) (events i)) i no_event

grow_loop_step :
    (rounds limit nevents i j : ℕ) (events : ℕ → Event)
    → i < nevents
    → grow_loop (suc rounds) limit nevents i j events
      ≡ grow_loop rounds limit nevents (i + 1) (j + 1) (moved_one limit i j events)
unfolding grow_loop
grow_loop_step rounds limit nevents i j events h = let e = lt→ltb i nevents h in rw e refl

-- An event between the index and the number of events is moved to its place behind the limit.
grow_loop-moves :
    (rounds limit nevents i j : ℕ) (events : ℕ → Event) (d : ℕ)
    → i + d < nevents
    → nevents ≤ i + rounds
    → i + rounds ≤ limit
    → grow_loop rounds limit nevents i j events (limit + (j + d)) ≡ events (i + d)
grow_loop-moves zero limit nevents i j events d h n l = absurd (omega arith)
grow_loop-moves (suc rounds) limit nevents i j events zero h n l =
    let k : limit + (j + 0) ≡ limit + j = omega arith in
    let s : i + 0 ≡ i = omega arith in
    rw (k, s)
      (ap (λ f. f (limit + j)) (grow_loop_step rounds limit nevents i j events (omega arith))
        ∙ grow_loop-moved rounds limit nevents (i + 1) (j + 1) (moved_one limit i j events) j
            (omega arith) (omega arith)
        ∙ ground arith)
grow_loop-moves (suc rounds) limit nevents i j events (suc d) h n l =
    let k : limit + (j + suc d) ≡ limit + (j + 1 + d) = omega arith in
    let s : i + suc d ≡ i + 1 + d = omega arith in
    rw (k, s)
      (ap (λ f. f (limit + (j + 1 + d)))
          (grow_loop_step rounds limit nevents i j events (omega arith))
        ∙ grow_loop-moves rounds limit nevents (i + 1) (j + 1) (moved_one limit i j events) d
            (omega arith) (omega arith) (omega arith)
        ∙ ground arith)

-- An index into a ring, at most once past its end.
pub wrap : (num i : ℕ) → i < num + num → i % num ≡ (if ltb i num then i else i - num)
wrap num i h = elim (dec_lt i num) [
  | yes l ↦ mod-eq_of_lt l ∙ ground arith
  | no n ↦ mod-eq-sub-mod (omega (arith, n)) ∙ mod-eq_of_lt (omega (arith, h, n)) ∙ ground arith
]

-- Queues with the same events at corresponding places.
pub waiting_cong :
    (events events' : ℕ → Event) (num num' first first' n : ℕ)
    → ((k : ℕ) → k < n → events ((first + k) % num) ≡ events' ((first' + k) % num'))
    → waiting events num first n ≡ waiting events' num' first' n
unfolding waiting
waiting_cong events events' num num' first first' zero h = refl
waiting_cong events events' num num' first first' (suc n) h =
    let a : first + 0 ≡ first = omega arith in
    let b : first' + 0 ≡ first' = omega arith in
    let at : events (first % num) ≡ events' (first' % num') =
      rw (← a) (rw (← b) (h 0 (omega arith))) in
    ap₂ (λ e l. e ∷ l) at
      (waiting_cong events events' num num' (first + 1) (first' + 1) n (λ k l.
        let c : first + 1 + k ≡ first + (k + 1) = omega arith in
        let d : first' + 1 + k ≡ first' + (k + 1) = omega arith in
        rw (c, d) (h (k + 1) (omega arith))))

module _ (fresh : ℕ → Event) (q : Queue) (v : IsValid q) (full : q.nevents ≡ q.num_events) where
  -- The array of the grown queue at the two kinds of places.
  grow-events :
      (k : ℕ)
      → k < q.nevents
      → (grow fresh q).events (((grow fresh q).fevent + k) % (grow fresh q).num_events)
        ≡ q.events ((q.fevent + k) % q.num_events)
  unfolding grow
  grow-events k h =
      let limit = q.num_events * 2 - (q.nevents - q.fevent) in
      let rounds = limit - q.fevent in
      let old : ℕ → Event = λ (i : ℕ). if ltb i q.num_events then q.events i else fresh i in
      let new : ℕ → Event = grow_loop rounds limit q.nevents q.fevent 0 old in
      elim (dec_lt (q.fevent + k) q.num_events) [
        | yes l ↦
            let at : (limit + k) % (q.num_events * 2) ≡ limit + (0 + k) = omega (
              arith,
              v,
              full,
              l,
              mod-eq_of_lt {n = limit + k} {m = q.num_events * 2} (omega (arith, v, full, l)),
            ) in
            let at' : (q.fevent + k) % q.num_events ≡ q.fevent + k = mod-eq_of_lt l in
            ap new at
            ∙ grow_loop-moves rounds limit q.nevents q.fevent 0 old k (omega (arith, v, full, l))
                (omega (arith, v, full, l)) (omega (arith, v, full, l))
            ∙ ground (arith, at', l)
        | no n ↦
            let at : (limit + k) % (q.num_events * 2) ≡ q.fevent + k - q.num_events = ground (
              arith,
              v,
              full,
              n,
              h,
              wrap (q.num_events * 2) (limit + k) (omega (arith, v, full, n, h)),
            ) in
            let at' : (q.fevent + k) % q.num_events ≡ q.fevent + k - q.num_events = ground (
              arith,
              v,
              full,
              n,
              h,
              wrap q.num_events (q.fevent + k) (omega (arith, v, full, n, h)),
            ) in
            ap new at
            ∙ grow_loop-below rounds limit q.nevents q.fevent 0 old (q.fevent + k - q.num_events)
                (omega (arith, v, full, n, h)) (omega (arith, v, full, n, h))
            ∙ ground (arith, at', v, full, n, h)
      ]

  -- The growth changes no event that waits.
  pub contents-grow : contents (grow fresh q) ≡ contents q
  unfolding contents grow
  contents-grow =
      waiting_cong (grow fresh q).events q.events (grow fresh q).num_events q.num_events
        (grow fresh q).fevent q.fevent q.nevents grow-events

  pub grow-IsValid : IsValid (grow fresh q)
  unfolding grow
  grow-IsValid = omega (arith, v, full)
