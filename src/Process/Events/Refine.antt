-- ===== src/Process/Events/Refine.antt =====
-- The ring as a sequence of events: an event is put at its end and taken from its front.
use knx_iot_stack.Prelude.{
  ℕ, zero, suc, ◌+◌, ◌-◌, ◌%◌, ◌<◌, ◌≡◌, ◌≢◌, refl, sym, ap, ap₂, ◌∙◌, arith, some, Bool, true,
  List, [], ◌∷◌, ◌++◌, ℕ_discrete,
}
use native.Mathlib.Nat.{mod-eq_of_lt, mod-add-mod, mod-lt}
use knx_iot_stack.Process.Events.{
  Event, Queue, ok, append_event, grow, post, take_event, waiting, contents, IsValid,
}
use knx_iot_stack.Process.Events.Growth.{wrap, waiting_cong, contents-grow, grow-IsValid}

waiting-snoc :
    (events : ℕ → Event) (num first n : ℕ)
    → waiting events num first (n + 1)
      ≡ waiting events num first n ++ events ((first + n) % num) ∷ []
unfolding waiting
waiting-snoc events num first zero = let z : first + 0 ≡ first = omega arith in rw z refl
waiting-snoc events num first (suc n) =
    let m : suc n + 1 ≡ suc (n + 1) = omega arith in
    let c : first + 1 + n ≡ first + suc n = omega arith in
    rw (m, ← c) (ap (λ l. events (first % num) ∷ l) (waiting-snoc events num (first + 1) n))

-- Places of a ring that are less than its size apart are different.
apart : (num first k n : ℕ) → first < num → k < n → n < num → (first + k) % num ≢ (first + n) % num
apart num first k n f l m e =
    absurd (ground (arith, wrap num (first + k) (omega arith), wrap num (first + n) (omega arith)))

module _ (e : Event) (q : Queue) (v : IsValid q) (room : q.nevents < q.num_events) where
  contents-append_event : contents (append_event e q) ≡ contents q ++ e ∷ []
  unfolding contents append_event
  contents-append_event =
      waiting-snoc (append_event e q).events q.num_events q.fevent q.nevents
      ∙ ap₂ (λ l x. l ++ x ∷ [])
          (waiting_cong (append_event e q).events q.events q.num_events q.num_events q.fevent
            q.fevent q.nevents
            (λ k l. ground (arith, apart q.num_events q.fevent k q.nevents v.first l room)))
          (ground arith)

  append_event-IsValid : IsValid (append_event e q)
  unfolding append_event
  append_event-IsValid = omega (arith, v, room)

grown_room :
    (fresh : ℕ → Event) (q : Queue)
    → IsValid q
    → q.nevents ≡ q.num_events
    → (grow fresh q).nevents < (grow fresh q).num_events
unfolding grow
grown_room fresh q v at = omega (arith, v, at)

-- An event that is posted is put behind those that wait, also where the array grows, and the queue stays
-- valid. There is room for it, or the build allocates its memory and has memory for a larger array.
pub post-contents :
    (dynamic allocated : Bool) (fresh : ℕ → Event) (e : Event) (q : Queue)
    → IsValid q
    → (q.nevents ≡ q.num_events → (dynamic ≡ true) × (allocated ≡ true))
    → (q' : Queue) × (post dynamic allocated fresh e q ≡ some (q', ok))
      × IsValid q'
      × (contents q' ≡ contents q ++ e ∷ [])
unfolding post
post-contents dynamic allocated fresh e q v grows = elim (ℕ_discrete q.nevents q.num_events) [
  | yes at ↦
      let (d, a) = grows at in
      (
        append_event e (grow fresh q),
        ground (arith, at, d, a),
        append_event-IsValid e (grow fresh q) (grow-IsValid fresh q v at) (grown_room fresh q v at),
        contents-append_event e (grow fresh q) (grow-IsValid fresh q v at) (grown_room fresh q v at)
            ∙ ap (λ l. l ++ e ∷ []) (contents-grow fresh q v at),
      )
  | no n ↦ (
    append_event e q,
    ground (arith, n),
    append_event-IsValid e q v (omega (arith, v, n)),
    contents-append_event e q v (omega (arith, v, n)),
  )
]

abbrev head_or : Event → List Event → Event
head_or e [] = e
head_or e (x ∷ xs) = x

abbrev tail : List Event → List Event
tail [] = []
tail (x ∷ xs) = xs

take_some :
    (n : ℕ) (q : Queue) (e : Event) (rest : List Event)
    → IsValid q
    → q.nevents ≡ n
    → contents q ≡ e ∷ rest
    → (q' : Queue) × (take_event q ≡ some (e, q')) × IsValid q' × (contents q' ≡ rest)
unfolding contents waiting take_event
take_some zero q e rest v z h =
    absurd (ground (arith, ap (waiting q.events q.num_events q.fevent) z))
take_some (suc n) q e rest v z h =
    let opened : e ∷ rest
        ≡ q.events (q.fevent % q.num_events) ∷ waiting q.events q.num_events (q.fevent + 1) n =
      sym h ∙ ap (waiting q.events q.num_events q.fevent) z in
    let first : q.fevent % q.num_events ≡ q.fevent = mod-eq_of_lt v.first in
    let left : q.nevents - 1 ≡ n = omega (arith, z) in
    let taken : e ≡ q.events q.fevent = ap (head_or e) opened ∙ ap q.events first in
    (
      record q { fevent = (q.fevent + 1) % q.num_events; nevents = q.nevents - 1 },
      ground (arith, z, taken),
      record { first = mod-lt (q.fevent + 1) (omega (arith, v)); room = omega (arith, v) },
      rw left (
            waiting_cong q.events q.events q.num_events q.num_events ((q.fevent + 1) % q.num_events)
              (q.fevent + 1) n (λ k l. ap q.events (mod-add-mod (q.fevent + 1) q.num_events k)))
          ∙ sym (ap tail opened),
    )

-- What is taken from a valid queue with events is the first of those that wait; the others stay, and the
-- queue stays valid.
pub take_event-contents :
    (q : Queue) (e : Event) (rest : List Event)
    → IsValid q
    → contents q ≡ e ∷ rest
    → (q' : Queue) × (take_event q ≡ some (e, q')) × IsValid q' × (contents q' ≡ rest)
take_event-contents q e rest v h = take_some q.nevents q e rest v refl h
