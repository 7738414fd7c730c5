-- ===== src/Process/Tests.antt =====
-- The scheduler on examples, and the theorems at concrete states.
use knx_iot_stack.Prelude.{
  ℕ, ◌+◌, ◌<◌, ◌≡◌, refl, sym, subst, arith, Option, none, some, true, false, List, [], ◌∷◌, ◌++◌,
  ◌==◌, if◌then◌else◌, Bool-cases, inl, inr,
}
use knx_iot_stack.Process.Events.{
  Event, Queue, PostResult, ok, full, post, contents, IsValid, no_event,
}
use knx_iot_stack.Process.Events.Refine.{post-contents}
use knx_iot_stack.Process.{Kernel, runs}
use knx_iot_stack.Process.Delivery.{Goes, Goes-refl, Dispatches, event-dispatched}

abbrev event_of : ℕ → ℕ → Event
event_of ev receiver = record { ev = ev; payload = 0; receiver = receiver }

-- A ring with four places that is full, its first event at the third place.
abbrev full_queue : Queue
full_queue = record { num_events = 4; nevents = 4; fevent = 2; events = λ k. event_of (10 + k) 1 }

full_queue-IsValid : IsValid full_queue
full_queue-IsValid = omega arith

-- The array is doubled, and the events that wait are 12, 13, 10, 11 and then the new one.
abbrev doubled : Option (List Event)
doubled = elim (post true true (λ k. no_event) (event_of 9 1) full_queue) [
  | none ↦ none
  | some (q, r) ↦ some (contents q)
]

doubled_contents :
    doubled
    ≡ some (event_of 12 1 ∷ event_of 13 1 ∷ event_of 10 1 ∷ event_of 11 1 ∷ event_of 9 1 ∷ [])
unfolding post contents
doubled_contents = refl

-- A build without memory allocation refuses the event.
refused : post false true (λ k. no_event) (event_of 9 1) full_queue ≡ some (full_queue, full)
unfolding post
refused = refl

post-contents_example :
    (q : Queue) × (post true true (λ k. no_event) (event_of 9 1) full_queue ≡ some (q, ok))
    × IsValid q
    × (contents q ≡ contents full_queue ++ event_of 9 1 ∷ [])
post-contents_example =
    post-contents true true (λ k. no_event) (event_of 9 1) full_queue full_queue-IsValid
      (λ e. (refl, refl))

-- A thread that answers the event 0x86 with an event for process 1.
abbrev posted : Kernel → Option (Queue × PostResult) → Kernel
posted k none = k
posted k (some (q, r)) = record k { queue = q }

abbrev answered : Kernel → Kernel
answered k = posted k (post true true (λ i. no_event) (event_of 0x88 1) k.queue)

abbrev answering : ℕ → ℕ → ℕ → Kernel → Kernel × ℕ
answering p ev d k = if ev == 0x86 then (answered k, 1) else (k, 1)

answered-Goes : (k : Kernel) → IsValid k.queue → Goes k (answered k)
answered-Goes k v =
    let (q, e, v', c) =
      post-contents true true (λ i. no_event) (event_of 0x88 1) k.queue v (λ h. (refl, refl)) in
    subst (λ o. Goes k (posted k o)) (sym e)
      (record {
        same_list = refl;
        same_next = refl;
        valid = v';
        more = event_of 0x88 1 ∷ [];
        appended = c;
        quiet = (refl, tt);
      })

answering-Goes : (p ev d : ℕ) (k : Kernel) → IsValid k.queue → Goes k (answering p ev d k).0
answering-Goes p ev d k v = elim (Bool-cases (ev == 0x86)) [
  | inl asked ↦ rw asked (answered-Goes k v)
  | inr other ↦ rw other (Goes-refl k v)
]

answering_yields : (p ev d : ℕ) (k : Kernel) → (answering p ev d k).1 < 2
answering_yields p ev d k = ground arith

-- Two processes, 1 and 2, and three events that wait.
abbrev two_processes : Kernel
two_processes = record {
  next = λ p. if p == 2 then 1 else 0;
  state = λ p. 1;
  needspoll = λ p. p == 1;
  list = 2;
  current = 0;
  poll_requested = true;
  lastevent = 0x8a;
  queue = record {
    num_events = 4;
    nevents = 3;
    fevent = 3;
    events = λ k. event_of (if k == 3 then 0x86 else 0x89) k;
  };
}

event-dispatched_example :
    (k : Kernel) × (runs (λ p. true) answering 6 2 two_processes ≡ some k)
    × Dispatches (λ p. true) answering 6 (event_of 0x89 1) k
unfolding contents
event-dispatched_example =
    event-dispatched (λ p. true) answering answering-Goes answering_yields 6 2 (event_of 0x89 1)
      (event_of 0x86 3 ∷ event_of 0x89 0 ∷ []) [] two_processes refl (refl, (refl, (refl, tt)))
      (omega arith) (omega arith) (omega arith)
