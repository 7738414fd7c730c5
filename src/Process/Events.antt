-- ===== src/Process/Events.antt =====
-- util/oc_process.c: the queue of asynchronous events, a ring in an array.
-- The array is a function of the index. In a build with OC_DYNAMIC_ALLOCATION the full array is doubled by
-- `realloc`: whether that succeeds is an argument, and so is what the new half then holds.
pub mod Growth
pub mod Refine
use knx_iot_stack.Prelude.{
  ℕ, zero, suc, ◌+◌, ◌-◌, ◌*◌, ◌%◌, ◌≤◌, ◌<◌, ◌≡◌, Option, none, some, Bool, true, false, List, [],
  ◌∷◌, ltb, leb, ◌==◌, if◌then◌else◌,
}

-- `struct event_data`; a process is its address, NULL is 0.
pub record Event : Type 0 where
  pub ev : ℕ
  pub payload : ℕ
  pub receiver : ℕ

abbrev pub no_event : Event
no_event = record { ev = 0; payload = 0; receiver = 0 }

pub record Queue : Type 0 where
  pub num_events : ℕ
  pub nevents : ℕ
  pub fevent : ℕ
  pub events : ℕ → Event

-- OC_PROCESS_ERR_OK and OC_PROCESS_ERR_FULL
pub data PostResult : Type 0 where
  ok : PostResult
  full : PostResult

abbrev pub write : (ℕ → Event) → ℕ → Event → ℕ → Event
write events i e k = if k == i then e else events k

-- The loop that moves the events from `fevent` on to the end of the new array, with its rounds left.
-- `limit` is the index that it stops at, OC_PROCESS_NUMEVENTS - n.
unfoldable pub grow_loop : ℕ → ℕ → ℕ → ℕ → ℕ → (ℕ → Event) → ℕ → Event
grow_loop zero limit nevents i j events = events
grow_loop (suc rounds) limit nevents i j events =
    grow_loop rounds limit nevents (i + 1) (if ltb i nevents then j + 1 else j)
      (write (if ltb i nevents then write events (limit + j) (events i) else events) i no_event)

-- The array of a full queue is doubled; `fresh` is what `realloc` leaves in the new half.
unfoldable pub grow : (ℕ → Event) → Queue → Queue
unfolding grow_loop
grow fresh q =
    let num = q.num_events * 2 in
    let n = q.nevents - q.fevent in
    let events = λ (k : ℕ). if ltb k q.num_events then q.events k else fresh k in
    record q {
      num_events = num;
      fevent = num - n;
      events = grow_loop (num - n - q.fevent) (num - n) q.nevents q.fevent 0 events;
    }

-- The end of `oc_process_post`.
unfoldable pub append_event : Event → Queue → Queue
append_event e q = record q {
  events = write q.events ((q.fevent + q.nevents) % q.num_events) e;
  nevents = q.nevents + 1;
}

-- `oc_process_post`; `none` is the abort for want of memory.
unfoldable pub post : Bool → Bool → (ℕ → Event) → Event → Queue → Option (Queue × PostResult)
unfolding append_event grow
post dynamic allocated fresh e q =
    if q.nevents == q.num_events
    then if dynamic
      then if allocated then some (append_event e (grow fresh q), ok) else none
      else some (q, full)
    else some (append_event e q, ok)

-- The event that `do_event` takes from the queue.
unfoldable pub take_event : Queue → Option (Event × Queue)
take_event q =
    if ltb 0 q.nevents
    then some (
      q.events q.fevent,
      record q { fevent = (q.fevent + 1) % q.num_events; nevents = q.nevents - 1 },
    )
    else none

-- the queue of `oc_process_init`
unfoldable pub empty_queue : Queue
empty_queue = record { num_events = 10; nevents = 0; fevent = 0; events = λ k. no_event }

-- The events that wait, the first to be taken first.
unfoldable pub waiting : (ℕ → Event) → ℕ → ℕ → ℕ → List Event
waiting events num first zero = []
waiting events num first (suc n) = events (first % num) ∷ waiting events num (first + 1) n

unfoldable pub contents : Queue → List Event
unfolding waiting
contents q = waiting q.events q.num_events q.fevent q.nevents

-- The first index lies in the array, and there are no more events than places.
pub record IsValid (q : Queue) : Type 0 where
  pub first : q.fevent < q.num_events
  pub room : q.nevents ≤ q.num_events
