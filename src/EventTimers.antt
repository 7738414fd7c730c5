-- ===== src/EventTimers.antt =====
-- util/oc_timer.c and util/oc_etimer.c: timers, and the list of event timers with its process.
-- `oc_clock_time_t` has 64 bits. The clock is an argument: its value at each reading, or for the
-- process, which reads it again and again, the sequence of its values. The process is the code
-- after its yield, for the two events that it reacts to; an event is posted while the queue of
-- util/oc_process.c has a free place.
pub mod Time
pub mod Poll
mod Tests
use knx_iot_stack.Prelude.{
  ℕ, zero, suc, ◌+◌, ◌-◌, ◌%◌, ◌^◌, Option, none, some, Bool, true, false, ◌&&◌, not, List, [], ◌∷◌,
  ◌++◌, ltb, ◌==◌, if◌then◌else◌,
}
use knx_iot_stack.Prelude.Keyed.{remove_at}

-- `a - b` on `oc_clock_time_t`, for `a` and `b` of 64 bits
abbrev pub minus : ℕ → ℕ → ℕ
minus a b = (a + (2 ^ 64 - b)) % 2 ^ 64

-- `struct oc_etimer` at an address, with the `struct oc_timer` in it; `process` is `none` for
-- OC_PROCESS_NONE.
pub record Timer : Type 0 where
  pub address : ℕ
  pub start : ℕ
  pub interval : ℕ
  pub process : Option ℕ

-- `timerlist`, `next_expiration`, the timer events posted, how many more the event queue holds, and
-- how often the process was polled.
pub record State : Type 0 where
  pub timers : List Timer
  pub next_expiration : ℕ
  pub events : List (ℕ × ℕ)
  pub free : ℕ
  pub polls : ℕ

-- `oc_timer_set`
unfoldable pub timer_set : Timer → ℕ → ℕ → Timer
timer_set t interval now = record t { interval = interval; start = now }

-- `oc_timer_reset`
unfoldable pub timer_reset : Timer → Timer
timer_reset t = record t { start = (t.start + t.interval) % 2 ^ 64 }

-- `oc_timer_restart`
unfoldable pub timer_restart : Timer → ℕ → Timer
timer_restart t now = record t { start = now }

-- `oc_timer_expired`
unfoldable pub timer_expired : Timer → ℕ → Bool
timer_expired t now = ltb t.interval ((minus now t.start + 1) % 2 ^ 64)

-- `oc_timer_remaining`
unfoldable pub timer_remaining : Timer → ℕ → ℕ
timer_remaining t now = minus ((t.start + t.interval) % 2 ^ 64) now

-- the loop of `update_time`
unfoldable pub shortest : ℕ → ℕ → List Timer → ℕ
unfolding timer_remaining
shortest now tdist [] = tdist
shortest now tdist (t ∷ ts) =
    shortest now (if ltb (timer_remaining t now) tdist then timer_remaining t now else tdist) ts

-- `update_time`
unfoldable pub update_time : ℕ → State → State
unfolding shortest timer_remaining
update_time now s = record s {
  next_expiration = elim s.timers [
    | [] ↦ 0
    | t ∷ ts ↦ (now + shortest now (timer_remaining t now) ts) % 2 ^ 64
  ];
}

-- The event posted for a timer: its process, NULL without one, and the timer.
unfoldable pub event : Timer → ℕ × ℕ
event t = (elim t.process [ none ↦ 0 | some p ↦ p ], t.address)

-- One walk of the process through the list, behind the timers `before`: at the first expired timer
-- whose event is posted it leaves the list, and the walk starts again. The clock is read for each timer,
-- and for `update_time`; its readings are counted from `k` on, and the number of the next is returned.
-- (A reading is counted for `update_time` also where the list is empty, and the code reads none.)
unfoldable pub walk : (ℕ → ℕ) → ℕ → State → List Timer → List Timer → Bool × State × ℕ
unfolding timer_expired update_time event
walk clock k s before [] = (false, s, k)
walk clock k s before (t ∷ ts) =
    if timer_expired t (clock k)
    then (if s.free == 0
        then walk clock (k + 1) (record s { polls = s.polls + 1 }) (before ++ t ∷ []) ts
        else (
          true,
          update_time (clock (k + 1)) (record s {
            timers = before ++ ts;
            events = s.events ++ event t ∷ [];
            free = s.free - 1;
          }),
          k + 2,
        ))
    else walk clock (k + 1) s (before ++ t ∷ []) ts

-- The process at OC_PROCESS_EVENT_POLL, with fuel for the walks.
unfoldable pub poll : ℕ → (ℕ → ℕ) → ℕ → State → Option State
unfolding walk
poll zero clock k s = none
poll (suc n) clock k s =
    let (again, s', k') = walk clock k s [] s.timers in
    let rest = poll n clock k' s' in if again then rest else some s'

-- `while (timerlist != NULL && timerlist->p == p)`
unfoldable pub is_of : ℕ → Timer → Bool
is_of p t = elim t.process [ none ↦ false | some q ↦ q == p ]

unfoldable pub drop_of : ℕ → List Timer → List Timer
unfolding is_of
drop_of p [] = []
drop_of p (t ∷ ts) = if is_of p t then drop_of p ts else t ∷ ts

-- The loop behind the head of the list, which keeps the head.
unfoldable pub unlink_of : ℕ → List Timer → List Timer
unfolding is_of
unlink_of p [] = []
unlink_of p (t ∷ ts) = if is_of p t then unlink_of p ts else t ∷ unlink_of p ts

unfoldable pub unlink_tail_of : ℕ → List Timer → List Timer
unfolding unlink_of
unlink_tail_of p [] = []
unlink_tail_of p (t ∷ ts) = t ∷ unlink_of p ts

-- The process at OC_PROCESS_EVENT_EXITED of process `p`.
unfoldable pub process_exited : ℕ → State → State
unfolding drop_of unlink_tail_of
process_exited p s = record s { timers = unlink_tail_of p (drop_of p s.timers) }

unfoldable pub listed : ℕ → List Timer → Bool
listed address [] = false
listed address (t ∷ ts) = if t.address == address then true else listed address ts

unfoldable pub store : Timer → List Timer → List Timer
store t' [] = []
store t' (t ∷ ts) = if t.address == t'.address then t' ∷ ts else t ∷ store t' ts

-- `add_timer`, called by process `current`, with the timer as it has been set; a timer of the list is
-- changed where it is, and one without a process is not on the list.
unfoldable pub add_timer : ℕ → ℕ → Timer → State → State
unfolding update_time listed store
add_timer current now t s =
    let t' = record t { process = some current } in
    let s' = record s { polls = s.polls + 1 } in
    if is_some t.process && listed t.address s.timers
    then update_time now (record s' { timers = store t' s.timers })
    else update_time now (record s' { timers = t' ∷ s.timers })
  where
    is_some : Option ℕ → Bool
    is_some none = false
    is_some (some p) = true

-- `oc_etimer_set`, with the clock as the timer is set and as it is added
unfoldable pub etimer_set : ℕ → ℕ → ℕ → Timer → ℕ → State → State
unfolding add_timer timer_set
etimer_set current now now_added t interval s =
    add_timer current now_added (timer_set t interval now) s

-- `oc_etimer_reset`
unfoldable pub etimer_reset : ℕ → ℕ → Timer → State → State
unfolding add_timer timer_reset
etimer_reset current now t s = add_timer current now (timer_reset t) s

-- `oc_etimer_reset_with_new_interval`
unfoldable pub etimer_reset_with_new_interval : ℕ → ℕ → Timer → ℕ → State → State
unfolding add_timer timer_reset
etimer_reset_with_new_interval current now t interval s =
    add_timer current now (record (timer_reset t) { interval = interval }) s

-- `oc_etimer_restart`, with the clock as the timer is restarted and as it is added
unfoldable pub etimer_restart : ℕ → ℕ → ℕ → Timer → State → State
unfolding add_timer timer_restart
etimer_restart current now now_added t s = add_timer current now_added (timer_restart t now) s

-- `oc_etimer_expired`
unfoldable pub etimer_expired : Timer → Bool
etimer_expired t = elim t.process [ none ↦ true | some p ↦ false ]

unfoldable pub remove : ℕ → List Timer → List Timer
unfolding remove_at
remove address ts = remove_at (λ t. t.address) address ts

-- `oc_etimer_stop`, and the timer after it
unfoldable pub etimer_stop : ℕ → Timer → State → Timer × State
unfolding update_time listed remove
etimer_stop now t s = (
  record t { process = none },
  if listed t.address s.timers
      then update_time now (record s { timers = remove t.address s.timers })
      else s,
)
