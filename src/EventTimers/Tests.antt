-- ===== src/EventTimers/Tests.antt =====
-- A list of three timers, and the theorems at it.
use knx_iot_stack.Prelude.{
  ℕ, ◌+◌, ◌%◌, ◌^◌, ◌-◌, ◌≡◌, refl, arith, Option, none, some, List, [], ◌∷◌, leb, ◌==◌,
  if◌then◌else◌,
}
use knx_iot_stack.EventTimers.{Timer, State, timer_expired, poll}
use knx_iot_stack.EventTimers.Time.{timer_expired-elapsed}

abbrev timer : ℕ → ℕ → ℕ → Timer
timer address start interval = record {
  address = address;
  start = start;
  interval = interval;
  process = some 1;
}

abbrev three : State
three = record {
  timers = timer 10 100 5 ∷ timer 11 100 50 ∷ timer 12 90 20 ∷ [];
  next_expiration = 0;
  events = [];
  free = 3;
  polls = 0;
}

-- A clock that wraps between the start of the timer and now.
timer_expired-elapsed_example :
    timer_expired (timer 10 (2 ^ 64 - 3) 5) ((2 ^ 64 - 3 + 7) % 2 ^ 64) ≡ leb 5 7
timer_expired-elapsed_example =
    timer_expired-elapsed (timer 10 (2 ^ 64 - 3) 5) 7 (omega arith) (omega arith)

-- A clock that ticks behind its first reading: the first timer expires when the walk has passed it, and
-- is posted behind the third.
abbrev ticking : ℕ → ℕ
ticking k = if k == 0 then 104 else 112

posted : Option State → List (ℕ × ℕ)
posted none = []
posted (some s) = s.events

posted_two : posted (poll 4 ticking 0 three) ≡ (1, 12) ∷ (1, 10) ∷ []
unfolding posted poll
posted_two = refl
