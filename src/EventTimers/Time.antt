-- ===== src/EventTimers/Time.antt =====
-- When timers expire, and the time the process waits for.
use knx_iot_stack.Prelude.{
  ℕ, zero, suc, ◌+◌, ◌*◌, ◌%◌, ◌^◌, ◌≤◌, ◌<◌, ◌≡◌, ◌⊎◌, inl, inr, refl, arith, ◌∙◌, sym, ap, subst,
  Bool, true, false, List, [], ◌∷◌, ltb, leb, if◌then◌else◌,
}
use knx_iot_stack.EventTimers.{
  Timer, State, minus, timer_set, timer_reset, timer_expired, timer_remaining, shortest,
  update_time,
}

minus_elapsed : (s d : ℕ) → s < 2 ^ 64 → d < 2 ^ 64 → minus ((s + d) % 2 ^ 64) s ≡ d
minus_elapsed s d p q = omega arith

-- A timer has expired exactly when its interval has passed since its start, also when the clock has
-- wrapped in between, for less than 2^64 - 1 ticks.
pub timer_expired-elapsed :
    (t : Timer) (d : ℕ)
    → t.start < 2 ^ 64
    → d + 1 < 2 ^ 64
    → timer_expired t ((t.start + d) % 2 ^ 64) ≡ leb t.interval d
unfolding timer_expired
timer_expired-elapsed t d p q = rw (minus_elapsed t.start d p (omega arith)) (ground arith)

-- A number of resets.
unfoldable pub resets : ℕ → Timer → Timer
unfolding timer_reset
resets zero t = t
resets (suc k) t = timer_reset (resets k t)

one_more : (s k i : ℕ) → ((s + k * i) % 2 ^ 64 + i) % 2 ^ 64 ≡ (s + suc k * i) % 2 ^ 64
one_more s k i = omega arith

later : (s d : ℕ) → (s + d) % 2 ^ 64 ≡ (s % 2 ^ 64 + d) % 2 ^ 64
later s d = omega arith

below : (s : ℕ) → s % 2 ^ 64 < 2 ^ 64
below s = omega arith

resets-start :
    (k : ℕ) (t : Timer)
    → t.start < 2 ^ 64
    → ((resets k t).start ≡ (t.start + k * t.interval) % 2 ^ 64)
      × ((resets k t).interval ≡ t.interval)
unfolding resets timer_reset
resets-start zero t p = (omega arith, refl)
resets-start (suc k) t p =
    let (e, i) = resets-start k t p in
    (
      ap (λ x. (x + (resets k t).interval) % 2 ^ 64) e
          ∙ ap (λ x. ((t.start + k * t.interval) % 2 ^ 64 + x) % 2 ^ 64) i
          ∙ one_more t.start k t.interval,
      i,
    )

-- A periodic timer is stable: set at `now` and reset any number of times, it expires when its interval
-- has passed since the last of the multiples of the interval, however late the resets were made.
pub resets-expired :
    (k : ℕ) (t : Timer) (interval now d : ℕ)
    → now < 2 ^ 64
    → d + 1 < 2 ^ 64
    → timer_expired (resets k (timer_set t interval now)) ((now + k * interval + d) % 2 ^ 64)
      ≡ leb interval d
unfolding timer_set
resets-expired k t interval now d p q =
    let r = resets k (record t { interval = interval; start = now }) in
    let (e, i) = resets-start k (record t { interval = interval; start = now }) p in
    ap (timer_expired r) (later (now + k * interval) d ∙ ap (λ x. (x + d) % 2 ^ 64) (sym e))
    ∙ timer_expired-elapsed r d (subst (λ x. x < 2 ^ 64) (sym e) (below (now + k * interval))) q
    ∙ ap (λ x. leb x d) i

-- The distance is that of a timer of the list, and no timer is nearer.
abbrev pub IsLeast : ℕ → ℕ → List Timer → Type 0
IsLeast now r [] = Unit {0}
IsLeast now r (t ∷ ts) = (r ≤ timer_remaining t now) × IsLeast now r ts

abbrev pub IsOne : ℕ → ℕ → List Timer → Type 0
IsOne now r [] = ⊥
IsOne now r (t ∷ ts) = (r ≡ timer_remaining t now) ⊎ IsOne now r ts

shortest-le : (now r : ℕ) (ts : List Timer) → shortest now r ts ≤ r
unfolding shortest
shortest-le now r [] = omega arith
shortest-le now r (t ∷ ts) =
    ground (
      arith,
      shortest-le now (if ltb (timer_remaining t now) r then timer_remaining t now else r) ts,
    )

shortest-IsLeast : (now r : ℕ) (ts : List Timer) → IsLeast now (shortest now r ts) ts
unfolding shortest
shortest-IsLeast now r [] = tt
shortest-IsLeast now r (t ∷ ts) =
    let r' = if ltb (timer_remaining t now) r then timer_remaining t now else r in
    (ground (arith, shortest-le now r' ts), shortest-IsLeast now r' ts)

shortest-IsOne :
    (now r : ℕ) (ts : List Timer) → (shortest now r ts ≡ r) ⊎ IsOne now (shortest now r ts) ts
unfolding shortest
shortest-IsOne now r [] = inl refl
shortest-IsOne now r (t ∷ ts) =
    let r' = if ltb (timer_remaining t now) r then timer_remaining t now else r in
    nearer (ltb (timer_remaining t now) r) (shortest-IsOne now r' ts)
  where
    nearer :
        (b : Bool) {q : ℕ}
        → (q ≡ (if b then timer_remaining t now else r)) ⊎ IsOne now q ts
        → (q ≡ r) ⊎ IsOne now q (t ∷ ts)
    nearer true (inl e) = inr (inl e)
    nearer false (inl e) = inl e
    nearer b (inr m) = inr (inr m)

-- On a list with a timer, the next expiration is as far away as the timer of the list with the
-- least remaining time.
pub update_time-IsLeast :
    (now : ℕ) (s : State) (t : Timer) (ts : List Timer)
    → s.timers ≡ t ∷ ts
    → (r : ℕ) × (((update_time now s).next_expiration ≡ (now + r) % 2 ^ 64)
        × (IsLeast now r s.timers × IsOne now r s.timers))
unfolding update_time
update_time-IsLeast now s t ts e =
    let r = shortest now (timer_remaining t now) ts in
    rw e (
      r,
      (
        refl,
        (
          (
            shortest-le now (timer_remaining t now) ts,
            shortest-IsLeast now (timer_remaining t now) ts,
          ),
          shortest-IsOne now (timer_remaining t now) ts,
        ),
      ),
    )
