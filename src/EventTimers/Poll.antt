-- ===== src/EventTimers/Poll.antt =====
-- The process of the event timers: what a poll posts, and what the exit of a process removes.
use knx_iot_stack.Prelude.{
  ℕ, ◌+◌, ◌-◌, ◌≡◌, refl, ap, some, true, false, List, [], ◌∷◌, ◌++◌, map, if◌then◌else◌,
  Bool-cases, inl, inr,
}
use knx_iot_stack.EventTimers.{
  Timer, State, timer_expired, update_time, event, walk, poll, is_of, drop_of, unlink_of,
  unlink_tail_of, process_exited,
}

module _ (clock : ℕ → ℕ) where
  -- Timers that leave a list one after the other, each when some reading of the clock has it expired, and
  -- those that remain, in their order.
  pub data Removed : List Timer → List Timer → List Timer → Type 0 where
    none_removed : (ts : List Timer) → Removed ts [] ts
    one_removed :
        (before ts gone left : List Timer) (t : Timer) (k : ℕ)
        → timer_expired t (clock k) ≡ true
        → Removed (before ++ ts) gone left
        → Removed (before ++ t ∷ ts) (t ∷ gone) left

  -- None of the timers has expired at the readings of the clock from `k` on, one for each.
  abbrev pub AllRunning : ℕ → List Timer → Type 0
  AllRunning k [] = Unit {0}
  AllRunning k (t ∷ ts) = (timer_expired t (clock k) ≡ false) × AllRunning (k + 1) ts

  -- An expired timer leaves the list, and its event is posted.
  taken : List Timer → List Timer → Timer → ℕ → State → State
  taken pre post t k s =
      update_time (clock (k + 1))
        (record s { timers = pre ++ post; events = s.events ++ event t ∷ []; free = s.free - 1 })

  Passed : ℕ → State → List Timer → List Timer → Type 0
  Passed k s before ts = (k' : ℕ) × (walk clock k s before ts ≡ (false, s, k')) × AllRunning k ts

  Taken : ℕ → State → List Timer → List Timer → Type 0
  Taken k s before ts =
      (pre : List Timer) × (post : List Timer) × (t : Timer) × (j : ℕ) × (before ++ ts
        ≡ pre ++ t ∷ post)
      × (timer_expired t (clock j) ≡ true)
      × (walk clock k s before ts ≡ (true, taken pre post t j s, j + 2))

  -- What a poll leaves and posts.
  abbrev pub Polled : ℕ → ℕ → State → Type 0
  Polled n k s =
      (s' : State) × (gone : List Timer) × (j : ℕ) × (poll n clock k s ≡ some s')
      × (s'.events ≡ s.events ++ map event gone)
      × Removed s.timers gone s'.timers
      × AllRunning j s'.timers

-- The timers that remain when a process exits.
unfoldable pub others : ℕ → List Timer → List Timer
others p [] = []
others p (t ∷ ts) = if is_of p t then others p ts else t ∷ others p ts

unlink_of-others : (p : ℕ) (ts : List Timer) → unlink_of p ts ≡ others p ts
unfolding unlink_of others
unlink_of-others p [] = refl
unlink_of-others p (t ∷ ts) = rw (unlink_of-others p ts) refl

unlink-drop : (p : ℕ) (ts : List Timer) → unlink_tail_of p (drop_of p ts) ≡ others p ts
unfolding unlink_tail_of drop_of others
unlink-drop p [] = refl
unlink-drop p (t ∷ ts) = elim (Bool-cases (is_of p t)) [
  | inl own ↦ rw own (unlink-drop p ts)
  | inr other ↦ rw other (ap (λ us. t ∷ us) (unlink_of-others p ts))
]

-- When a process exits, exactly its timers leave the list.
pub process_exited-others :
    (p : ℕ) (s : State) → process_exited p s ≡ record s { timers = others p s.timers }
unfolding process_exited
process_exited-others p s = ap (λ ts. record s { timers = ts }) (unlink-drop p s.timers)
