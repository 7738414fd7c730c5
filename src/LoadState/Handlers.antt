-- ===== src/LoadState/Handlers.antt =====
-- What the handlers of /a/lsm answer.
use knx_iot_stack.Prelude.{
  ℕ, ◌≡◌, ◌⊎◌, inl, inr, refl, arith, some, Option-cases, Bool, true, false, List, get_elem?,
  Bool-cases,
}
use knx_iot_stack.LoadState.{
  State, Device, Rep, bad_request, changed, a_lsm_state, lsm_event_to_state, a_lsm_post_handler,
  post_event, requested_event,
}
use knx_iot_stack.LoadState.Machine.{notify-devices}

unknown-same :
    (s : State) (event j : ℕ)
    → (lsm_event_to_state s event j).0 ≡ false
    → (lsm_event_to_state s event j).1 ≡ s
unfolding lsm_event_to_state
unknown-same s event j e = ground (arith, e)

known-lsm :
    (s : State) (i event : ℕ) (d : Device)
    → (lsm_event_to_state s event i).0 ≡ true
    → (post_event s i (some d) event).0 ≡ changed (a_lsm_state (post_event s i (some d) event).1 i)
unfolding post_event a_lsm_state
known-lsm s i event d known =
    let s' = (lsm_event_to_state s event i).1 in
    rw (known, notify-devices s' i (get_elem? s'.devices i)) refl

unknown-bad_request :
    (s : State) (i event : ℕ) (d : Device)
    → (lsm_event_to_state s event i).0 ≡ false
    → post_event s i (some d) event ≡ (bad_request, s)
unfolding post_event
unknown-bad_request s i event d unknown = rw (unknown, unknown-same s event i unknown) refl

-- A POST is answered with the load state that the device has when the handler returns, or it is
-- refused and has changed nothing.
pub post-answer :
    (s : State) (accepts : Bool) (i : ℕ) (reps : List Rep)
    → let (response, s') = a_lsm_post_handler s accepts i reps in
      (response ≡ changed (a_lsm_state s' i)) ⊎ ((response ≡ bad_request) × (s' ≡ s))
unfolding a_lsm_post_handler
post-answer s false i reps = inr (refl, refl)
post-answer s true i reps = elim (Option-cases (get_elem? s.devices i)) [
  | inl missing ↦ rw (missing, post_event) (inr (refl, refl))
  | inr (d, e) ↦ elim (Bool-cases (lsm_event_to_state s (requested_event reps) i).0) [
    | inl known ↦ rw e (inl (known-lsm s i (requested_event reps) d known))
    | inr unknown ↦
        rw (e, unknown-bad_request s i (requested_event reps) d unknown) (inr (refl, refl))
  ]
]
