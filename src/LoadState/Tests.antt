-- ===== src/LoadState/Tests.antt =====
-- A device that is loaded, and the theorems at it.
use knx_iot_stack.Prelude.{ℕ, ◌≡◌, ◌⊎◌, refl, arith, none, true, false, List, [], ◌∷◌}
use knx_iot_stack.LoadState.{
  State, Rep, bad_request, changed, a_lsm_state, a_lsm_post_handler, start_loading, load_complete,
  requested_event, register_group_multicasts, init_datapoints_at_initialization, publish_service,
  lsm_change_cb,
}
use knx_iot_stack.LoadState.Machine.{Post, run, lsm_after, run-lsm_after}
use knx_iot_stack.LoadState.Handlers.{post-answer}

abbrev two_devices : State
two_devices = record {
  devices = record { ia = 17; iid = 5; lsm_s = 0 } ∷ record { ia = 18; iid = 5; lsm_s = 1 } ∷ [];
  stored = none;
  has_cb = true;
  calls = [];
}

abbrev event : ℕ → List Rep
event n =
    record { is_int = false; iname = 2; integer = 0 }
    ∷ record { is_int = true; iname = 2; integer = n }
    ∷ []

abbrev loads : List Post
loads =
    record { accepts = true; device = 0; reps = event start_loading }
    ∷ record { accepts = true; device = 1; reps = event 3 }
    ∷ record { accepts = true; device = 0; reps = event load_complete }
    ∷ []

run-lsm_after_example :
    a_lsm_state (run two_devices loads) 0 ≡ lsm_after 0 (a_lsm_state two_devices 0) loads
run-lsm_after_example = run-lsm_after two_devices loads 0 (omega arith)

loaded_calls :
    (run two_devices loads).calls
    ≡ lsm_change_cb 0 2
      ∷ lsm_change_cb 0 1
      ∷ register_group_multicasts
      ∷ init_datapoints_at_initialization
      ∷ publish_service 17 5
      ∷ []
unfolding run a_lsm_post_handler requested_event
loaded_calls = refl

post-answer_example :
    let (response, s') = a_lsm_post_handler two_devices true 1 (event 3) in
    (response ≡ changed (a_lsm_state s' 1)) ⊎ ((response ≡ bad_request) × (s' ≡ two_devices))
post-answer_example = post-answer two_devices true 1 (event 3)
