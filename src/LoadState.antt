-- ===== src/LoadState.antt =====
-- api/oc_knx.c: the load state machine of the devices, /a/lsm.
-- The platform's storage keeps one state under LSM_STORE. The calls into other components are recorded
-- in order. An enumeration is its number: a request may hold any.
pub mod Machine
pub mod Handlers
mod Tests
use knx_iot_stack.Prelude.{
  ℕ, zero, suc, Option, none, some, Bool, true, false, List, [], ◌∷◌, ◌++◌, get_elem?, set, ◌==◌,
  if◌then◌else◌, ◌%◌, ◌^◌,
}

-- `oc_lsm_state_t`
abbrev pub unloaded : ℕ
unloaded = 0

abbrev pub loaded : ℕ
loaded = 1

abbrev pub loading : ℕ
loading = 2

abbrev pub unloading : ℕ
unloading = 4

abbrev pub load_completing : ℕ
load_completing = 5

-- `oc_lsm_event_t`
abbrev pub nop : ℕ
nop = 0

abbrev pub start_loading : ℕ
start_loading = 1

abbrev pub load_complete : ℕ
load_complete = 2

abbrev pub unload : ℕ
unload = 4

-- `oc_device_info_t`: the individual address, the installation identifier and the load state
pub record Device : Type 0 where
  pub ia : ℕ
  pub iid : ℕ
  pub lsm_s : ℕ

-- Calls into other components, and into the application.
pub data Call : Type 0 where
  delete_group_rp_table : Call
  delete_group_object_table : Call
  lsm_change_cb : ℕ → ℕ → Call
  register_group_multicasts : Call
  init_datapoints_at_initialization : Call
  publish_service : ℕ → ℕ → Call

-- The devices, what is stored under LSM_STORE, and the calls; `has_cb` is whether the application has
-- set `oc_get_lsm_change_cb ()->cb`.
pub record State : Type 0 where
  pub devices : List Device
  pub stored : Option ℕ
  pub has_cb : Bool
  pub calls : List Call

abbrev pub call : State → List Call → State
call s cs = record s { calls = s.calls ++ cs }

-- `oc_a_lsm_state`
unfoldable pub lsm_of : Option Device → ℕ
lsm_of none = unloaded
lsm_of (some d) = d.lsm_s

unfoldable pub a_lsm_state : State → ℕ → ℕ
unfolding lsm_of
a_lsm_state s device_index = lsm_of (get_elem? s.devices device_index)

-- `oc_a_lsm_set_state`; the first component is whether it returns 0
unfoldable pub set_lsm : State → ℕ → ℕ → Option Device → Bool × State
set_lsm s device_index new_state none = (false, s)
set_lsm s device_index new_state (some d) = (
  true,
  record s {
    devices = set s.devices device_index (record d { lsm_s = new_state });
    stored = some new_state;
  },
)

unfoldable pub a_lsm_set_state : State → ℕ → ℕ → Bool × State
unfolding set_lsm
a_lsm_set_state s device_index new_state =
    set_lsm s device_index new_state (get_elem? s.devices device_index)

-- `oc_lsm_event_to_state`
unfoldable pub lsm_event_to_state : State → ℕ → ℕ → Bool × State
unfolding a_lsm_set_state
lsm_event_to_state s lsm_e device_index =
    if lsm_e == nop
    then (true, s)
    else if lsm_e == start_loading
    then (true, (a_lsm_set_state s device_index loading).1)
    else if lsm_e == load_complete
    then (true, (a_lsm_set_state s device_index loaded).1)
    else if lsm_e == unload
    then (
      true,
      (a_lsm_set_state (call s (delete_group_rp_table ∷ delete_group_object_table ∷ []))
          device_index unloaded).1,
    )
    else (false, s)

-- `oc_is_device_in_runtime`, which is called for devices that there are
unfoldable pub is_device_in_runtime : Device → Bool
is_device_in_runtime d =
    if d.ia == 0 then false else if d.iid == 0 then false else d.lsm_s == loaded

-- A field of a request: whether its type is OC_REP_INT, its integer name, and its integer, a word of
-- 64 bits, which the handler converts to 32 bits.
pub record Rep : Type 0 where
  pub is_int : Bool
  pub iname : ℕ
  pub integer : ℕ

-- What a handler sends: a status without content, or one with the load state under name 3.
pub data Response : Type 0 where
  bad_request : Response
  ok : ℕ → Response
  changed : ℕ → Response

-- the search of the POST handler: the first integer of name 2, or the event that does nothing
unfoldable pub requested_event : List Rep → ℕ
requested_event [] = nop
requested_event (rep ∷ reps) =
    if rep.is_int
    then (if rep.iname == 2 then rep.integer % 2 ^ 32 else requested_event reps)
    else requested_event reps

-- `oc_core_a_lsm_get_handler`; `accepts` is `oc_check_accept_header (request, APPLICATION_CBOR)`
unfoldable pub a_lsm_get_handler : State → Bool → ℕ → Response
unfolding a_lsm_state
a_lsm_get_handler s accepts device_index =
    if accepts
    then (elim (get_elem? s.devices device_index) [
      | none ↦ bad_request
      | some d ↦ ok (a_lsm_state s device_index)
    ])
    else bad_request

-- What follows a change in a device, as it is after the change.
unfoldable pub notify : State → ℕ → Option Device → State
unfolding is_device_in_runtime
notify s device_index none = s
notify s device_index (some d) =
    let s' = if s.has_cb then call s (lsm_change_cb device_index d.lsm_s ∷ []) else s in
    if is_device_in_runtime d
    then call s' (
        register_group_multicasts
        ∷ init_datapoints_at_initialization
        ∷ publish_service d.ia d.iid
        ∷ [])
    else s'

unfoldable pub post_event : State → ℕ → Option Device → ℕ → Response × State
unfolding lsm_event_to_state notify a_lsm_state
post_event s device_index none event = (bad_request, s)
post_event s device_index (some d) event =
    let (known, s₁) = lsm_event_to_state s event device_index in
    if known
    then (
      changed (a_lsm_state s₁ device_index),
      notify s₁ device_index (get_elem? s₁.devices device_index),
    )
    else (bad_request, s₁)

-- `oc_core_a_lsm_post_handler`
unfoldable pub a_lsm_post_handler : State → Bool → ℕ → List Rep → Response × State
unfolding post_event requested_event
a_lsm_post_handler s accepts device_index reps =
    if accepts
    then post_event s device_index (get_elem? s.devices device_index) (requested_event reps)
    else (bad_request, s)
