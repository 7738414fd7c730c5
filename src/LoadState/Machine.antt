-- ===== src/LoadState/Machine.antt =====
-- The load state machine as an automaton for each device.
use knx_iot_stack.Prelude.{
  ℕ, zero, suc, ◌<◌, ◌≤◌, ◌≡◌, ◌≢◌, refl, arith, ◌∙◌, sym, ap, subst, Option, none, some,
  Option-cases, Bool, true, false, ◌&&◌, List, [], ◌∷◌, length, get_elem?, get_elem?-set_self,
  get_elem?-set_ne, get_elem?-lt, length-set, set, ◌==◌, if◌then◌else◌, Bool-cases, inl, inr,
  ==_iff,
}
use knx_iot_stack.LoadState.{
  call, delete_group_object_table, delete_group_rp_table, State, Device, Rep, unloaded, loaded,
  loading, nop, start_loading, load_complete, unload, a_lsm_state, a_lsm_set_state,
  lsm_event_to_state, a_lsm_post_handler, requested_event, post_event, notify, lsm_of, set_lsm,
}

-- The transitions: an event that is none of the four changes nothing.
unfoldable pub step : ℕ → ℕ → ℕ
step lsm event =
    if event == start_loading
    then loading
    else if event == load_complete
    then loaded
    else if event == unload
    then unloaded
    else lsm

-- A POST to a device.
pub record Post : Type 0 where
  pub accepts : Bool
  pub device : ℕ
  pub reps : List Rep

-- The requests in their order.
unfoldable pub run : State → List Post → State
unfolding a_lsm_post_handler
run s [] = s
run s (p ∷ ps) = run (a_lsm_post_handler s p.accepts p.device p.reps).1 ps

-- The automaton of one device.
unfoldable pub lsm_after : ℕ → ℕ → List Post → ℕ
unfolding step
lsm_after i lsm [] = lsm
lsm_after i lsm (p ∷ ps) =
    lsm_after i (if p.accepts && (p.device == i) then step lsm (requested_event p.reps) else lsm) ps

pub notify-devices : (s : State) (j : ℕ) (d : Option Device) → (notify s j d).devices ≡ s.devices
unfolding notify
notify-devices s j none = refl
notify-devices s j (some d) = ground arith

notify-stored : (s : State) (j : ℕ) (d : Option Device) → (notify s j d).stored ≡ s.stored
unfolding notify
notify-stored s j none = refl
notify-stored s j (some d) = ground arith

neq_of_false : (a b : ℕ) → (a == b) ≡ false → a ≢ b
neq_of_false a b e = ground (arith, e)

-- What a change of the state does to the state of any device.
set_state-lsm :
    (s : State) (i j v : ℕ) {d : Device}
    → get_elem? s.devices j ≡ some d
    → a_lsm_state (a_lsm_set_state s j v).1 i ≡ (if j == i then v else a_lsm_state s i)
unfolding a_lsm_state a_lsm_set_state set_lsm lsm_of
set_state-lsm s i j v {d} e = elim (Bool-cases (j == i)) [
  | inl same ↦
      let e' : get_elem? (set s.devices j (record d { lsm_s = v })) i
          ≡ some (record d { lsm_s = v }) =
        subst
          (λ k.
            get_elem? (set s.devices j (record d { lsm_s = v })) k ≡ some (record d { lsm_s = v }))
          ((==_iff j i).0 same) (get_elem?-set_self s.devices j _ (get_elem?-lt s.devices j e)) in
      rw (e, e', same) refl
  | inr other ↦
      rw
        (
          e,
          get_elem?-set_ne s.devices {i = j} {j = i} (record d { lsm_s = v })
              (neq_of_false j i other),
          other,
        )
        refl
]

step-nop : (lsm event : ℕ) → (event == nop) ≡ true → step lsm event ≡ lsm
unfolding step
step-nop lsm event e = ground (arith, e)

if_same : (b : Bool) (x : ℕ) → (if b then x else x) ≡ x
if_same true x = refl
if_same false x = refl

event-lsm :
    (s : State) (i j event : ℕ) {d : Device}
    → get_elem? s.devices j ≡ some d
    → a_lsm_state (lsm_event_to_state s event j).1 i
      ≡ (if j == i then step (a_lsm_state s i) event else a_lsm_state s i)
unfolding lsm_event_to_state step a_lsm_state
event-lsm s i j event {d} e = elim (Bool-cases (event == nop)) [
  | inl none' ↦
      rw (none', step-nop (a_lsm_state s i) event none') (sym (if_same (j == i) (a_lsm_state s i)))
  | inr some' ↦ elim (Bool-cases (event == start_loading)) [
    | inl starts ↦ rw (some', starts) (set_state-lsm s i j loading e)
    | inr b ↦ elim (Bool-cases (event == load_complete)) [
      | inl completes ↦ rw (some', b, completes) (set_state-lsm s i j loaded e)
      | inr c ↦ elim (Bool-cases (event == unload)) [
        | inl unloads ↦
            rw (some', b, c, unloads)
              (set_state-lsm (call s (delete_group_rp_table ∷ delete_group_object_table ∷ [])) i j
                unloaded e)
        | inr unknown ↦ rw (some', b, c, unknown) (sym (if_same (j == i) (a_lsm_state s i)))
      ]
    ]
  ]
]

post_event-lsm :
    (s : State) (i j event : ℕ) (d : Device)
    → a_lsm_state (post_event s j (some d) event).1 i
      ≡ a_lsm_state (lsm_event_to_state s event j).1 i
unfolding post_event a_lsm_state
post_event-lsm s i j event d = elim (Bool-cases (lsm_event_to_state s event j).0) [
  | inl known ↦
      rw
        (
          known,
          notify-devices (lsm_event_to_state s event j).1 j
              (get_elem? (lsm_event_to_state s event j).1.devices j),
        )
        refl
  | inr unknown ↦ rw unknown refl
]

get_elem?-none : {A : Type 0} (xs : List A) (i : ℕ) → get_elem? xs i ≡ none → length xs ≤ i
get_elem?-none [] i e = omega arith
get_elem?-none (x ∷ xs) zero e = cc
get_elem?-none (x ∷ xs) (suc i) e = omega (arith, get_elem?-none xs i e)

not_there :
    {A : Type 0} (xs : List A) {i : ℕ} (j : ℕ)
    → get_elem? xs j ≡ none
    → i < length xs
    → (j == i) ≡ false
not_there xs {i} j e l = ground (arith, get_elem?-none xs j e, l)

set_state-length :
    (s : State) (j v : ℕ) → length (a_lsm_set_state s j v).1.devices ≡ length s.devices
unfolding a_lsm_set_state set_lsm
set_state-length s j v = elim (Option-cases (get_elem? s.devices j)) [
  | inl missing ↦ rw missing refl
  | inr (d, e) ↦ rw e (length-set s.devices j (record d { lsm_s = v }))
]

event-length :
    (s : State) (j event : ℕ) → length (lsm_event_to_state s event j).1.devices ≡ length s.devices
unfolding lsm_event_to_state
event-length s j event = ground (
  arith,
  set_state-length s j loading,
  set_state-length s j loaded,
  set_state-length (call s (delete_group_rp_table ∷ delete_group_object_table ∷ [])) j unloaded,
)

-- The handler moves the state of the device it is for, if there is one, and of no other.
handler-lsm :
    (s : State) (i : ℕ) (p : Post)
    → i < length s.devices
    → a_lsm_state (a_lsm_post_handler s p.accepts p.device p.reps).1 i ≡ (
        if p.accepts && (p.device == i)
        then step (a_lsm_state s i) (requested_event p.reps)
        else a_lsm_state s i)
unfolding a_lsm_post_handler
handler-lsm s i p l = elim (Bool-cases p.accepts) [
  | inr rejects ↦ rw rejects refl
  | inl accepts ↦ elim (Option-cases (get_elem? s.devices p.device)) [
    | inl missing ↦ rw (accepts, missing, not_there s.devices p.device missing l) refl
    | inr (d, e) ↦
        rw (accepts, e)
          (post_event-lsm s i p.device (requested_event p.reps) d
            ∙ event-lsm s i p.device (requested_event p.reps) e)
  ]
]

post_event-length :
    (s : State) (j event : ℕ) (d : Device)
    → length (post_event s j (some d) event).1.devices ≡ length s.devices
unfolding post_event
post_event-length s j event d =
    let s' = (lsm_event_to_state s event j).1 in
    elim (Bool-cases (lsm_event_to_state s event j).0) [
      | inl known ↦
          rw (known, notify-devices s' j (get_elem? s'.devices j)) (event-length s j event)
      | inr unknown ↦ rw unknown (event-length s j event)
    ]

handler-length :
    (s : State) (p : Post)
    → length (a_lsm_post_handler s p.accepts p.device p.reps).1.devices ≡ length s.devices
unfolding a_lsm_post_handler post_event
handler-length s p = elim (Bool-cases p.accepts) [
  | inr rejects ↦ rw rejects refl
  | inl accepts ↦ elim (Option-cases (get_elem? s.devices p.device)) [
    | inl missing ↦ rw (accepts, missing) refl
    | inr (d, e) ↦ rw (accepts, e) (post_event-length s p.device (requested_event p.reps) d)
  ]
]

-- After any requests, the state of each device is that of the automaton that saw only the requests to
-- that device, and started in the device's state.
pub run-lsm_after :
    (s : State) (ps : List Post) (i : ℕ)
    → i < length s.devices
    → a_lsm_state (run s ps) i ≡ lsm_after i (a_lsm_state s i) ps
unfolding run lsm_after
run-lsm_after s [] i l = refl
run-lsm_after s (p ∷ ps) i l =
    run-lsm_after (a_lsm_post_handler s p.accepts p.device p.reps).1 ps i
      (subst (λ n. i < n) (sym (handler-length s p)) l)
    ∙ ap (λ lsm. lsm_after i lsm ps) (handler-lsm s i p l)

step-le : (lsm event : ℕ) → lsm ≤ 2 → step lsm event ≤ 2
unfolding step
step-le lsm event l = ground (arith, l)

lsm_after-le : (i : ℕ) (ps : List Post) (lsm : ℕ) → lsm ≤ 2 → lsm_after i lsm ps ≤ 2
unfolding lsm_after
lsm_after-le i [] lsm l = l
lsm_after-le i (p ∷ ps) lsm l =
    lsm_after-le i ps _ (ground (arith, l, step-le lsm (requested_event p.reps) l))

-- A device that is unloaded, loaded or loading stays in these states after any requests: none leads to
-- the state of unloading or of completing the load.
pub run-no_transient :
    (s : State) (ps : List Post) (i : ℕ)
    → i < length s.devices
    → a_lsm_state s i ≤ 2
    → a_lsm_state (run s ps) i ≤ 2
run-no_transient s ps i l b =
    subst (λ n. n ≤ 2) (sym (run-lsm_after s ps i l)) (lsm_after-le i ps (a_lsm_state s i) b)
