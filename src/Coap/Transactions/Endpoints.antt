-- ===== src/Coap/Transactions/Endpoints.antt =====
-- Freeing the transactions of one endpoint.
use knx_iot_stack.Prelude.{
  ℕ, zero, suc, ◌-◌, ◌<◌, ◌≡◌, ◌∙◌, refl, sym, ap, arith, some, true, false, List, [], ◌∷◌, ◌++◌,
  append_assoc, append-nil, ltb, length, if◌then◌else◌, Bool-cases, inl, inr,
}
use knx_iot_stack.Prelude.Keyed.{Apart-nil, Apart-snoc}
use knx_iot_stack.Endpoint.{Endpoint, endpoint_eq}
use knx_iot_stack.Coap.Transactions.{
  Transaction, State, Env, Call, unref, free_client_cbs_by_mid, clear_transaction, head_of,
  free_one, free_by_endpoint, free_transactions_by_endpoint,
}
use knx_iot_stack.Coap.Transactions.Table.{Fresh, Distinct}
use knx_iot_stack.Coap.Transactions.Walk.{
  LeavesAlone, Apart, state, remove-middle, find_at-middle, next_of-middle,
}

-- The transactions with other endpoints.
unfoldable pub elsewhere : Endpoint → List Transaction → List Transaction
elsewhere endpoint [] = []
elsewhere endpoint (t ∷ ts) =
    if endpoint_eq t.endpoint endpoint then elsewhere endpoint ts else t ∷ elsewhere endpoint ts

-- What is called for the transactions with an endpoint.
unfoldable pub clear_calls : Endpoint → List Transaction → List Call
clear_calls endpoint [] = []
clear_calls endpoint (t ∷ ts) =
    if endpoint_eq t.endpoint endpoint
    then free_client_cbs_by_mid t.mid ∷ unref t.message ∷ clear_calls endpoint ts
    else clear_calls endpoint ts

snoc_snoc :
    (cs : List Call) (c d : Call) (ds : List Call)
    → ((cs ++ c ∷ []) ++ d ∷ []) ++ ds ≡ cs ++ c ∷ d ∷ ds
snoc_snoc cs c d ds = append_assoc (cs ++ c ∷ []) (d ∷ []) ds ∙ append_assoc cs (c ∷ []) (d ∷ ds)

free_one-here :
    (env : Env) (endpoint : Endpoint) (pre ts : List Transaction) (t : Transaction) (cs : List Call)
    → LeavesAlone env
    → endpoint_eq t.endpoint endpoint ≡ true
    → Fresh t.address pre
    → free_one env endpoint (state (pre ++ t ∷ ts) cs) t ≡ (
      head_of ts,
      state (pre ++ ts) ((cs ++ free_client_cbs_by_mid t.mid ∷ []) ++ unref t.message ∷ []),
    )
unfolding free_one clear_transaction
free_one-here env endpoint pre ts t cs n here f =
    let same : ltb 0 (length (pre ++ t ∷ ts) - length (pre ++ t ∷ ts)) ≡ false = ground arith in
    rw (n t.mid (pre ++ t ∷ ts), here, same, next_of-middle pre ts t f, remove-middle pre ts t f)
      refl

free_one-away :
    (env : Env) (endpoint : Endpoint) (pre ts : List Transaction) (t : Transaction) (cs : List Call)
    → endpoint_eq t.endpoint endpoint ≡ false
    → Fresh t.address pre
    → free_one env endpoint (state (pre ++ t ∷ ts) cs) t ≡ (head_of ts, state (pre ++ t ∷ ts) cs)
unfolding free_one
free_one-away env endpoint pre ts t cs away f = rw (away, next_of-middle pre ts t f) refl

free_by_endpoint-elsewhere :
    (fuel : ℕ) (env : Env) (endpoint : Endpoint) (pre ts : List Transaction) (cs : List Call)
    → LeavesAlone env
    → Apart pre ts
    → Distinct ts
    → length ts < fuel
    → free_by_endpoint fuel env endpoint (head_of ts) (state (pre ++ ts) cs)
      ≡ some (state (pre ++ elsewhere endpoint ts) (cs ++ clear_calls endpoint ts))
unfolding free_by_endpoint elsewhere clear_calls
free_by_endpoint-elsewhere zero env endpoint pre ts cs n a d l = absurd (omega (arith, l))
free_by_endpoint-elsewhere (suc fuel) env endpoint pre [] cs n a d l =
    ap (λ c. some (state (pre ++ []) c)) (sym (append-nil cs))
free_by_endpoint-elsewhere (suc fuel) env endpoint pre (t ∷ ts) cs n a d l =
    elim (Bool-cases (endpoint_eq t.endpoint endpoint)) [
      | inl here ↦
          rw
            (
              find_at-middle pre ts t a.0,
              free_by_endpoint,
              free_one-here env endpoint pre ts t cs n here a.0,
              here,
            )
            (free_by_endpoint-elsewhere fuel env endpoint pre ts
                ((cs ++ free_client_cbs_by_mid t.mid ∷ []) ++ unref t.message ∷ []) n a.1 d.1
                (omega (arith, l))
              ∙ ap (λ c. some (state (pre ++ elsewhere endpoint ts) c)) (snoc_snoc cs _ _ _))
      | inr away ↦
          rw
            (
              find_at-middle pre ts t a.0,
              free_by_endpoint,
              free_one-away env endpoint pre ts t cs away a.0,
              away,
              sym (append_assoc pre (t ∷ []) ts),
            )
            (free_by_endpoint-elsewhere fuel env endpoint (pre ++ t ∷ []) ts cs n
                (Apart-snoc (λ t. t.address) pre ts t a.1 d.0) d.1 (omega (arith, l))
              ∙ ap (λ ts'. some (state ts' (cs ++ clear_calls endpoint ts)))
                  (append_assoc pre (t ∷ []) (elsewhere endpoint ts)))
    ]

-- Where the application leaves the list of transactions alone when it is notified, freeing the
-- transactions of an endpoint, with different addresses, leaves exactly those with other endpoints in
-- their order; of each that goes, the client callbacks and then the message are freed. One unit of fuel
-- more than there are transactions is enough.
pub free_transactions_by_endpoint-elsewhere :
    (fuel : ℕ) (env : Env) (endpoint : Endpoint) (s : State)
    → LeavesAlone env
    → Distinct s.transactions
    → length s.transactions < fuel
    → free_transactions_by_endpoint fuel env endpoint s
      ≡ some (record {
        transactions = elsewhere endpoint s.transactions;
        calls = s.calls ++ clear_calls endpoint s.transactions;
      })
unfolding free_transactions_by_endpoint
free_transactions_by_endpoint-elsewhere fuel env endpoint s n d l =
    free_by_endpoint-elsewhere fuel env endpoint [] s.transactions s.calls n
      (Apart-nil (λ t. t.address) s.transactions) d l
