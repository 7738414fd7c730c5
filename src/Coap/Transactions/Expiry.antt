-- ===== src/Coap/Transactions/Expiry.antt =====
-- What one timeout of a confirmable transaction does.
use knx_iot_stack.Prelude.{
  ℕ, zero, suc, ◌+◌, ◌*◌, ◌%◌, ◌^◌, ◌<◌, ◌≡◌, ◌≢◌, refl, arith, ◌∙◌, sym, ap, subst, some, length,
  length-append, true, false, List, [], ◌∷◌, ◌++◌, append_assoc, ltb, ◌==◌, if◌then◌else◌,
}
use knx_iot_stack.Coap.Transactions.{
  Transaction, State, Env, Call, add_ref, send_message, remove_observer_by_client,
  free_client_cbs_by_mid, scrub_buffers, unref, remove, is_confirmable, next_interval,
  clear_transaction, send_transaction, check_one, check_transactions,
}
use knx_iot_stack.Coap.Transactions.Table.{Fresh, Distinct}
use knx_iot_stack.Coap.Transactions.Walk.{
  LeavesAlone, state, remove-middle, store-middle, check_each, check_transactions-check_each,
}

-- No timer of these transactions has expired.
abbrev pub Quiet : List Transaction → Type 0
Quiet [] = Unit {0}
Quiet (t ∷ ts) = (t.expired ≡ false) × Quiet ts

-- The timer of the transaction at an address expires.
unfoldable pub expire : ℕ → List Transaction → List Transaction
expire address [] = []
expire address (t ∷ ts) =
    if t.address == address then record t { expired = true } ∷ ts else t ∷ expire address ts

-- The transaction after its `k`-th retransmission.
abbrev pub waiting : Env → Transaction → ℕ → Transaction
waiting env t k = record t {
  retrans_counter = k;
  interval = (env.timeout_ticks + env.random % env.backoff_mask) * 2 ^ k;
  expired = false;
}

-- What is called when a transaction is given up.
abbrev pub given_up : Transaction → List Call
given_up t =
    remove_observer_by_client t.endpoint
    ∷ free_client_cbs_by_mid t.mid
    ∷ scrub_buffers
    ∷ unref t.message
    ∷ []

expire-middle :
    (pre post : List Transaction) (t : Transaction)
    → Fresh t.address pre
    → expire t.address (pre ++ t ∷ post) ≡ pre ++ record t { expired = true } ∷ post
unfolding expire
expire-middle [] post t f = ground arith
expire-middle (x ∷ xs) post t f = ground (arith, expire-middle xs post t f.1)

check_each-append :
    (env : Env) (xs ys : List Transaction) (s : State)
    → check_each env (xs ++ ys) s ≡ check_each env ys (check_each env xs s)
unfolding check_each
check_each-append env [] ys s = refl
check_each-append env (x ∷ xs) ys s = check_each-append env xs ys (check_one env s x)

check_each-Quiet :
    (env : Env) (ts : List Transaction) (s : State) → Quiet ts → check_each env ts s ≡ s
unfolding check_each check_one
check_each-Quiet env [] s q = refl
check_each-Quiet env (t ∷ ts) s q = rw (q.0) (check_each-Quiet env ts s q.1)

-- Addresses stay different when a transaction changes.
Fresh-replace :
    (pre post : List Transaction) (t t' : Transaction) (a : ℕ)
    → t.address ≡ t'.address
    → Fresh a (pre ++ t ∷ post)
    → Fresh a (pre ++ t' ∷ post)
Fresh-replace [] post t t' a e f = (λ h. f.0 (e ∙ h), f.1)
Fresh-replace (x ∷ pre) post t t' a e f = (f.0, Fresh-replace pre post t t' a e f.1)

Distinct-replace :
    (pre post : List Transaction) (t t' : Transaction)
    → t.address ≡ t'.address
    → Distinct (pre ++ t ∷ post)
    → Distinct (pre ++ t' ∷ post)
Distinct-replace [] post t t' e d = (subst (λ a. Fresh a post) e d.0, d.1)
Distinct-replace (x ∷ pre) post t t' e d =
    (Fresh-replace pre post t t' x.address e d.0, Distinct-replace pre post t t' e d.1)

Fresh-at :
    (a : ℕ) (pre post : List Transaction) (t : Transaction)
    → Fresh a (pre ++ t ∷ post)
    → t.address ≢ a
Fresh-at a [] post t f = f.0
Fresh-at a (x ∷ pre) post t f = Fresh-at a pre post t f.1

pub Distinct-Fresh :
    (pre post : List Transaction) (t : Transaction)
    → Distinct (pre ++ t ∷ post)
    → Fresh t.address pre
Distinct-Fresh [] post t d = tt
Distinct-Fresh (x ∷ pre) post t d =
    (λ e. Fresh-at x.address pre post t d.0 (sym e), Distinct-Fresh pre post t d.1)

-- Among transactions whose timers run, only the one that expired is checked.
check_expired :
    (fuel : ℕ) (env : Env) (pre post : List Transaction) (t : Transaction) (cs : List Call)
    → LeavesAlone env
    → Quiet pre
    → Quiet post
    → Distinct (pre ++ t ∷ post)
    → length pre + length post + 1 < fuel
    → let ts = pre ++ record t { expired = true } ∷ post in
      check_transactions fuel env (state (expire t.address (pre ++ t ∷ post)) cs)
      ≡ some (check_one env (state ts cs) (record t { expired = true }))
unfolding check_each
check_expired fuel env pre post t cs n q r d l =
    rw (expire-middle pre post t (Distinct-Fresh pre post t d)) (
      check_transactions-check_each fuel env (state (pre ++ record t { expired = true } ∷ post) cs)
        n (Distinct-replace pre post t (record t { expired = true }) refl d)
        (omega (arith, l, length-append pre (record t { expired = true } ∷ post)))
      ∙ ap some (
          check_each-append env pre (record t { expired = true } ∷ post) _
          ∙ ap (check_each env (record t { expired = true } ∷ post)) (check_each-Quiet env pre _ q)
          ∙ check_each-Quiet env post _ r))

-- A confirmable transaction that may be sent again is sent, and its timer restarted.
pub send_transaction-resend :
    (env : Env) (pre post : List Transaction) (x t : Transaction) (cs : List Call)
    → x.address ≡ t.address
    → Fresh t.address pre
    → env.initialized ≡ true
    → is_confirmable t ≡ true
    → ltb t.retrans_counter 4 ≡ true
    → send_transaction env (state (pre ++ x ∷ post) cs) t
      ≡ state
          (pre ++ record t { interval = next_interval env t; expired = false } ∷ post)
          (cs ++ add_ref t.message ∷ send_message t.message ∷ [])
unfolding send_transaction
send_transaction-resend env pre post x t cs e f i c l =
    rw
      (
        i,
        c,
        l,
        store-middle pre post x (record t { interval = next_interval env t; expired = false }) e f,
      )
      (ap (state _) (append_assoc cs (add_ref t.message ∷ []) (send_message t.message ∷ [])))

suc_positive : (k : ℕ) → (k + 1 == 0) ≡ false
suc_positive k = ground arith

append_four :
    (cs : List Call) (a b c d : Call)
    → (((cs ++ a ∷ []) ++ b ∷ []) ++ c ∷ []) ++ d ∷ [] ≡ cs ++ a ∷ b ∷ c ∷ d ∷ []
append_four cs a b c d =
    append_assoc ((cs ++ a ∷ []) ++ b ∷ []) (c ∷ []) (d ∷ [])
    ∙ append_assoc (cs ++ a ∷ []) (b ∷ []) (c ∷ d ∷ [])
    ∙ append_assoc cs (a ∷ []) (b ∷ c ∷ d ∷ [])

next_counter : (k : ℕ) → k < 3 → (k + 1) % 256 ≡ k + 1
next_counter k l = omega arith

doubled : (i k : ℕ) → k < 3 → i * 2 ^ 3 < 2 ^ 64 → i * 2 ^ k * 2 % 2 ^ 64 ≡ i * 2 ^ (k + 1)
doubled i zero l b = omega arith
doubled i (suc zero) l b = omega arith
doubled i (suc (suc zero)) l b = omega arith
doubled i (suc (suc (suc k))) l b = omega arith

-- A confirmable transaction that was sent often enough is given up.
send_transaction-give_up :
    (env : Env) (pre post : List Transaction) (x t : Transaction) (cs : List Call)
    → LeavesAlone env
    → x.address ≡ t.address
    → Fresh t.address pre
    → env.initialized ≡ true
    → is_confirmable t ≡ true
    → ltb t.retrans_counter 4 ≡ false
    → send_transaction env (state (pre ++ x ∷ post) cs) t ≡ state (pre ++ post) (cs ++ given_up t)
unfolding send_transaction clear_transaction
send_transaction-give_up env pre post x t cs n e f i c l =
    rw
      (
        i,
        c,
        l,
        n t.mid (pre ++ x ∷ post),
        ap (λ a. remove a (pre ++ x ∷ post)) (sym e),
        remove-middle pre post x (subst (λ a. Fresh a pre) (sym e) f),
      )
      (ap (state (pre ++ post)) (append_four cs _ _ _ _))

-- The transaction that the check sends again after `k` retransmissions.
abbrev due : Env → Transaction → ℕ → Transaction
due env t k = record t {
  retrans_counter = k + 1;
  interval = (env.timeout_ticks + env.random % env.backoff_mask) * 2 ^ k;
  expired = true;
}

next_interval-due :
    (env : Env) (t : Transaction) (k : ℕ)
    → k < 3
    → (env.timeout_ticks + env.random % env.backoff_mask) * 2 ^ 3 < 2 ^ 64
    → next_interval env (due env t k)
      ≡ (env.timeout_ticks + env.random % env.backoff_mask) * 2 ^ (k + 1)
unfolding next_interval
next_interval-due env t k l b =
    rw (suc_positive k) (doubled (env.timeout_ticks + env.random % env.backoff_mask) k l b)

pub check_expired_resend :
    (fuel : ℕ) (env : Env) (pre post : List Transaction) (t : Transaction) (cs : List Call) (k : ℕ)
    → LeavesAlone env
    → Quiet pre
    → Quiet post
    → Distinct (pre ++ t ∷ post)
    → length pre + length post + 1 < fuel
    → env.initialized ≡ true
    → is_confirmable t ≡ true
    → k < 3
    → (env.timeout_ticks + env.random % env.backoff_mask) * 2 ^ 3 < 2 ^ 64
    → check_transactions fuel env (state (expire t.address (pre ++ waiting env t k ∷ post)) cs)
      ≡ some (
          state
            (pre ++ waiting env t (k + 1) ∷ post)
            (cs ++ add_ref t.message ∷ send_message t.message ∷ []))
unfolding check_one is_confirmable
check_expired_resend fuel env pre post t cs k n q r d u i c l b =
    let f = Distinct-Fresh pre post t d in
    check_expired fuel env pre post (waiting env t k) cs n q r
      (Distinct-replace pre post t (waiting env t k) refl d) u
    ∙ ap some (
        rw
          (
            next_counter k l,
            store-middle pre post (record (waiting env t k) { expired = true }) (due env t k) refl
                f,
          )
          (send_transaction-resend env pre post (due env t k) (due env t k) cs refl f i c
              (ground (arith, l))
            ∙ ap
                (λ v.
                  state (pre ++ record (due env t k) { interval = v; expired = false } ∷ post)
                    (cs ++ add_ref t.message ∷ send_message t.message ∷ []))
                (next_interval-due env t k l b)))

pub check_expired_give_up :
    (fuel : ℕ) (env : Env) (pre post : List Transaction) (t : Transaction) (cs : List Call)
    → LeavesAlone env
    → Quiet pre
    → Quiet post
    → Distinct (pre ++ t ∷ post)
    → length pre + length post + 1 < fuel
    → env.initialized ≡ true
    → is_confirmable t ≡ true
    → check_transactions fuel env (state (expire t.address (pre ++ waiting env t 3 ∷ post)) cs)
      ≡ some (state (pre ++ post) (cs ++ given_up t))
unfolding check_one is_confirmable
check_expired_give_up fuel env pre post t cs n q r d u i c =
    let f = Distinct-Fresh pre post t d in
    check_expired fuel env pre post (waiting env t 3) cs n q r
      (Distinct-replace pre post t (waiting env t 3) refl d) u
    ∙ ap some (
        rw
          (store-middle pre post (record (waiting env t 3) { expired = true }) (due env t 3) refl f)
          (send_transaction-give_up env pre post (due env t 3) (due env t 3) cs n refl f i c refl))
