-- ===== src/Coap/Transactions/Schedule.antt =====
-- The retransmission schedule of a confirmable message that nobody answers.
use knx_iot_stack.Prelude.{
  ℕ, zero, suc, ◌+◌, ◌*◌, ◌%◌, ◌^◌, ◌<◌, ◌≤◌, ◌≡◌, refl, arith, ◌∙◌, ap, Option, some, ◌>>=◌,
  length, true, false, List, [], ◌∷◌, ◌++◌, append_assoc,
}
use knx_iot_stack.Coap.Transactions.{
  Transaction, State, Env, Call, add_ref, send_message, is_confirmable, next_interval,
  send_transaction, check_transactions,
}
use knx_iot_stack.Coap.Transactions.Table.{Distinct}
use knx_iot_stack.Coap.Transactions.Walk.{LeavesAlone, state}
use knx_iot_stack.Coap.Transactions.Expiry.{
  Quiet, Distinct-Fresh, expire, waiting, given_up, send_transaction-resend, check_expired_resend,
  check_expired_give_up,
}

-- The timer expires `n` times, and each time the transactions are checked.
unfoldable pub timeouts : ℕ → ℕ → Env → ℕ → State → Option State
unfolding check_transactions expire
timeouts fuel zero env address s = some s
timeouts fuel (suc n) env address s = timeouts fuel n env address s >>= λ s'.
    check_transactions fuel env (record s' { transactions = expire address s'.transactions })

-- What is called for `k` transmissions of a message.
unfoldable pub transmissions : ℕ → ℕ → List Call
transmissions zero message = []
transmissions (suc k) message =
    transmissions k message ++ add_ref message ∷ send_message message ∷ []

once : (i : ℕ) → i ≡ i * 2 ^ 0
once i = omega arith

first_wait :
    (env : Env) (t : Transaction)
    → t.retrans_counter ≡ 0
    → record t { interval = next_interval env t; expired = false } ≡ waiting env t 0
unfolding next_interval
first_wait env t z = rw z (
    ap (λ v. record t { retrans_counter = 0; interval = v; expired = false })
      (once (env.timeout_ticks + env.random % env.backoff_mask)))

add_one-suc : (k : ℕ) → k + 1 ≡ suc k
add_one-suc k = omega arith

module _ (fuel : ℕ) (env : Env) (pre post : List Transaction) (t : Transaction) (cs : List Call)
    (n : LeavesAlone env) (q : Quiet pre) (r : Quiet post) (d : Distinct (pre ++ t ∷ post))
    (u : length pre + length post + 1 < fuel) (i : env.initialized ≡ true)
    (c : is_confirmable t ≡ true) (z : t.retrans_counter ≡ 0)
    (b : (env.timeout_ticks + env.random % env.backoff_mask) * 2 ^ 3 < 2 ^ 64) where
  abbrev after : ℕ → Option State
  after k = timeouts fuel k env t.address (send_transaction env (state (pre ++ t ∷ post) cs) t)

  expired_after : Option State → Option State
  expired_after o = o >>= λ s.
      check_transactions fuel env (record s { transactions = expire t.address s.transactions })

  -- After `k` timeouts, up to three, of a confirmable message that nobody answers, the message has been
  -- sent `k + 1` times, and its timer runs for the first interval times `2 ^ k`; the other transactions
  -- are left alone.
  pub timeouts-waiting :
      (k : ℕ)
      → k ≤ 3
      → timeouts fuel k env t.address (send_transaction env (state (pre ++ t ∷ post) cs) t)
        ≡ some (state (pre ++ waiting env t k ∷ post) (cs ++ transmissions (suc k) t.message))
  unfolding timeouts transmissions next_interval is_confirmable expired_after
  timeouts-waiting zero l = ap some (
      send_transaction-resend env pre post t t cs refl (Distinct-Fresh pre post t d) i c
        (ground (arith, z))
      ∙ ap (λ t'. state (pre ++ t' ∷ post) (cs ++ transmissions 1 t.message)) (first_wait env t z))
  timeouts-waiting (suc k) l =
      ap expired_after (timeouts-waiting k (omega (arith, l)))
      ∙ check_expired_resend fuel env pre post t (cs ++ transmissions (suc k) t.message) k n q r d u
          i c (omega (arith, l)) b
      ∙ ap some (
          ap (state (pre ++ waiting env t (k + 1) ∷ post))
            (append_assoc cs (transmissions (suc k) t.message) _)
          ∙ ap
              (λ j.
                state (pre ++ waiting env t j ∷ post) (cs ++ transmissions (suc (suc k)) t.message))
              (add_one-suc k))

  -- The fourth timeout of a confirmable message that nobody answers, whose retransmission count starts
  -- at zero, in an initialised device, removes its transaction, its observer, its callbacks and the
  -- buffers without a user; until then the message has been sent four times in all. The other
  -- transactions, whose timers do not expire, are left alone. All have different addresses, the
  -- application leaves their list alone when it is notified, and the largest interval fits in 64 bits;
  -- fuel above the number of transactions is enough.
  pub timeouts-given_up :
      timeouts fuel 4 env t.address (send_transaction env (state (pre ++ t ∷ post) cs) t)
      ≡ some (state (pre ++ post) ((cs ++ transmissions 4 t.message) ++ given_up t))
  unfolding timeouts transmissions expired_after
  timeouts-given_up =
      ap expired_after (timeouts-waiting 3 (omega arith))
      ∙ check_expired_give_up fuel env pre post t (cs ++ transmissions 4 t.message) n q r d u i c
