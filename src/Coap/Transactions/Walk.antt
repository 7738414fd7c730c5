-- ===== src/Coap/Transactions/Walk.antt =====
-- The walks over the open transactions, where the application leaves their list alone.
use knx_iot_stack.Prelude.{
  ℕ, zero, suc, ◌+◌, ◌-◌, ◌%◌, ◌<◌, ◌≤◌, ◌≡◌, refl, arith, ◌∙◌, sym, ap, subst, some, false, List,
  [], ◌∷◌, ◌++◌, append_assoc, ltb, length, length-append, if_true, if_false, Bool-cases, inl, inr,
}
use knx_iot_stack.Prelude.Keyed as Keyed
use knx_iot_stack.Prelude.Keyed.{Apart-nil, Apart-snoc, remove_at-middle}
use knx_iot_stack.Coap.Transactions.{
  Transaction, State, Env, Call, remove, store, clear_transaction, is_confirmable, next_interval,
  send_transaction, check_one, find_at, head_of, next_of, check_loop, check_transactions,
  get_transaction,
}
use knx_iot_stack.Coap.Transactions.Table.{Fresh, Distinct}

-- The application leaves the list of transactions alone when it is notified.
abbrev pub LeavesAlone : Env → Type 0
LeavesAlone env = (mid : ℕ) (ts : List Transaction) → env.notify mid ts ≡ ts

abbrev pub Apart : List Transaction → List Transaction → Type 0
Apart pre ts = Keyed.Apart (λ t. t.address) pre ts

abbrev pub state : List Transaction → List Call → State
state ts cs = record { transactions = ts; calls = cs }

pub remove-middle :
    (pre ts : List Transaction) (t : Transaction)
    → Fresh t.address pre
    → remove t.address (pre ++ t ∷ ts) ≡ pre ++ ts
unfolding remove
remove-middle pre ts t f = remove_at-middle (λ t. t.address) pre ts t f

pub store-middle :
    (pre post : List Transaction) (t t' : Transaction)
    → t.address ≡ t'.address
    → Fresh t'.address pre
    → store t' (pre ++ t ∷ post) ≡ pre ++ t' ∷ post
unfolding store
store-middle [] post t t' e f = ground arith
store-middle (x ∷ xs) post t t' e f = ground (arith, store-middle xs post t t' e f.1)

pub find_at-middle :
    (pre post : List Transaction) (t : Transaction)
    → Fresh t.address pre
    → find_at t.address (pre ++ t ∷ post) ≡ some t
unfolding find_at get_transaction
find_at-middle [] post t f = ground arith
find_at-middle (x ∷ xs) post t f = ground (arith, find_at-middle xs post t f.1)

pub next_of-middle :
    (pre post : List Transaction) (t : Transaction)
    → Fresh t.address pre
    → next_of t.address (pre ++ t ∷ post) ≡ head_of post
unfolding next_of
next_of-middle [] post t f = ground arith
next_of-middle (x ∷ xs) post t f = ground (arith, next_of-middle xs post t f.1)

-- Every transaction of the list is checked once, in order.
unfoldable pub check_each : Env → List Transaction → State → State
check_each env [] s = s
check_each env (t ∷ todo) s = check_each env todo (check_one env s t)

-- What a check of the first of the transactions that follow leaves: they, and what is before them.
abbrev Leaves : List Transaction → List Transaction → State → Type 0
Leaves pre todo s =
    (pre' : List Transaction) × (cs : List Call) × (s ≡ state (pre' ++ todo) cs)
    × Apart pre' todo
    × (length pre ≤ length pre')

keeps :
    (pre todo : List Transaction) (t t' : Transaction) (cs : List Call)
    → t'.address ≡ t.address
    → Apart pre (t ∷ todo)
    → Distinct (t ∷ todo)
    → Leaves pre todo (state (pre ++ t' ∷ todo) cs)
keeps pre todo t t' cs e a d = (
  pre ++ t' ∷ [],
  cs,
  ap (λ ts. state ts cs) (sym (append_assoc pre (t' ∷ []) todo)),
  Apart-snoc (λ t. t.address) pre todo t' a.1 (subst (λ k. Fresh k todo) (sym e) d.0),
  omega (arith, length-append pre (t' ∷ [])),
)

removes :
    (pre todo : List Transaction) (t t' : Transaction) (cs : List Call)
    → t'.address ≡ t.address
    → Apart pre (t ∷ todo)
    → Leaves pre todo (state (remove t.address (pre ++ t' ∷ todo)) cs)
removes pre todo t t' cs e a = (
  pre,
  cs,
  ap (λ ts. state ts cs)
      (ap (λ k. remove k (pre ++ t' ∷ todo)) (sym e)
        ∙ remove-middle pre todo t' (subst (λ k. Fresh k pre) (sym e) a.0)),
  a.1,
  omega arith,
)

-- A transaction that is sent stays on the list or leaves it.
send_transaction-Leaves :
    (env : Env) (pre todo : List Transaction) (x t : Transaction) (cs : List Call)
    → LeavesAlone env
    → x.address ≡ t.address
    → Apart pre (t ∷ todo)
    → Distinct (t ∷ todo)
    → Leaves pre todo (send_transaction env (state (pre ++ x ∷ todo) cs) t)
unfolding send_transaction clear_transaction
send_transaction-Leaves env pre todo x t cs n e a d = elim (Bool-cases env.initialized) [
  | inr off ↦ rw off (keeps pre todo t x cs e a d)
  | inl on ↦ elim (Bool-cases (is_confirmable t)) [
    | inr non ↦ rw (on, non) (removes pre todo t x _ e a)
    | inl con ↦ elim (Bool-cases (ltb t.retrans_counter 4)) [
      | inl more ↦
          let t' = record t { interval = next_interval env t; expired = false } in
          rw (on, con, more, store-middle pre todo x t' e a.0) (keeps pre todo t t' _ refl a d)
      | inr last ↦ rw (on, con, last, n t.mid (pre ++ x ∷ todo)) (removes pre todo t x _ e a)
    ]
  ]
]

check_one-Leaves :
    (env : Env) (pre todo : List Transaction) (t : Transaction) (cs : List Call)
    → LeavesAlone env
    → Apart pre (t ∷ todo)
    → Distinct (t ∷ todo)
    → Leaves pre todo (check_one env (state (pre ++ t ∷ todo) cs) t)
unfolding check_one
check_one-Leaves env pre todo t cs n a d = elim (Bool-cases t.expired) [
  | inr off ↦
      let t' = record t { retrans_counter = (t.retrans_counter + 1) % 256 } in
      subst (Leaves pre todo)
        (sym (
          if_false t.expired (send_transaction env (state (store t' (pre ++ t ∷ todo)) cs) t')
            (state (pre ++ t ∷ todo) cs) off))
        (keeps pre todo t t cs refl a d)
  | inl on ↦
      let t' = record t { retrans_counter = (t.retrans_counter + 1) % 256 } in
      subst (Leaves pre todo)
        (sym (
          if_true t.expired (send_transaction env (state (store t' (pre ++ t ∷ todo)) cs) t')
            (state (pre ++ t ∷ todo) cs) on))
        (subst (λ ts. Leaves pre todo (send_transaction env (state ts cs) t'))
          (sym (store-middle pre todo t t' refl a.0))
          (send_transaction-Leaves env pre todo t' t' cs n refl a d))
]

no_restart :
    (pre pre' todo : List Transaction) (t : Transaction)
    → length pre ≤ length pre'
    → ltb 1 (length (pre ++ t ∷ todo) - length (pre' ++ todo)) ≡ false
no_restart pre pre' todo t l = ground (arith, length-append pre (t ∷ todo), length-append pre' todo)

check_loop-check_each :
    (fuel : ℕ) (env : Env) (pre todo : List Transaction) (cs : List Call)
    → LeavesAlone env
    → Apart pre todo
    → Distinct todo
    → length todo < fuel
    → check_loop fuel env (head_of todo) (state (pre ++ todo) cs)
      ≡ some (check_each env todo (state (pre ++ todo) cs))
unfolding check_loop check_each
check_loop-check_each zero env pre todo cs n a d l = absurd (omega (arith, l))
check_loop-check_each (suc fuel) env pre [] cs n a d l = refl
check_loop-check_each (suc fuel) env pre (t ∷ todo) cs n a d l =
    let (pre', cs', e, a', k) = check_one-Leaves env pre todo t cs n a d in
    rw
      (
        find_at-middle pre todo t a.0,
        check_loop,
        e,
        no_restart pre pre' todo t k,
        next_of-middle pre todo t a.0,
      )
      (check_loop-check_each fuel env pre' todo cs' n a' d.1 (omega (arith, l)))

-- Where the application leaves the list of transactions alone when it is notified, the check never starts
-- again from the head of the list and reads no transaction that has left it: it checks each transaction
-- that was open at its start once, in the order of the list. The transactions have different addresses;
-- one unit of fuel more than there are transactions is enough.
pub check_transactions-check_each :
    (fuel : ℕ) (env : Env) (s : State)
    → LeavesAlone env
    → Distinct s.transactions
    → length s.transactions < fuel
    → check_transactions fuel env s ≡ some (check_each env s.transactions s)
unfolding check_transactions
check_transactions-check_each fuel env s n d l =
    check_loop-check_each fuel env [] s.transactions s.calls n
      (Apart-nil (λ t. t.address) s.transactions) d l
