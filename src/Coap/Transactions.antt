-- ===== src/Coap/Transactions.antt =====
-- messaging/coap/transactions.c: the open CoAP transactions and their retransmission, of a build with
-- OC_SERVER, OC_CLIENT and OC_BLOCK_WISE and without OC_TCP and OC_SECURITY.
-- A transaction and a message are known by their addresses, which the allocators choose. The calls
-- into other components are recorded in order. Behind one of them, `oc_ri_free_client_cbs_by_mid`, the
-- application is notified, and may add or clear transactions: what it does to their list is an argument.
-- The functions behind the other calls do not use the list.
pub mod Table
pub mod Walk
mod Tests
pub mod Endpoints
pub mod Expiry
pub mod Schedule
use knx_iot_stack.Prelude.{
  ℕ, zero, suc, ◌+◌, ◌-◌, ◌*◌, ◌/◌, ◌%◌, ◌^◌, Option, none, some, Bool, true, false, not, ◌&&◌,
  List, [], ◌∷◌, ◌++◌, ltb, leb, ◌==◌, if◌then◌else◌, length, take, bit_and, bytes_eq,
}
use knx_iot_stack.Prelude.Keyed.{remove_at}
use knx_iot_stack.Endpoint.{Endpoint, endpoint_eq}

-- `coap_transaction_t`; `expired` is what `oc_etimer_expired` says of its timer, and `first_byte` is
-- the first byte of its message.
pub record Transaction : Type 0 where
  pub address : ℕ
  pub message : ℕ
  pub first_byte : ℕ
  pub endpoint : Endpoint
  pub mid : ℕ
  pub token : List ℕ
  pub token_len : ℕ
  pub retrans_counter : ℕ
  pub interval : ℕ
  pub expired : Bool

-- Calls into other components.
pub data Call : Type 0 where
  add_ref : ℕ → Call
  unref : ℕ → Call
  send_message : ℕ → Call
  remove_observer_by_client : Endpoint → Call
  free_client_cbs_by_mid : ℕ → Call
  scrub_buffers : Call

pub record State : Type 0 where
  pub transactions : List Transaction
  pub calls : List Call

-- `oc_main_initialized`, COAP_RESPONSE_TIMEOUT_TICKS, COAP_RESPONSE_TIMEOUT_BACKOFF_MASK and what
-- `oc_random_value` returns; and what the application does to the list of transactions when the client
-- callbacks of a message identifier are freed.
pub record Env : Type 0 where
  pub notify : ℕ → List Transaction → List Transaction
  pub initialized : Bool
  pub timeout_ticks : ℕ
  pub backoff_mask : ℕ
  pub random : ℕ

-- COAP_MAX_RETRANSMIT
abbrev pub max_retransmit : ℕ
max_retransmit = 4

abbrev pub call : State → Call → State
call s c = record s { calls = s.calls ++ c ∷ [] }

-- A call of `oc_ri_free_client_cbs_by_mid`.
abbrev pub free_cbs : Env → State → ℕ → State
free_cbs env s mid = record (call s (free_client_cbs_by_mid mid)) {
  transactions = env.notify mid s.transactions;
}

-- `oc_list_remove`
unfoldable pub remove : ℕ → List Transaction → List Transaction
unfolding remove_at
remove address ts = remove_at (λ t. t.address) address ts

-- The transaction at an address is given a new value.
unfoldable pub store : Transaction → List Transaction → List Transaction
store t' [] = []
store t' (t ∷ ts) = if t.address == t'.address then t' ∷ ts else t ∷ store t' ts

-- `coap_new_transaction`: `allocated` is a transaction and a message, as far as they can be allocated.
unfoldable pub new_transaction :
    State → Option ℕ × Option ℕ → ℕ → List ℕ → ℕ → Endpoint → Option Transaction × State
new_transaction s (none, message) mid token token_len endpoint = (none, s)
new_transaction s (some address, none) mid token token_len endpoint = (none, s)
new_transaction s (some address, some message) mid token token_len endpoint =
    let t : Transaction = record {
      address = address;
      message = message;
      first_byte = 0;
      endpoint = endpoint;
      mid = mid;
      token = take token_len token;
      token_len = token_len;
      retrans_counter = 0;
      interval = 0;
      expired = true;
    } in
    (some t, record s { transactions = s.transactions ++ t ∷ [] })

-- `coap_clear_transaction`. (One that the application has cleared already is freed twice, where the model
-- has the second call of `oc_message_unref` only.)
unfoldable pub clear_transaction : State → Transaction → State
unfolding remove
clear_transaction s t = record (call s (unref t.message)) {
  transactions = remove t.address s.transactions;
}

-- `COAP_TYPE_CON == ((COAP_HEADER_TYPE_MASK & first_byte) >> COAP_HEADER_TYPE_POSITION)`
unfoldable pub is_confirmable : Transaction → Bool
is_confirmable t = bit_and t.first_byte 0x30 / 2 ^ 4 == 0

-- The interval that the timer of a transaction is restarted with.
unfoldable pub next_interval : Env → Transaction → ℕ
next_interval env t =
    if t.retrans_counter == 0
    then env.timeout_ticks + env.random % env.backoff_mask
    else t.interval * 2 % 2 ^ 64

-- `coap_send_transaction`
unfoldable pub send_transaction : Env → State → Transaction → State
unfolding is_confirmable next_interval clear_transaction store
send_transaction env s t =
    if not env.initialized
    then s
    else if is_confirmable t
    then (if ltb t.retrans_counter max_retransmit
        then record (call (call s (add_ref t.message)) (send_message t.message)) {
          transactions =
              store (record t { interval = next_interval env t; expired = false }) s.transactions;
        }
        else clear_transaction
            (call (free_cbs env (call s (remove_observer_by_client t.endpoint)) t.mid)
              scrub_buffers)
            t)
    else clear_transaction (call (call s (add_ref t.message)) (send_message t.message)) t

-- The loops of `coap_get_transaction_by_mid` and `coap_get_transaction_by_token`.
unfoldable pub get_transaction : (Transaction → Bool) → List Transaction → Option Transaction
get_transaction test [] = none
get_transaction test (t ∷ ts) = if test t then some t else get_transaction test ts

unfoldable pub get_transaction_by_mid : State → ℕ → Option Transaction
unfolding get_transaction
get_transaction_by_mid s mid = get_transaction (λ t. t.mid == mid) s.transactions

unfoldable pub get_transaction_by_token : State → List ℕ → ℕ → Option Transaction
unfolding get_transaction
get_transaction_by_token s token token_len =
    get_transaction
      (λ t. (t.token_len == token_len) && bytes_eq (take token_len t.token) (take token_len token))
      s.transactions

-- The body of the loop of `coap_check_transactions` (`retrans_counter` is a `uint8_t`).
unfoldable pub check_one : Env → State → Transaction → State
unfolding send_transaction
check_one env s t =
    let t' = record t { retrans_counter = (t.retrans_counter + 1) % 256 } in
    if t.expired
    then send_transaction env (record s { transactions = store t' s.transactions }) t'
    else s

-- The transaction at an address, the address of the one that follows it, and that of the head.
unfoldable pub find_at : ℕ → List Transaction → Option Transaction
unfolding get_transaction
find_at address ts = get_transaction (λ t. t.address == address) ts

abbrev pub head_of : List Transaction → Option ℕ
head_of [] = none
head_of (t ∷ ts) = some t.address

unfoldable pub next_of : ℕ → List Transaction → Option ℕ
next_of address [] = none
next_of address (t ∷ ts) =
    let rest = next_of address ts in if t.address == address then head_of ts else rest

-- The loop at the transaction `at`: it starts again from the head of the list if more than one
-- transaction went away, and else goes on with the one that followed before the call. `none` is a
-- transaction that is read after it left the list, or the end of the fuel.
unfoldable pub check_loop : ℕ → Env → Option ℕ → State → Option State
unfolding check_one find_at next_of
check_loop zero env at s = none
check_loop (suc fuel) env none s = some s
check_loop (suc fuel) env (some address) s = elim (find_at address s.transactions) [
  | none ↦ none
  | some t ↦
      let s' = check_one env s t in
      check_loop fuel env
        (if ltb 1 (length s.transactions - length s'.transactions)
          then head_of s'.transactions
          else next_of address s.transactions)
        s'
]

-- `coap_check_transactions`
unfoldable pub check_transactions : ℕ → Env → State → Option State
unfolding check_loop
check_transactions fuel env s = check_loop fuel env (head_of s.transactions) s

-- the loop of `coap_free_all_transactions`
unfoldable pub free_all : List Transaction → State → State
unfolding clear_transaction
free_all [] s = s
free_all (t ∷ todo) s = free_all todo (clear_transaction s t)

-- `coap_free_all_transactions`
unfoldable pub free_all_transactions : State → State
unfolding free_all
free_all_transactions s = free_all s.transactions s

-- One round of the loop of `coap_free_transactions_by_endpoint`: where it goes on, and the state. It starts
-- again from the head of the list, and leaves the transaction, if one or more went away when its callbacks
-- were freed.
unfoldable pub free_one : Env → Endpoint → State → Transaction → Option ℕ × State
unfolding clear_transaction next_of
free_one env endpoint s t =
    let s' = free_cbs env s t.mid in
    let next = next_of t.address s.transactions in
    if not (endpoint_eq t.endpoint endpoint)
    then (next, s)
    else if ltb 0 (length s.transactions - length s'.transactions)
    then (head_of s'.transactions, s')
    else (next, clear_transaction s' t)

-- The loop, as that of `coap_check_transactions`.
unfoldable pub free_by_endpoint : ℕ → Env → Endpoint → Option ℕ → State → Option State
unfolding free_one find_at
free_by_endpoint zero env endpoint at s = none
free_by_endpoint (suc fuel) env endpoint none s = some s
free_by_endpoint (suc fuel) env endpoint (some address) s = elim (find_at address s.transactions) [
  | none ↦ none
  | some t ↦
      let step = free_one env endpoint s t in free_by_endpoint fuel env endpoint step.0 step.1
]

-- `coap_free_transactions_by_endpoint`
unfoldable pub free_transactions_by_endpoint : ℕ → Env → Endpoint → State → Option State
unfolding free_by_endpoint
free_transactions_by_endpoint fuel env endpoint s =
    free_by_endpoint fuel env endpoint (head_of s.transactions) s
