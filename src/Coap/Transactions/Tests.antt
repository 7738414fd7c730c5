-- ===== src/Coap/Transactions/Tests.antt =====
-- A confirmable message among others, and the theorems at it.
use knx_iot_stack.Prelude.{ℕ, ◌≡◌, refl, arith, some, true, false, [], ◌∷◌, ◌++◌, bytes_eq}
use knx_iot_stack.Endpoint.{Endpoint, endpoint_eq}
use knx_iot_stack.Coap.Transactions.{
  Transaction, State, Env, is_confirmable, send_transaction, check_transactions,
  free_client_cbs_by_mid, find_at, get_transaction, free_transactions_by_endpoint,
}
use knx_iot_stack.Coap.Transactions.Walk.{
  LeavesAlone, state, check_each, check_transactions-check_each,
}
use knx_iot_stack.Coap.Transactions.Endpoints.{
  elsewhere, clear_calls, free_transactions_by_endpoint-elsewhere,
}
use knx_iot_stack.Coap.Transactions.Expiry.{given_up}
use knx_iot_stack.Coap.Transactions.Schedule.{timeouts, transmissions, timeouts-given_up}

abbrev peer : ℕ → Endpoint
peer n = record { flags = 8; device = 0; address = n ∷ []; port = 5683 }

-- A GET that is a confirmable request of version 1 with a token of two bytes.
abbrev get_request : Transaction
get_request = record {
  address = 100;
  message = 200;
  first_byte = 0x42;
  endpoint = peer 1;
  mid = 7;
  token = 5 ∷ 6 ∷ [];
  token_len = 2;
  retrans_counter = 0;
  interval = 0;
  expired = true;
}

abbrev other : Transaction
other = record get_request {
  address = 101;
  message = 201;
  endpoint = peer 2;
  mid = 8;
  token = 1 ∷ 2 ∷ [];
  expired = false;
}

abbrev env : Env
env = record {
  notify = λ mid ts. ts;
  initialized = true;
  timeout_ticks = 3000;
  backoff_mask = 1501;
  random = 1600;
}

abbrev both : State
both = state (other ∷ get_request ∷ []) []

alone : LeavesAlone env
alone mid ts = refl

check_transactions-check_each_example :
    check_transactions 3 env both ≡ some (check_each env (other ∷ get_request ∷ []) both)
check_transactions-check_each_example =
    check_transactions-check_each 3 env both alone ((omega arith, tt), (tt, tt)) (omega arith)

free_transactions_by_endpoint-elsewhere_example :
    free_transactions_by_endpoint 3 env (peer 1) both
    ≡ some (state (elsewhere (peer 1) both.transactions) (clear_calls (peer 1) both.transactions))
free_transactions_by_endpoint-elsewhere_example =
    free_transactions_by_endpoint-elsewhere 3 env (peer 1) both alone ((omega arith, tt), (tt, tt))
      (omega arith)

elsewhere-other : elsewhere (peer 1) both.transactions ≡ other ∷ []
unfolding elsewhere endpoint_eq bytes_eq
elsewhere-other = refl

timeouts-given_up_example :
    timeouts 3 4 env 100 (send_transaction env both get_request)
    ≡ some (state (other ∷ []) (transmissions 4 200 ++ given_up get_request))
unfolding is_confirmable
timeouts-given_up_example =
    timeouts-given_up 3 env (other ∷ []) [] get_request [] alone (refl, tt) tt
      ((omega arith, tt), (tt, tt)) (omega arith) refl refl refl (omega arith)

-- An application that clears all transactions when it is notified: the walk of one that follows would
-- read a freed transaction, and the loop starts again from the head instead.
abbrev clearing : Env
clearing = record env { notify = λ mid ts. [] }

abbrev two_here : State
two_here = state (get_request ∷ record other { endpoint = peer 1 } ∷ []) []

restarted :
    free_transactions_by_endpoint 3 clearing (peer 1) two_here
    ≡ some (state [] (free_client_cbs_by_mid 7 ∷ []))
unfolding free_transactions_by_endpoint find_at get_transaction endpoint_eq bytes_eq
restarted = refl
