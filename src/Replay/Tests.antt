-- ===== src/Replay/Tests.antt =====
-- Runs of the replay records, and the theorems at concrete tables.
use knx_iot_stack.Prelude.{ℕ, ◌≡◌, refl, arith, true, false, List, [], ◌∷◌, find_index, bytes_eq}
use knx_iot_stack.Replay.{
  ReplayRecord, accept, reject, undefined, Env, matches, check_record, check_client, add_client,
}
use knx_iot_stack.Replay.Window.{expected_verdict, check_record_verdict}
use knx_iot_stack.Replay.Store.{Check, check, run, AllDefined, Refused, no_replay}
use knx_iot_stack.Replay.Records.{Synchronised, add_client-Synchronised}
use knx_iot_stack.Replay.Messages.{
  Cache, free_msg_handler, find_msg_by_token, free_msg_handler-stale,
}

-- The example of the comment in `oc_replay_check_client`: SSN 8, window 1100 0011.
abbrev example : ReplayRecord
example = record {
  rx_ssn = 8;
  rx_kid = 1 ∷ [];
  rx_kid_ctx = [];
  time = 5;
  window = 0b1100_0011;
  in_use = true;
}

abbrev table : List ReplayRecord
table = record example { rx_kid = 2 ∷ [] } ∷ example ∷ []

example_rx_6 :
    (check_record 9 32 example 6 ≡ (accept, record example { time = 9; window = 0b1100_0111 }))
unfolding check_record
example_rx_6 = refl

example_rx_2 : (check_record 9 32 example 2).0 ≡ reject
unfolding check_record
example_rx_2 = refl

example_rx_9 :
    check_record 9 32 example 9
    ≡ (accept, record example { rx_ssn = 9; time = 9; window = 0b1_1000_0111 })
unfolding check_record
example_rx_9 = refl

-- At a distance of 32 the code shifts a 32-bit word by 32.
example_undefined : (check_record 9 32 (record example { rx_ssn = 40 }) 8).0 ≡ undefined
unfolding check_record
example_undefined = refl

check_record_verdict_example : (check_record 9 32 example 6).0 ≡ expected_verdict 32 example 6
check_record_verdict_example = check_record_verdict 9 32 example 6 (omega arith) (omega arith)

abbrev env : Env
env = record { trust_first_mcast = true; now = 9; rplwdo = 32 }

abbrev rx : ℕ → List ℕ → Check
rx ssn kid = record { env = env; ssn = ssn; kid = kid; kid_ctx = []; is_mcast = false }

no_replay_example :
    Refused
      (run (check table (rx 6 (1 ∷ []))).1 (rx 9 (1 ∷ []) ∷ rx 7 (2 ∷ []) ∷ []))
      (rx 6 (1 ∷ []))
unfolding check_client check_record matches bytes_eq find_index AllDefined
no_replay_example =
    no_replay table (rx 6 (1 ∷ [])) (rx 9 (1 ∷ []) ∷ rx 7 (2 ∷ []) ∷ []) (rx 6 (1 ∷ []))
      (omega arith) (refl, omega arith) ((refl, omega arith), ((refl, omega arith), tt))
      ((λ e. cc), ((λ e. cc), tt)) (refl, omega arith) refl refl refl refl

add_client-Synchronised_example :
    Synchronised table (add_client 9 table 4 (3 ∷ []) []) 4 (3 ∷ []) []
add_client-Synchronised_example =
    add_client-Synchronised table 9 4 (3 ∷ []) [] (omega arith) (omega arith)

-- Two messages are tracked, 11 and 12.
abbrev full_cache : Cache
full_cache = record {
  records =
      record { token_len = 1; token = 7 ∷ []; message = 11 }
      ∷ record { token_len = 1; token = 8 ∷ []; message = 12 }
      ∷ [];
  ref_count = λ m. 1;
  soft_ref = λ m. true;
  delayed = 12 ∷ 11 ∷ [];
  released = [];
}

abbrev half_cache : Cache
half_cache = record full_cache {
  records =
      record { token_len = 1; token = 7 ∷ []; message = 11 }
      ∷ record { token_len = 0; token = []; message = 0 }
      ∷ [];
}

-- The message that has just been given back is still found by its token.
stale : find_msg_by_token (free_msg_handler full_cache 12).records 1 (8 ∷ []) ≡ 12
unfolding find_msg_by_token free_msg_handler bytes_eq
stale = refl

free_msg_handler-stale_example :
    (find_msg_by_token (free_msg_handler full_cache 12).records 1 (8 ∷ []) ≡ 12)
    × ((free_msg_handler full_cache 12).released ≡ 12 ∷ full_cache.released)
unfolding find_msg_by_token bytes_eq
free_msg_handler-stale_example =
    free_msg_handler-stale full_cache (record { token_len = 1; token = 7 ∷ []; message = 11 })
      (record { token_len = 1; token = 8 ∷ []; message = 12 } ∷ []) 12 1 (8 ∷ []) (omega arith) refl
      refl refl
