-- ===== src/Replay.antt =====
-- api/oc_replay.c, the replay records: one sliding window of received sequence numbers (SSN) for
-- each client, which is known by its KID and KID context.
-- The clock (`oc_clock_time`) and the replay window of the device (`oc_oscore_get_rplwdo`) are
-- arguments of the calls that read them.
pub mod Window
pub mod Store
pub mod Records
pub mod Messages
mod Tests
use knx_iot_stack.Prelude.{
  ℕ, ◌+◌, ◌-◌, ◌*◌, ◌%◌, ◌^◌, Option, none, some, Bool, true, false, not, ◌&&◌, ◌||◌, List, [], ◌∷◌,
  ltb, leb, ◌==◌, if◌then◌else◌, length, get_elem?, set, find_index, bytes_eq, bit_and, bit_or,
}

-- `struct oc_replay_record`
pub record ReplayRecord : Type 0 where
  pub rx_ssn : ℕ
  pub rx_kid : List ℕ
  pub rx_kid_ctx : List ℕ
  pub time : ℕ
  pub window : ℕ
  pub in_use : Bool

-- What a check answers. `undefined` is a shift by the width of its operand, or the negation of
-- the least `int64_t`, on which C puts no meaning.
pub data Verdict : Type 0 where
  accept reject undefined : Verdict

-- the record after `free_record`
abbrev pub freed : ReplayRecord
freed = record { rx_ssn = 0; rx_kid = []; rx_kid_ctx = []; time = 0; window = 0; in_use = false }

-- `free_record`: out of bounds nothing happens.
unfoldable pub free_record : List ReplayRecord → ℕ → List ReplayRecord
free_record recs i = set recs i freed

-- The loop over the records from index `i` on, with the oldest record so far.
unfoldable pub oldest_from : List ReplayRecord → ℕ → ℕ → ℕ → ℕ
oldest_from [] i best best_time = best
oldest_from (r ∷ rs) i best best_time =
    oldest_from rs (i + 1) (if ltb r.time best_time then i else best)
      (if ltb r.time best_time then r.time else best_time)

unfoldable pub oldest : List ReplayRecord → ℕ
unfolding oldest_from
oldest [] = 0
oldest (r ∷ rs) = oldest_from rs 1 0 r.time

-- `get_empty_record`: the index of the record, and the records.
unfoldable pub get_empty_record : List ReplayRecord → ℕ × List ReplayRecord
unfolding oldest free_record
get_empty_record recs = elim (find_index (λ r. not r.in_use) recs) [
  | some i ↦ (i, recs)
  | none ↦ (oldest recs, free_record recs (oldest recs))
]

-- the test in the loop of `get_record`
unfoldable pub matches : List ℕ → List ℕ → ReplayRecord → Bool
matches kid ctx r =
    r.in_use
    && bytes_eq kid r.rx_kid
    && ((length ctx == 0 && length r.rx_kid_ctx == 0) || bytes_eq ctx r.rx_kid_ctx)

unfoldable pub get_record : List ReplayRecord → List ℕ → List ℕ → Option ℕ
get_record recs kid ctx = if length kid == 0 then none else find_index (matches kid ctx) recs

-- `uint64_t` subtraction, whose result the code reads as an `int64_t`.
abbrev pub sub64 : ℕ → ℕ → ℕ
sub64 a b = (a + 2 ^ 64 - b) % 2 ^ 64

-- `1 << k` and `x << k` on `uint32_t`, for k < 32
abbrev pub shl32 : ℕ → ℕ → ℕ
shl32 x k = x * 2 ^ k % 2 ^ 32

-- An SSN at or below the recorded one: `ssn_diff` is not negative.
unfoldable pub check_old : ReplayRecord → ℕ → Verdict × ReplayRecord
check_old r diff =
    if ltb 32 diff
    then (reject, r)
    else if diff == 32
    then (undefined, r)
    else if not (bit_and r.window (shl32 1 diff) == 0)
    then (reject, r)
    else (accept, record r { window = bit_or r.window (shl32 1 diff) })

-- An SSN above the recorded one by `ahead`, which is `-ssn_diff`.
unfoldable pub check_new : ℕ → ReplayRecord → ℕ → ℕ → Verdict × ReplayRecord
check_new rplwdo r ssn ahead =
    if ahead == 2 ^ 63
    then (undefined, r)
    else if leb ahead rplwdo
    then (
      accept,
      record r {
        rx_ssn = ssn;
        window = bit_or (if leb 32 ahead then 0 else shl32 r.window ahead) 1;
      },
    )
    else (reject, r)

-- the part of `oc_replay_check_client` that follows the lookup
unfoldable pub check_record : ℕ → ℕ → ReplayRecord → ℕ → Verdict × ReplayRecord
unfolding check_old check_new
check_record now rplwdo r ssn =
    let diff = sub64 r.rx_ssn ssn in
    if ltb diff (2 ^ 63)
    then check_old (record r { time = now }) diff
    else check_new rplwdo (record r { time = now }) ssn (2 ^ 64 - diff)

-- `oc_replay_add_client`
unfoldable pub add_client : ℕ → List ReplayRecord → ℕ → List ℕ → List ℕ → List ReplayRecord
unfolding get_record get_empty_record
add_client now recs ssn kid ctx = elim (get_record recs kid ctx) [
  | some i ↦ elim (get_elem? recs i) [
    | some r ↦ set recs i (record r { rx_ssn = ssn; window = 1; time = now })
    | none ↦ recs
  ]
  | none ↦
      let (i, recs') = get_empty_record recs in
      set recs' i (record {
        rx_ssn = ssn;
        rx_kid = kid;
        rx_kid_ctx = ctx;
        time = now;
        window = 1;
        in_use = true;
      })
]

-- The build option `OC_TRUST_FIRST_MCAST`, the clock and the device's replay window.
pub record Env : Type 0 where
  pub trust_first_mcast : Bool
  pub now : ℕ
  pub rplwdo : ℕ

-- `oc_replay_check_client`
unfoldable pub check_client :
    Env → List ReplayRecord → ℕ → List ℕ → List ℕ → Bool → Verdict × List ReplayRecord
unfolding get_record check_record add_client
check_client env recs ssn kid ctx is_mcast = elim (get_record recs kid ctx) [
  | none ↦
      if env.trust_first_mcast && is_mcast
      then (accept, add_client env.now recs ssn kid ctx)
      else (reject, recs)
  | some i ↦ elim (get_elem? recs i) [
    | none ↦ (undefined, recs)
    | some r ↦ let (v, r') = check_record env.now env.rplwdo r ssn in (v, set recs i r')
  ]
]

-- `oc_replay_free_client`
unfoldable pub free_client : List ReplayRecord → List ℕ → List ReplayRecord
free_client [] kid = []
free_client (r ∷ rs) kid = (if bytes_eq kid r.rx_kid then freed else r) ∷ free_client rs kid
