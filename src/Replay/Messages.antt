-- ===== src/Replay/Messages.antt =====
-- api/oc_replay.c, the cache of sent messages that may have to be sent again with an Echo option.
-- A message is known by its address, a number; 0 is the null pointer.
use knx_iot_stack.Prelude.{
  ℕ, zero, suc, ◌+◌, ◌-◌, ◌≡◌, ◌≢◌, refl, arith, Bool, true, ◌&&◌, Option, none, some, List, [],
  ◌∷◌, set, ◌==◌, leb, if◌then◌else◌, find_index, bytes_eq, bytes_eq_refl, take,
}

-- `struct oc_cached_message_record`
pub record MessageRecord : Type 0 where
  pub token_len : ℕ
  pub token : List ℕ
  pub message : ℕ

-- The table, the reference counts of the messages, the messages that carry
-- `oc_replay_message_unref` as their `soft_ref_cb`, those with a delayed
-- `oc_replay_free_msg_handler`, and those given back to their pool.
pub record Cache : Type 0 where
  pub records : List MessageRecord
  pub ref_count : ℕ → ℕ
  pub soft_ref : ℕ → Bool
  pub delayed : List ℕ
  pub released : List ℕ

abbrev pub update {ℓ} : {A : Type ℓ} → (ℕ → A) → ℕ → A → ℕ → A
update f k v m = if m == k then v else f m

-- the loop of `oc_replay_find_msg_by_token`
unfoldable pub find_msg_by_token : List MessageRecord → ℕ → List ℕ → ℕ
find_msg_by_token [] token_len token = 0
find_msg_by_token (r ∷ rs) token_len token =
    if r.message == 0
    then find_msg_by_token rs token_len token
    else if (r.token_len == token_len) && bytes_eq (take token_len token) (take token_len r.token)
    then r.message
    else find_msg_by_token rs token_len token

-- The loop of `find_record_by_msg` from index `i` on. Its test is an assignment, which writes `msg` into
-- the record, and is true if `msg` is not null.
unfoldable pub find_record_loop : ℕ → List MessageRecord → ℕ → Option ℕ × List MessageRecord
find_record_loop i [] msg = (none, [])
find_record_loop i (r ∷ rs) msg =
    let r' : MessageRecord = record r { message = msg } in
    let rest = find_record_loop (i + 1) rs msg in
    if r'.message == 0 then (rest.0, r' ∷ rest.1) else (some i, r' ∷ rs)

-- `find_record_by_msg`
unfoldable pub find_record_by_msg : List MessageRecord → ℕ → Option ℕ × List MessageRecord
unfolding find_record_loop
find_record_by_msg recs msg = if msg == 0 then (none, recs) else find_record_loop 0 recs msg

unfoldable pub find_empty_msg_record : List MessageRecord → Option ℕ
find_empty_msg_record recs = find_index (λ r. r.message == 0) recs

-- `oc_message_unref` (api/oc_buffer.c): the last reference gives the message back to its pool.
unfoldable pub message_unref : Cache → ℕ → Cache
message_unref c msg = if msg == 0 then c else record c {
  ref_count = update c.ref_count msg (c.ref_count msg - 1);
  released = if leb (c.ref_count msg) 1 then msg ∷ c.released else c.released;
}

abbrev pub cleared : MessageRecord → MessageRecord
cleared r = record r { token_len = 0; message = 0 }

abbrev pub modify {ℓ} : {A : Type ℓ} → (A → A) → List A → ℕ → List A
modify f [] i = []
modify f (x ∷ xs) zero = f x ∷ xs
modify f (x ∷ xs) (suc i) = x ∷ modify f xs i

-- `oc_replay_free_msg_handler`. The table has OC_MAX_MESSAGE_RECORDS entries, so a record is found
-- for each message but the null pointer.
unfoldable pub free_msg_handler : Cache → ℕ → Cache
unfolding find_record_by_msg message_unref
free_msg_handler c msg =
    let (found, recs) = find_record_by_msg c.records msg in
    if msg == 0
    then record c { records = recs }
    else message_unref
        (record c { records = elim found [ none ↦ recs | some i ↦ modify cleared recs i ] }) msg

-- `oc_remove_delayed_callback`
abbrev pub remove_delayed : ℕ → List ℕ → List ℕ
remove_delayed msg [] = []
remove_delayed msg (d ∷ ds) = if d == msg then ds else d ∷ remove_delayed msg ds

-- `oc_replay_message_unref`
unfoldable pub replay_message_unref : Cache → ℕ → Cache
unfolding free_msg_handler
replay_message_unref c msg =
    let c' = free_msg_handler c msg in record c' { delayed = remove_delayed msg c'.delayed }

abbrev tracked : ℕ → ℕ → List ℕ → MessageRecord
tracked msg token_len token = record {
  token_len = token_len;
  token = take token_len token;
  message = msg;
}

-- `oc_replay_message_track`
unfoldable pub message_track : Cache → ℕ → ℕ → List ℕ → Cache
unfolding find_empty_msg_record
message_track c msg token_len token = elim (find_empty_msg_record c.records) [
  | none ↦ c
  | some i ↦ record c {
    records = set c.records i (tracked msg token_len token);
    ref_count = update c.ref_count msg (c.ref_count msg + 1);
    soft_ref = update c.soft_ref msg true;
    delayed = msg ∷ c.delayed;
  }
]

take-take {ℓ} : {A : Type ℓ} (n : ℕ) (xs : List A) → take n (take n xs) ≡ take n xs
take-take zero xs = refl
take-take (suc n) [] = refl
take-take (suc n) (x ∷ xs) = rw (take-take n xs)

find-set :
    (recs : List MessageRecord) (msg n : ℕ) (token : List ℕ) (i : ℕ)
    → find_empty_msg_record recs ≡ some i
    → find_msg_by_token recs n token ≡ 0
    → find_msg_by_token (set recs i (tracked msg n token)) n token ≡ msg
unfolding find_empty_msg_record find_msg_by_token find_index
find-set [] msg n token i room fresh = cc
find-set (r ∷ rs) msg n token zero room fresh =
    ground (arith, take-take n token, bytes_eq_refl (take n token))
find-set (r ∷ rs) msg n token (suc i) room fresh = ground (arith, find-set rs msg n token i)

-- A tracked message can be found by its token, if there was room for it and no other record has a
-- message with that token.
pub find-track :
    (c : Cache) (msg token_len : ℕ) (token : List ℕ) (i : ℕ)
    → find_empty_msg_record c.records ≡ some i
    → find_msg_by_token c.records token_len token ≡ 0
    → find_msg_by_token (message_track c msg token_len token).records token_len token ≡ msg
unfolding message_track
find-track c msg token_len token i room fresh =
    rw (room, message_track) (find-set c.records msg token_len token i room fresh)

-- The handler frees another record than that of the message: when a message that no one else refers to is
-- found by its token among the records behind the first one, then the handler gives the message back to
-- its pool, and the message is found by its token as before.
pub free_msg_handler-stale :
    (c : Cache) (r : MessageRecord) (rs : List MessageRecord) (msg token_len : ℕ) (token : List ℕ)
    → msg ≢ 0
    → c.records ≡ r ∷ rs
    → find_msg_by_token rs token_len token ≡ msg
    → leb (c.ref_count msg) 1 ≡ true
    → (find_msg_by_token (free_msg_handler c msg).records token_len token ≡ msg)
      × ((free_msg_handler c msg).released ≡ msg ∷ c.released)
unfolding free_msg_handler find_msg_by_token
free_msg_handler-stale c r rs msg token_len token h e f one =
    rw (e, free_msg_handler) (ground (arith, h, f, one))
