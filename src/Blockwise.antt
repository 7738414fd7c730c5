-- ===== src/Blockwise.antt =====
-- api/oc_blockwise.c: buffers for payloads that are sent or received in blocks, of a build with
-- OC_CLIENT and OC_DYNAMIC_ALLOCATION. A buffer is known by its address, a number.
-- The address that an allocation returns, the storage behind it and random values are arguments.
pub mod Blocks
pub mod Transfer
pub mod Lists
pub mod Store
mod Tests
use knx_iot_stack.Prelude.{
  ℕ, zero, suc, ◌+◌, ◌-◌, ◌%◌, ◌/◌, ◌^◌, min, Option, none, some, Bool, true, false, not, ◌&&◌,
  ◌||◌, List, [], ◌∷◌, ◌++◌, ltb, leb, ◌==◌, if◌then◌else◌, length, take, drop, replicate, bytes_eq,
}
use knx_iot_stack.Prelude.Keyed.{remove_at}
use knx_iot_stack.Endpoint.{Endpoint, endpoint_eq}

pub data Role : Type 0 where
  client server : Role

-- `oc_method_t`
pub data Method : Type 0 where
  get post put delete fetch : Method

-- `oc_blockwise_state_t`, with the `etag` and `observe_seq` of a response; `observe_seq` is
-- `none` for the value -1.
pub record BlockState : Type 0 where
  pub address : ℕ
  pub href : List ℕ
  pub endpoint : Endpoint
  pub method : Method
  pub role : Role
  pub payload_size : ℕ
  pub next_block_offset : ℕ
  pub ref_count : ℕ
  pub buffer : List ℕ
  pub uri_query : List ℕ
  pub token : List ℕ
  pub token_len : ℕ
  pub mid : ℕ
  pub client_cb : ℕ
  pub etag : List ℕ
  pub observe_seq : Option ℕ

-- One of the two lists `oc_blockwise_requests` and `oc_blockwise_responses`, with the addresses that
-- have a timeout pending in `oc_ri`.
pub record Buffers : Type 0 where
  pub buffers : List BlockState
  pub timers : List ℕ

-- `OC_MAX_APP_DATA_SIZE`
abbrev pub max_app_data_size : ℕ
max_app_data_size = 2048

-- `COAP_ETAG_LEN`
abbrev pub etag_len : ℕ
etag_len = 8

-- `oc_blockwise_init_buffer`: `allocated` is the address and the storage, if both allocations
-- succeed.
unfoldable pub init_buffer :
    Option (ℕ × List ℕ) → List ℕ → Endpoint → Method → Role → Option BlockState
init_buffer allocated href endpoint method role =
    if length href == 0 then none else elim allocated [
      | none ↦ none
      | some (address, storage) ↦ some (record {
        address = address;
        href = href;
        endpoint = endpoint;
        method = method;
        role = role;
        payload_size = 0;
        next_block_offset = 0;
        ref_count = 1;
        buffer = storage;
        uri_query = [];
        token = [];
        token_len = 0;
        mid = 0;
        client_cb = 0;
        etag = replicate 8 0;
        observe_seq = some 0;
      })
    ]

-- `oc_list_remove`, by address
unfoldable pub list_remove : ℕ → List BlockState → List BlockState
unfolding remove_at
list_remove address bs = remove_at (λ b. b.address) address bs

-- `oc_ri_remove_timed_event_callback`
unfoldable pub remove_timer : ℕ → List ℕ → List ℕ
remove_timer address [] = []
remove_timer address (t ∷ ts) = if t == address then ts else t ∷ remove_timer address ts

-- `oc_blockwise_request_timeout`, `oc_blockwise_response_timeout`: `oc_blockwise_free_buffer`.
unfoldable pub free_buffer : Buffers → ℕ → Buffers
unfolding list_remove
free_buffer s address = record s { buffers = list_remove address s.buffers }

-- `oc_blockwise_free_request_buffer`, `oc_blockwise_free_response_buffer`
unfoldable pub free_timed_buffer : Buffers → ℕ → Buffers
unfolding free_buffer remove_timer
free_timed_buffer s address =
    free_buffer (record s { timers = remove_timer address s.timers }) address

-- `oc_blockwise_alloc_request_buffer`: the list, and the buffer or null.
unfoldable pub alloc_request_buffer :
    Buffers → Option (ℕ × List ℕ) → List ℕ → Endpoint → Method → Role → Buffers × Option BlockState
unfolding init_buffer
alloc_request_buffer s allocated href endpoint method role =
    elim (init_buffer allocated href endpoint method role) [
      | none ↦ (s, none)
      | some b ↦
          (record { buffers = s.buffers ++ b ∷ []; timers = s.timers ++ b.address ∷ [] }, some b)
    ]

-- the bytes of a random 32-bit value
abbrev pub random_bytes : ℕ → List ℕ
random_bytes r = r % 256 ∷ r / 256 % 256 ∷ r / 2 ^ 16 % 256 ∷ r / 2 ^ 24 % 256 ∷ []

-- The loop that fills the ETag, with `i` bytes to go: each `memcpy` is to the start of the ETag.
unfoldable pub fill_etag : List ℕ → ℕ → List ℕ → List ℕ
fill_etag [] i etag = etag
fill_etag (r ∷ rs) i etag =
    if ltb 0 i
    then fill_etag rs (i - 4) (take (min 4 i) (random_bytes r) ++ drop (min 4 i) etag)
    else etag

-- `oc_blockwise_alloc_response_buffer`, with the values that `oc_random_value` returns
unfoldable pub alloc_response_buffer :
    Buffers
    → Option (ℕ × List ℕ)
    → List ℕ
    → List ℕ
    → Endpoint
    → Method
    → Role
    → Buffers × Option BlockState
unfolding init_buffer fill_etag
alloc_response_buffer s allocated random href endpoint method role =
    elim (init_buffer allocated href endpoint method role) [
      | none ↦ (s, none)
      | some b ↦
          let b' = record b { etag = fill_etag random etag_len b.etag; observe_seq = none } in
          (record { buffers = s.buffers ++ b' ∷ []; timers = s.timers ++ b'.address ∷ [] }, some b')
    ]

-- The loops of the `scrub` functions over one list: each buffer that passes the test is freed.
unfoldable pub scrub : (BlockState → Bool) → List BlockState → Buffers → Buffers
unfolding free_timed_buffer
scrub test [] s = s
scrub test (b ∷ bs) s = scrub test bs (if test b then free_timed_buffer s b.address else s)

-- `oc_blockwise_scrub_buffers` on one of the two lists
unfoldable pub scrub_buffers : Bool → Buffers → Buffers
unfolding scrub
scrub_buffers all s = scrub (λ b. (b.ref_count == 0) || all) s.buffers s

-- `oc_blockwise_scrub_buffers_for_client_cb` on one of the two lists
unfoldable pub scrub_buffers_for_client_cb : ℕ → Buffers → Buffers
unfolding scrub
scrub_buffers_for_client_cb cb s = scrub (λ b. b.client_cb == cb) s.buffers s

abbrev is_client : Role → Bool
is_client client = true
is_client server = false

-- The loops of the `find` functions.
unfoldable pub find_buffer_by : (BlockState → Bool) → List BlockState → Option BlockState
find_buffer_by test [] = none
find_buffer_by test (b ∷ bs) = if test b then some b else find_buffer_by test bs

-- the test of `oc_blockwise_find_buffer_by_token`
unfoldable pub has_token : List ℕ → ℕ → BlockState → Bool
has_token token token_len b =
    ltb 0 token_len
    && (is_client b.role
        && ((b.token_len == token_len) && bytes_eq (take token_len b.token) (take token_len token)))

-- the test of `oc_blockwise_find_buffer_by_mid`
unfoldable pub has_mid : ℕ → BlockState → Bool
has_mid mid b = (b.mid == mid) && is_client b.role

-- the test of `oc_blockwise_find_buffer_by_client_cb`
unfoldable pub has_client_cb : Endpoint → ℕ → BlockState → Bool
has_client_cb endpoint client_cb b =
    is_client b.role && ((b.client_cb == client_cb) && endpoint_eq endpoint b.endpoint)

abbrev method_eq : Method → Method → Bool
method_eq get get = true
method_eq post post = true
method_eq put put = true
method_eq delete delete = true
method_eq fetch fetch = true
method_eq _ _ = false

abbrev role_eq : Role → Role → Bool
role_eq client client = true
role_eq server server = true
role_eq _ _ = false

-- `strncmp (a, b, n) == 0`, for strings that hold no null byte and end in one
abbrev pub strncmp_eq : List ℕ → List ℕ → ℕ → Bool
strncmp_eq a b n = bytes_eq (take n (a ++ 0 ∷ [])) (take n (b ++ 0 ∷ []))

-- the test of `oc_blockwise_find_buffer`
unfoldable pub has_request : List ℕ → Endpoint → Method → List ℕ → Role → BlockState → Bool
has_request href endpoint method query role b =
    strncmp_eq href b.href (length href)
    && (endpoint_eq b.endpoint endpoint
        && (method_eq b.method method
            && (role_eq b.role role
                && ((length query == length b.uri_query) && bytes_eq query b.uri_query))))

-- `oc_blockwise_dispatch_block`: `none` is the null pointer, else the offset of the block in the
-- buffer and its size.
unfoldable pub dispatch_block : BlockState → ℕ → ℕ → Option (ℕ × ℕ) × BlockState
dispatch_block b block_offset requested_block_size =
    if ltb block_offset b.payload_size
    then (let size =
          if ltb b.payload_size requested_block_size
          then b.payload_size
          else min requested_block_size (b.payload_size - block_offset) in
        (some (block_offset, size), record b { next_block_offset = block_offset + size }))
    else (none, b)

-- `memcpy` to an offset of a buffer
abbrev pub write_at : ℕ → List ℕ → List ℕ → List ℕ
write_at offset bytes buffer = take offset buffer ++ (bytes ++ drop (offset + length bytes) buffer)

-- `oc_blockwise_handle_block`
unfoldable pub handle_block : BlockState → ℕ → List ℕ → Bool × BlockState
handle_block b incoming_offset block =
    if leb max_app_data_size incoming_offset
      || (ltb (max_app_data_size - incoming_offset) (length block)
          || ltb b.next_block_offset incoming_offset)
    then (false, b)
    else if b.next_block_offset == incoming_offset
    then (
      true,
      record b {
        buffer = write_at b.next_block_offset block b.buffer;
        next_block_offset = b.next_block_offset + length block;
      },
    )
    else (true, b)
