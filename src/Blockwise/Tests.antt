-- ===== src/Blockwise/Tests.antt =====
-- Runs of the block-wise buffers, and the theorems at concrete buffers.
use knx_iot_stack.Prelude.{
  ℕ, ◌+◌, ◌<◌, ◌≡◌, ◌⊎◌, ◌↔◌, ◌≤◌, refl, arith, true, some, none, [], ◌∷◌, ◌++◌, length, replicate,
  length-replicate, bytes_eq,
}
use knx_iot_stack.Endpoint.{Endpoint, endpoint_eq}
use knx_iot_stack.Blockwise.{
  BlockState, Buffers, get, server, max_app_data_size, dispatch_block, handle_block, random_bytes,
  alloc_response_buffer, has_request,
}
use knx_iot_stack.Blockwise.Blocks.{
  IsValid, contents, receive, handle_block-IsValid, handle_block-receive, dispatch_block-within,
}
use knx_iot_stack.Blockwise.Transfer.{exchange, exchange_complete}
use knx_iot_stack.Prelude.{none}
use knx_iot_stack.Blockwise.Lists.{alloc_response_buffer-etag, has_request-prefix}

abbrev peer : Endpoint
peer = record { flags = 8; device = 0; address = replicate 16 1; port = 5683 }

abbrev fresh : BlockState
fresh = record {
  address = 1;
  href = b'p' ∷ [];
  endpoint = peer;
  method = get;
  role = server;
  payload_size = 0;
  next_block_offset = 0;
  ref_count = 1;
  buffer = replicate 2048 0;
  uri_query = [];
  token = [];
  token_len = 0;
  mid = 0;
  client_cb = 0;
  etag = replicate 8 0;
  observe_seq = none;
}

fresh-IsValid : IsValid fresh
fresh-IsValid = record { size = length-replicate {A = ℕ} 2048 0; within = omega arith }

-- A payload of five bytes to send.
abbrev loaded : BlockState
loaded = record fresh { payload_size = 5; buffer = 1 ∷ 2 ∷ 3 ∷ 4 ∷ 5 ∷ replicate 2043 0 }

loaded-IsValid : IsValid loaded
loaded-IsValid = record { size = five_more (length-replicate {A = ℕ} 2043 0); within = omega arith }
  where
    five_more : length (replicate {A = ℕ} 2043 0) ≡ 2043 → length loaded.buffer ≡ max_app_data_size
    five_more e = omega (arith, e)

abbrev released : Buffers
released = record {
  buffers = record fresh { ref_count = 0 } ∷ record fresh { address = 2; client_cb = 9 } ∷ [];
  timers = 1 ∷ 2 ∷ [];
}

handle_block-IsValid_example : IsValid (handle_block fresh 0 (7 ∷ 8 ∷ [])).1
handle_block-IsValid_example = handle_block-IsValid fresh 0 (7 ∷ 8 ∷ []) fresh-IsValid

handle_block-receive_example :
    let (ok, b') = handle_block fresh 0 (7 ∷ 8 ∷ []) in
    (ok, contents b') ≡ receive [] 0 (7 ∷ 8 ∷ [])
handle_block-receive_example = handle_block-receive fresh 0 (7 ∷ 8 ∷ []) fresh-IsValid

-- Sixteen bytes are asked for at offset 3 of a payload of five bytes: five are sent.
overrun : (dispatch_block loaded 3 16).0 ≡ some (3, 5)
unfolding dispatch_block
overrun = refl

abbrev offset_three : ℕ
offset_three = 3

dispatch_block-within_example :
    ((dispatch_block loaded 3 16).0 ≡ none) × (loaded.payload_size ≤ 3)
    ⊎ ((n : ℕ) × ((dispatch_block loaded 3 16).0 ≡ some (3, n))
        × (3 < loaded.payload_size)
        × (n ≤ 16)
        × ((3 + n ≤ loaded.payload_size) ↔ ((offset_three ≡ 0) ⊎ (16 ≤ loaded.payload_size))))
dispatch_block-within_example = dispatch_block-within loaded 3 16

exchange_complete_example :
    (r : BlockState) × (exchange 6 2 loaded fresh ≡ some r)
    × (contents r ≡ 1 ∷ 2 ∷ 3 ∷ 4 ∷ 5 ∷ [])
    × IsValid r
exchange_complete_example =
    exchange_complete 2 loaded fresh (omega arith) loaded-IsValid fresh-IsValid refl refl
      (omega arith)

abbrev response : BlockState
response = record fresh { address = 3; buffer = []; etag = 5 ∷ 6 ∷ 7 ∷ 8 ∷ 0 ∷ 0 ∷ 0 ∷ 0 ∷ [] }

alloc_response_buffer-etag_example : response.etag ≡ random_bytes 0x0807_0605 ++ replicate 4 0
unfolding alloc_response_buffer
alloc_response_buffer-etag_example =
    alloc_response_buffer-etag released 3 [] (b'p' ∷ []) 1 0x0807_0605 9 peer get server
      {b = response} refl

has_request-prefix_example :
    has_request (b'p' ∷ []) peer get [] server (record fresh { href = b'p' ∷ b'/' ∷ b'1' ∷ [] })
    ≡ true
unfolding has_request endpoint_eq bytes_eq
has_request-prefix_example =
    has_request-prefix (b'p' ∷ []) peer get [] server fresh (b'/' ∷ b'1' ∷ []) (omega arith) refl
