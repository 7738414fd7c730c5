-- ===== src/Blockwise/Blocks.antt =====
-- `oc_blockwise_handle_block` against a receiver that keeps the payload received so far, and
-- `oc_blockwise_dispatch_block` against the payload that is sent.
use knx_iot_stack.Prelude.{
  ℕ, zero, suc, ◌+◌, ◌-◌, ◌*◌, ◌≤◌, ◌<◌, ◌≡◌, ◌⊎◌, ◌↔◌, inl, inr, dec_lt, arith, ◌∙◌, sym, ap, min,
  Option, none, some, Bool, true, false, ◌||◌, List, [], ◌++◌, append_assoc, ltb, leb, ◌==◌,
  if◌then◌else◌, length, length-append, take-append, length-take, length-drop, take, drop,
}
use knx_iot_stack.Blockwise.{BlockState, max_app_data_size, dispatch_block, write_at, handle_block}

-- The buffer has the size that the code takes it to have, and the next block starts inside.
pub record IsValid (b : BlockState) : Type 0 where
  pub size : length b.buffer ≡ max_app_data_size
  pub within : b.next_block_offset ≤ max_app_data_size

-- What has been received.
abbrev pub contents : BlockState → List ℕ
contents b = take b.next_block_offset b.buffer

-- A receiver of blocks: it appends the block that it waits for, tolerates one that it has already,
-- and refuses one behind a gap or beyond the limit.
unfoldable pub receive : List ℕ → ℕ → List ℕ → Bool × List ℕ
receive have offset block =
    if leb max_app_data_size offset
      || (ltb max_app_data_size (offset + length block) || ltb (length have) offset)
    then (false, have)
    else (true, if length have == offset then have ++ block else have)

take-write_at :
    (offset : ℕ) (bytes buffer : List ℕ)
    → offset ≤ length buffer
    → take (offset + length bytes) (write_at offset bytes buffer) ≡ take offset buffer ++ bytes
take-write_at offset bytes buffer h =
    ap (λ k. take k (write_at offset bytes buffer)) len
    ∙ ap (take (length (take offset buffer ++ bytes)))
        (sym (append_assoc (take offset buffer) bytes (drop (offset + length bytes) buffer)))
    ∙ take-append (take offset buffer ++ bytes) (drop (offset + length bytes) buffer)
  where
    len : offset + length bytes ≡ length (take offset buffer ++ bytes)
    len = omega (arith, length-append (take offset buffer) bytes, length-take offset buffer)

length-write_at :
    (offset : ℕ) (bytes buffer : List ℕ)
    → offset + length bytes ≤ length buffer
    → length (write_at offset bytes buffer) ≡ length buffer
length-write_at offset bytes buffer h = omega (
  arith,
  length-append (take offset buffer) (bytes ++ drop (offset + length bytes) buffer),
  length-append bytes (drop (offset + length bytes) buffer),
  length-take offset buffer,
  length-drop (offset + length bytes) buffer,
)

pub length-contents : (b : BlockState) → IsValid b → length (contents b) ≡ b.next_block_offset
length-contents b v = omega (arith, length-take b.next_block_offset b.buffer)

-- A block never makes the code write outside of the buffer, and the buffer stays valid.
pub handle_block-IsValid :
    (b : BlockState) (offset : ℕ) (block : List ℕ)
    → IsValid b
    → IsValid (handle_block b offset block).1
unfolding handle_block
handle_block-IsValid b offset block v =
    ground (arith, length-write_at b.next_block_offset block b.buffer)

-- What `oc_blockwise_handle_block` answers, and the payload that the buffer holds afterwards, are
-- those of the abstract receiver, on every block: the awaited one, one that was received before, one
-- behind a gap and one that does not fit.
pub handle_block-receive :
    (b : BlockState) (offset : ℕ) (block : List ℕ)
    → IsValid b
    → let (ok, b') = handle_block b offset block in
      (ok, contents b') ≡ receive (contents b) offset block
unfolding handle_block receive
handle_block-receive b offset block v =
    ground (arith, length-contents b v, take-write_at b.next_block_offset block b.buffer)

-- The bytes of a block that is sent.
abbrev pub sent : BlockState → Option (ℕ × ℕ) → List ℕ
sent b none = []
sent b (some (offset, size)) = take size (drop offset b.buffer)

-- For an offset that is a multiple of the block size, as in a transfer of blocks of one size, the
-- block that is sent lies inside the payload and is as long as the block size or the rest of the
-- payload allow; none is sent from the end of the payload on.
pub dispatch_block_aligned :
    (b : BlockState) (k size : ℕ)
    → 0 < size
    → (dispatch_block b (k * size) size).0 ≡ (
        if ltb (k * size) b.payload_size
        then some (k * size, min size (b.payload_size - k * size))
        else none)
unfolding dispatch_block
dispatch_block_aligned b zero size h = ground arith
dispatch_block_aligned b (suc k) size h =
    let le : size ≤ suc k * size = omega arith in ground (arith, le)

-- At any offset inside the payload a block is sent, of at most the size that is asked for, and it is a
-- part of the payload exactly if it starts at the front or the size is not above that of the payload: at
-- another offset a larger size makes the code send as many bytes as the whole payload has, and so read
-- behind the payload. From the end of the payload on nothing is sent.
pub dispatch_block-within :
    (b : BlockState) (offset size : ℕ)
    → ((dispatch_block b offset size).0 ≡ none) × (b.payload_size ≤ offset)
      ⊎ ((n : ℕ) × ((dispatch_block b offset size).0 ≡ some (offset, n))
          × (offset < b.payload_size)
          × (n ≤ size)
          × ((offset + n ≤ b.payload_size) ↔ ((offset ≡ 0) ⊎ (size ≤ b.payload_size))))
unfolding dispatch_block
dispatch_block-within b offset size = elim (dec_lt offset b.payload_size) [
  | no p ↦ inl (ground (arith, p), omega (arith, p))
  | yes p ↦ elim (dec_lt b.payload_size size) [
    | yes q ↦ inr (
      b.payload_size,
      ground (arith, p, q),
      p,
      omega (arith, q),
      (
        λ l. inl (omega (arith, l)),
        λ c. elim c [ inl z ↦ omega (arith, z) | inr l ↦ absurd (omega (arith, l, q)) ],
      ),
    )
    | no q ↦ inr (
      min size (b.payload_size - offset),
      ground (arith, p, q),
      p,
      omega arith,
      (λ l. inr (omega (arith, q)), λ c. omega (arith, p)),
    )
  ]
]
