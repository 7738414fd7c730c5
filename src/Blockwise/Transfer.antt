-- ===== src/Blockwise/Transfer.antt =====
-- A whole transfer: one side dispatches block after block, the other handles each, until the
-- dispatcher has none left.
use knx_iot_stack.Prelude.{
  ℕ, zero, suc, ◌+◌, ◌-◌, ◌*◌, ◌≤◌, ◌<◌, ◌≡◌, ◌⊎◌, inl, inr, refl, arith, ◌∙◌, sym, ap, min, Option,
  none, some, List, ◌++◌, length, length-take, take, drop, take-add, dec_lt,
}
use knx_iot_stack.Blockwise.{BlockState, max_app_data_size, dispatch_block, handle_block}
use knx_iot_stack.Blockwise.Blocks.{
  IsValid, contents, receive, handle_block-IsValid, handle_block-receive, length-contents,
}

-- One round: what the sender dispatches is handled by the receiver.
exchange_round :
    (BlockState → BlockState → Option BlockState)
    → BlockState
    → BlockState
    → Option (ℕ × ℕ) × BlockState
    → Option BlockState
exchange_round next b r (none, b') = some r
exchange_round next b r (some (offset, n), b') =
    next b' (handle_block r offset (take n (drop offset b.buffer))).1

-- Blocks of `size` bytes from the buffer `b` to the buffer `r`; `none` if the fuel runs out.
pub exchange : ℕ → ℕ → BlockState → BlockState → Option BlockState
unfolding exchange_round
exchange zero size b r = none
exchange (suc fuel) size b r =
    exchange_round (exchange fuel size) b r (dispatch_block b b.next_block_offset size)

-- The sender stands at a multiple of the block size or at the end of the payload.
abbrev AtBlock : ℕ → BlockState → Type 0
AtBlock size b =
    (b.next_block_offset ≡ b.payload_size) ⊎ ((k : ℕ) × (b.next_block_offset ≡ k * size))

dispatch_end :
    (b : BlockState) (size : ℕ)
    → b.payload_size ≤ b.next_block_offset
    → dispatch_block b b.next_block_offset size ≡ (none, b)
unfolding dispatch_block
dispatch_end b size h = ground arith

-- The size of the next block, and where the sender stands after it.
dispatch_next :
    (b : BlockState) (size : ℕ)
    → 0 < size
    → AtBlock size b
    → b.next_block_offset < b.payload_size
    → dispatch_block b b.next_block_offset size ≡ (
      some (b.next_block_offset, min size (b.payload_size - b.next_block_offset)),
      record b {
        next_block_offset = b.next_block_offset + min size (b.payload_size - b.next_block_offset);
      },
    )
unfolding dispatch_block
dispatch_next b size h (inl e) lt = absurd (omega arith)
dispatch_next b size h (inr (zero, e)) lt = ground arith
dispatch_next b size h (inr (suc k, e)) lt =
    let le : size ≤ suc k * size = omega arith in ground (arith, le)

AtBlock-next :
    (b : BlockState) (size : ℕ)
    → AtBlock size b
    → b.next_block_offset < b.payload_size
    → AtBlock size (record b {
      next_block_offset = b.next_block_offset + min size (b.payload_size - b.next_block_offset);
    })
AtBlock-next b size (inl e) lt = absurd (omega arith)
AtBlock-next b size (inr (k, e)) lt = elim (dec_lt size (b.payload_size - b.next_block_offset)) [
  | yes more ↦ inr (suc k, omega arith)
  | no last ↦ inl (omega arith)
]

-- The receiver has what the sender has sent.
record InStep (b r : BlockState) : Type 0 where
  valid : IsValid r
  level : r.next_block_offset ≡ b.next_block_offset
  same : contents r ≡ take b.next_block_offset b.buffer
  fits : b.payload_size ≤ max_app_data_size
  buffered : length b.buffer ≡ max_app_data_size
  inside : b.next_block_offset ≤ b.payload_size

receive_next :
    (have : List ℕ) (offset : ℕ) (block : List ℕ)
    → length have ≡ offset
    → offset < max_app_data_size
    → offset + length block ≤ max_app_data_size
    → (receive have offset block).1 ≡ have ++ block
unfolding receive
receive_next have offset block e lt le = ground arith

InStep-next :
    (b r : BlockState) (size : ℕ)
    → InStep b r
    → b.next_block_offset < b.payload_size
    → let n = min size (b.payload_size - b.next_block_offset) in
      InStep
        (record b { next_block_offset = b.next_block_offset + n })
        (handle_block r b.next_block_offset (take n (drop b.next_block_offset b.buffer))).1
InStep-next b r size s lt = record {
  valid = valid';
  level = omega (arith, ap length same', length-contents r' valid', length-take (o + n) b.buffer);
  same = same';
  fits = s.fits;
  buffered = s.buffered;
  inside = omega arith;
}
  where
    o : ℕ
    o = b.next_block_offset

    n : ℕ
    n = min size (b.payload_size - o)

    block : List ℕ
    block = take n (drop o b.buffer)

    r' : BlockState
    r' = (handle_block r o block).1

    valid' : IsValid r'
    valid' = handle_block-IsValid r o block s.valid

    same' : contents r' ≡ take (o + n) b.buffer
    same' =
        ap (λ x. x.1) (handle_block-receive r o block s.valid)
        ∙ receive_next (contents r) o block (omega (arith, length-contents r s.valid)) (omega arith)
            (omega (arith, length-take n (drop o b.buffer)))
        ∙ ap (λ l. l ++ block) s.same
        ∙ sym (take-add o n b.buffer)

exchange_lem :
    (fuel size : ℕ) (b r : BlockState)
    → 0 < size
    → AtBlock size b
    → InStep b r
    → b.payload_size - b.next_block_offset < fuel
    → (r' : BlockState) × (exchange fuel size b r ≡ some r')
      × (contents r' ≡ take b.payload_size b.buffer)
      × IsValid r'
unfolding exchange
exchange_lem zero size b r h at s f = absurd (omega arith)
exchange_lem (suc fuel) size b r h at s f = elim (dec_lt b.next_block_offset b.payload_size) [
  | no end ↦
      let e : b.next_block_offset ≡ b.payload_size = omega (arith, s.inside) in
      (
        r,
        rw (dispatch_end b size (omega arith)) refl,
        s.same ∙ ap (λ k. take k b.buffer) e,
        s.valid,
      )
  | yes lt ↦
      let n = min size (b.payload_size - b.next_block_offset) in
      let next =
        exchange_lem fuel size (record b { next_block_offset = b.next_block_offset + n })
          (handle_block r b.next_block_offset (take n (drop b.next_block_offset b.buffer))).1 h
          (AtBlock-next b size at lt) (InStep-next b r size s lt) (omega arith) in
      (next.0, rw (dispatch_next b size h at lt) next.1, next.2, next.3)
]

-- A transfer in blocks of any one size ends, and the receiver then holds exactly the payload: from
-- fresh buffers of the size that the code allocates, for any payload that fits, with one round of fuel
-- for each byte of the payload and one for the end.
pub exchange_complete :
    (size : ℕ) (b r : BlockState)
    → 0 < size
    → IsValid b
    → IsValid r
    → b.next_block_offset ≡ 0
    → r.next_block_offset ≡ 0
    → b.payload_size ≤ max_app_data_size
    → (r' : BlockState) × (exchange (b.payload_size + 1) size b r ≡ some r')
      × (contents r' ≡ take b.payload_size b.buffer)
      × IsValid r'
exchange_complete size b r h v w zb zr fits =
    exchange_lem (b.payload_size + 1) size b r h (inr (0, omega arith)) start (omega arith)
  where
    start : InStep b r
    start = record {
      valid = w;
      level = omega arith;
      same = rw (zb, zr) refl;
      fits = fits;
      buffered = v.size;
      inside = omega arith;
    }
