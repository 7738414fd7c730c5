-- ===== src/Coap/RoundTrip/BlockValue.antt =====
-- The value of a block option: its number, its flag and its size are read back.
use knx_iot_stack.Prelude.{
  ℕ, zero, suc, ◌+◌, ◌*◌, ◌/◌, ◌%◌, ◌^◌, ◌≤◌, ◌<◌, ◌≡◌, refl, sym, ap, ◌∙◌, arith, Bool, true, ◌==◌,
  if◌then◌else◌, bit_and, bit_or,
}
use knx_iot_stack.Prelude.Bits.{
  bit_and-ones, bit_and-shifted, bit_or_add, passes_below, passes_below-at,
}
use knx_iot_stack.Coap.Packet.{Packet}
use knx_iot_stack.Coap.Parse.{take_block2, take_block1}
use knx_iot_stack.Coap.Serialize.{log_2, block_value}
use native.Mathlib.Nat.{mul_assoc}

-- A block with a size that the option can express.
pub record IsBlock (num more size : ℕ) : Type 0 where
  pub szx : ℕ
  pub szx_bound : szx < 8
  pub size_is : size ≡ 16 * 2 ^ szx
  pub num_bound : num < 2 ^ 28
  pub more_bound : more ≤ 1

abbrev log_test : ℕ → Bool
log_test s = bit_and (log_2 (16 * 2 ^ s / 16)) 0xF == s

log_table : passes_below log_test 8 ≡ true
unfolding passes_below log_2
log_table = refl

log_2-size : (s : ℕ) → s < 8 → bit_and (log_2 (16 * 2 ^ s / 16)) 0xF ≡ s
log_2-size s h =
    let t : log_test s ≡ true = passes_below-at log_test 8 h log_table in ground (arith, t)

module _ (num more size : ℕ) (b : IsBlock num more size) where
  flagged :
      (m : ℕ)
      → m ≤ 1
      → bit_or (if m == 0 then num * 16 else bit_or (num * 16) 0x8) b.szx ≡ num * 16 + m * 8 + b.szx
  flagged zero h = bit_or_add 4 num b.szx (omega (arith, b)) ∙ omega arith
  flagged (suc m) h =
      let e : bit_or (num * 16) 0x8 ≡ (num * 2 + 1) * 8 =
        bit_or_add 4 num 8 (omega arith) ∙ omega arith in
      ground (arith, e, bit_or_add 3 (num * 2 + 1) b.szx b.szx_bound)

  block_value_lem : block_value num more size ≡ num * 16 + more * 8 + b.szx
  unfolding block_value
  block_value_lem =
      let block : num * 2 ^ 4 % 2 ^ 32 ≡ num * 16 = omega (arith, b) in
      let size_bits : bit_and (log_2 (size / 16)) 0xF ≡ b.szx =
        ap (λ s. bit_and (log_2 (s / 16)) 0xF) b.size_is ∙ log_2-size b.szx b.szx_bound in
      rw (block, size_bits) (flagged more b.more_bound)

  pub block_value-lt : block_value num more size < 2 ^ 32
  block_value-lt = rw block_value_lem (omega (arith, b))

  value_fields :
      (bit_and (block_value num more size) 0x08 / 2 ^ 3 ≡ more)
      × (bit_and (block_value num more size) 0x07 ≡ b.szx)
      × (bit_and (block_value num more size) 0xFFFFFFF0 ≡ num * 16)
      × (block_value num more size / 2 ^ 4 ≡ num)
  value_fields =
      let v = num * 16 + more * 8 + b.szx in
      rw block_value_lem (
        omega (arith, b, bit_and-shifted 3 v 1, bit_and-ones 1 (v / 2 ^ 3)),
        omega (arith, b, bit_and-ones 3 v),
        omega (arith, b, bit_and-shifted 4 v 0xFFFFFFF, bit_and-ones 28 (v / 2 ^ 4)),
        omega (arith, b),
      )

  offset : num * 16 * 2 ^ b.szx ≡ num * size
  offset = mul_assoc num 16 (2 ^ b.szx) ∙ ap (λ s. num * s) (sym b.size_is)

  pub take_block2-block_value :
      (q : Packet)
      → take_block2 (block_value num more size) q ≡ record q {
        block2_num = num;
        block2_more = more;
        block2_size = size;
        block2_offset = num * size % 2 ^ 32;
      }
  unfolding take_block2
  take_block2-block_value q =
      let (m, s, n, k) = value_fields in rw (m, s, n, k, sym b.size_is, offset) refl

  pub take_block1-block_value :
      (q : Packet)
      → take_block1 (block_value num more size) q ≡ record q {
        block1_num = num;
        block1_more = more;
        block1_size = size;
        block1_offset = num * size % 2 ^ 32;
      }
  unfolding take_block1
  take_block1-block_value q =
      let (m, s, n, k) = value_fields in rw (m, s, n, k, sym b.size_is, offset) refl
