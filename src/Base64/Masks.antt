-- ===== src/Base64/Masks.antt =====
-- The alphabet, and the masks and joins of bits in the encoder and the decoder, in arithmetic.
use knx_iot_stack.Prelude.{
  ℕ, ◌+◌, ◌*◌, ◌/◌, ◌%◌, ◌<◌, ◌≡◌, refl, arith, Bool, true, false, ◌==◌, ==_iff, bit_and, bit_or,
}
use knx_iot_stack.Prelude.Bits.{passes_below, passes_below-at, bit_or_add}
use knx_iot_stack.Base64.{shl8, alphabet, Sextet, value, padding, invalid, sextet}

abbrev is_value : Sextet → ℕ → Bool
is_value (value w) v = w == v
is_value padding v = false
is_value invalid v = false

is_value_sound : (x : Sextet) (v : ℕ) → is_value x v ≡ true → x ≡ value v
is_value_sound (value w) v h = ground arith
is_value_sound padding v h = cc
is_value_sound invalid v h = cc

-- The alphabet and its reverse mapping are inverse on all 64 values.
sextet_table : passes_below (λ v. is_value (sextet (alphabet v)) v) 64 ≡ true
unfolding passes_below sextet alphabet
sextet_table = refl

pub sextet-alphabet : (v : ℕ) → v < 64 → sextet (alphabet v) ≡ value v
sextet-alphabet v h = is_value_sound _ v (passes_below-at _ 64 {k = v} h sextet_table)

module _ (f g : ℕ → ℕ) (n : ℕ) where
  same_below : passes_below (λ v. f v == g v) n ≡ true → (v : ℕ) → v < n → f v ≡ g v
  same_below t v h = (==_iff _ _).0 (passes_below-at (λ v. f v == g v) n {k = v} h t)

-- The masks of the encoder and of the decoder, in arithmetic.
pub mask_30 : (b : ℕ) → b < 256 → bit_and (shl8 b 16) 0x30 ≡ b % 4 * 16
unfolding passes_below
mask_30 = same_below (λ b. bit_and (shl8 b 16) 0x30) (λ b. b % 4 * 16) 256 refl

pub mask_3d : (b : ℕ) → b < 256 → bit_and (shl8 b 4) 0x3D ≡ b % 16 * 4
unfolding passes_below
mask_3d = same_below (λ b. bit_and (shl8 b 4) 0x3D) (λ b. b % 16 * 4) 256 refl

pub mask_3f : (b : ℕ) → b < 256 → bit_and b 0x3F ≡ b % 64
unfolding passes_below
mask_3f = same_below (λ b. bit_and b 0x3F) (λ b. b % 64) 256 refl

mask_fd : (v : ℕ) → v < 64 → bit_and (shl8 v 4) 0xFD ≡ v * 4
unfolding passes_below
mask_fd = same_below (λ v. bit_and (shl8 v 4) 0xFD) (λ v. v * 4) 64 refl

mask_f0 : (v : ℕ) → v < 64 → bit_and (shl8 v 16) 0xF0 ≡ v % 16 * 16
unfolding passes_below
mask_f0 = same_below (λ v. bit_and (shl8 v 16) 0xF0) (λ v. v % 16 * 16) 64 refl

mask_d0 : (v : ℕ) → v < 64 → bit_and (shl8 v 64) 0xD0 ≡ v % 4 * 64
unfolding passes_below
mask_d0 = same_below (λ v. bit_and (shl8 v 64) 0xD0) (λ v. v % 4 * 64) 64 refl

-- The bits that two neighbouring bytes share a character for do not overlap.
pub second_sextet :
    (a b : ℕ) → a < 256 → b < 256 → bit_or (bit_and (shl8 a 16) 0x30) (b / 16) ≡ a % 4 * 16 + b / 16
second_sextet a b ha hb = rw (mask_30 a ha) (bit_or_add 4 (a % 4) (b / 16) (omega arith))

pub third_sextet :
    (b c : ℕ) → b < 256 → c < 256 → bit_or (bit_and (shl8 b 4) 0x3D) (c / 64) ≡ b % 16 * 4 + c / 64
third_sextet b c hb hc = rw (mask_3d b hb) (bit_or_add 2 (b % 16) (c / 64) (omega arith))

pub first_byte :
    (u v : ℕ) → u < 64 → v < 64 → bit_or (bit_and (shl8 u 4) 0xFD) (v / 16) ≡ u * 4 + v / 16
first_byte u v hu hv = rw (mask_fd u hu) (bit_or_add 2 u (v / 16) (omega arith))

pub second_byte :
    (u v : ℕ) → u < 64 → v < 64 → bit_or (bit_and (shl8 u 16) 0xF0) (v / 4) ≡ u % 16 * 16 + v / 4
second_byte u v hu hv = rw (mask_f0 u hu) (bit_or_add 4 (u % 16) (v / 4) (omega arith))

pub third_byte : (u v : ℕ) → u < 64 → v < 64 → bit_or (bit_and (shl8 u 64) 0xD0) v ≡ u % 4 * 64 + v
third_byte u v hu hv = rw (mask_d0 u hu) (bit_or_add 6 (u % 4) v hv)
