-- ===== src/Coap/Options/Headers.antt =====
-- Option headers: what is written is read back, and is never taken for the payload marker.
use knx_iot_stack.Prelude.{
  ℕ, ◌+◌, ◌-◌, ◌*◌, ◌/◌, ◌%◌, ◌^◌, ◌≤◌, ◌<◌, ◌≡◌, refl, arith, ◌∙◌, ap, append_assoc, false, List,
  ◌∷◌, ◌++◌, length, bit_and, bit_or,
}
use knx_iot_stack.Prelude.Bits.{bit_and-ones, bit_and-shifted, bit_or_add}
use knx_iot_stack.Coap.Options.{
  option_nibble, extended, set_option_header, got, parse_extended, parse_option_header,
  is_payload_marker,
}

-- What 16 bits of extension can express.
abbrev pub header_limit : ℕ
header_limit = 2 ^ 16 + 269

mask_ff : (x : ℕ) → bit_and x 0xff ≡ x % 256
mask_ff x = bit_and-ones 8 x

mask_0f : (x : ℕ) → bit_and x 0x0F ≡ x % 16
mask_0f x = bit_and-ones 4 x

mask_f0 : (x : ℕ) → bit_and x 0xF0 ≡ x / 16 % 16 * 16
mask_f0 x = bit_and-shifted 4 x 15 ∙ ap (λ (n : ℕ). n * 16) (mask_0f (x / 16))

nibble_bound : (v : ℕ) → option_nibble v < 15
unfolding option_nibble
nibble_bound v = ground arith

parse_extended-extended :
    (v : ℕ) (rest : List ℕ)
    → v < header_limit
    → parse_extended (option_nibble v) (extended v ++ rest) ≡ got v rest
unfolding parse_extended option_nibble extended
parse_extended-extended v rest h = ground (arith, mask_ff ((v - 269) / 256), mask_ff (v - 269))

first_byte :
    (d l : ℕ)
    → bit_or (option_nibble d * 16) (option_nibble l) ≡ option_nibble d * 16 + option_nibble l
first_byte d l = bit_or_add 4 (option_nibble d) (option_nibble l) (omega (arith, nibble_bound l))

high_nibble : (d l : ℕ) → bit_or (option_nibble d * 16) (option_nibble l) / 16 ≡ option_nibble d
high_nibble d l = omega (arith, first_byte d l, nibble_bound l)

low_nibble :
    (d l : ℕ) → bit_and (bit_or (option_nibble d * 16) (option_nibble l)) 0x0F ≡ option_nibble l
low_nibble d l = omega (
  arith,
  mask_0f (bit_or (option_nibble d * 16) (option_nibble l)),
  first_byte d l,
  nibble_bound l,
)

-- A header is read back as it was written, whatever follows it, for every delta and length below
-- 65805.
pub parse-set_option_header :
    (delta len : ℕ) (rest : List ℕ)
    → delta < header_limit
    → len < header_limit
    → parse_option_header (set_option_header delta len ++ rest) ≡ got (delta, len) rest
unfolding parse_option_header set_option_header
parse-set_option_header delta len rest hd hl =
    rw
      (
        append_assoc (extended delta),
        parse_option_header,
        high_nibble delta len,
        parse_extended-extended delta (extended len ++ rest) hd,
      )
      (rw (low_nibble delta len, parse_extended-extended len rest hl) refl)

-- No header begins with a byte that the parser takes for the payload marker.
pub set_option_header-marker :
    (delta len : ℕ)
    → (b : ℕ) × (bs : List ℕ) × (set_option_header delta len ≡ b ∷ bs)
      × (is_payload_marker b ≡ false)
unfolding set_option_header is_payload_marker
set_option_header-marker delta len = (
  bit_or (option_nibble delta * 16) (option_nibble len),
  extended delta ++ extended len,
  refl,
  ground (
    arith,
    mask_f0 (bit_or (option_nibble delta * 16) (option_nibble len)),
    first_byte delta len,
    nibble_bound delta,
    nibble_bound len,
  ),
)

-- A header takes one to five bytes.
pub length-set_option_header :
    (delta len : ℕ)
    → (1 ≤ length (set_option_header delta len)) × (length (set_option_header delta len) ≤ 5)
unfolding set_option_header extended
length-set_option_header delta len = ground arith
