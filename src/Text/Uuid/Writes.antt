-- ===== src/Text/Uuid/Writes.antt =====
-- How many bytes the conversion from a text writes, and what a generated UUID is marked with.
use knx_iot_stack.Prelude.{
  ℕ, ◌+◌, ◌*◌, ◌/◌, ◌%◌, ◌^◌, ◌<◌, ◌≤◌, ◌≡◌, ◌↔◌, refl, arith, true, false, none, some, List, [],
  ◌∷◌, ◌++◌, ltb, ◌==◌, ==_iff, if◌then◌else◌, length, take, take-more, get_or, bytes_eq, bit_and,
  bit_or,
}
use knx_iot_stack.Prelude.Bits.{passes_below, passes_below-at}
use knx_iot_stack.Text.Uuid.{
  Reading, start, join_digit, read_char, uuid_bytes, str_to_uuid, gen_uuid,
}

-- The characters of a text that are not dashes.
abbrev pub digits_in : List ℕ → ℕ
digits_in [] = 0
digits_in (ch ∷ chars) = if ch == b'-' then digits_in chars else digits_in chars + 1

-- A byte is written for every two of them; `p` is the number of digits of the byte that is begun.
pub length-uuid_bytes :
    (chars : List ℕ) (r : Reading) (p : ℕ)
    → p < 2
    → r.k ≡ r.j + r.j + 1 + p
    → length (uuid_bytes chars r) ≡ (digits_in chars + p) / 2
unfolding uuid_bytes read_char
length-uuid_bytes [] r p l h = omega arith
length-uuid_bytes (ch ∷ chars) r p l h = ground (
  arith,
  length-uuid_bytes chars r p l h,
  length-uuid_bytes chars (record { j = r.j; k = r.k + 1; c = join_digit r.c ch * 16 % 256 }) 1,
  length-uuid_bytes chars (record { j = r.j + 1; k = r.k + 1; c = 0 }) 0,
)

take_front : (text : List ℕ) → 36 ≤ length text → take 36 (text ++ 0 ∷ []) ≡ take 36 text
take_front text h = take-more 36 text (0 ∷ []) h

not_star : (text : List ℕ) → 36 ≤ length text → bytes_eq text (b'*' ∷ []) ≡ false
unfolding bytes_eq
not_star [] h = refl
not_star (a ∷ []) h = absurd (omega (arith, h))
not_star (a ∷ b ∷ text) h = ground arith

overruns :
    (n digits written : ℕ) (id : List ℕ)
    → written ≡ (digits + 0) / 2
    → n ≡ 16
    → ((if ltb n written then none else some id) ≡ none) ↔ (33 < digits)
overruns n digits written id w h = ground arith

-- A text of at least 36 characters makes the conversion write behind the 16 bytes of the UUID exactly
-- when its first 36 have fewer than three dashes.
pub str_to_uuid-overflow :
    (text id : List ℕ)
    → 36 ≤ length text
    → length id ≡ 16
    → (str_to_uuid text id ≡ none) ↔ (33 < digits_in (take 36 text))
unfolding str_to_uuid
str_to_uuid-overflow text id h n =
    let long : ltb (length text) 35 ≡ false = ground arith in
    rw (take_front text h, not_star text h, long)
      (overruns (length id) (digits_in (take 36 text)) (length (uuid_bytes (take 36 text) start)) _
        (length-uuid_bytes (take 36 text) start 0 (omega arith) refl) n)

version_test : passes_below (λ b. bit_or (bit_and b 0x0f) 0x40 / 16 == 4) 256 ≡ true
unfolding passes_below
version_test = refl

variant_test : passes_below (λ b. bit_or (bit_and b 0x3f) 0x40 / 64 == 1) 256 ≡ true
unfolding passes_below
variant_test = refl

-- Whatever the random numbers are, a generated UUID has 16 bytes, its version is 4, and its variant is
-- not the binary 10 of RFC 4122, but 01.
pub gen_uuid-marks :
    (random : ℕ → ℕ)
    → (length (gen_uuid random) ≡ 16)
      × (get_or (gen_uuid random) 6 0 / 16 ≡ 4)
      × (get_or (gen_uuid random) 8 0 / 64 ≡ 1)
unfolding gen_uuid
gen_uuid-marks random = (
  refl,
  (==_iff _ _).0 (
      passes_below-at (λ b. bit_or (bit_and b 0x0f) 0x40 / 16 == 4) 256
        {k = random 1 / 2 ^ 16 % 256} (omega arith) version_test),
  (==_iff _ _).0 (
      passes_below-at (λ b. bit_or (bit_and b 0x3f) 0x40 / 64 == 1) 256 {k = random 2 % 256}
        (omega arith) variant_test),
)
