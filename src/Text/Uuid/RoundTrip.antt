-- ===== src/Text/Uuid/RoundTrip.antt =====
-- A UUID is printed and read back.
use knx_iot_stack.Prelude.{
  ℕ, zero, suc, ◌+◌, ◌*◌, ◌/◌, ◌%◌, ◌<◌, ◌≤◌, ◌≡◌, refl, sym, ap, arith, ◌∙◌, some, true, false,
  ◌||◌, List, [], ◌∷◌, ◌++◌, append-nil, ◌==◌, ==_iff, if◌then◌else◌, length, AllBytes, no_bytes,
  more_bytes, take, drop, replicate, take-append, bytes_eq, bytes_eq_sound, Bool-cases, inl, inr,
}
use knx_iot_stack.Prelude.Bits.{passes_below, passes_below-at}
use knx_iot_stack.Text.{hex_digit, print_byte}
use knx_iot_stack.Text.Uuid.{
  Reading, join_digit, read_char, uuid_bytes, str_to_uuid, print_bytes, uuid_to_str,
}

byte_test :
    passes_below
      (λ b. join_digit (join_digit 0 (hex_digit (b / 16)) * 16 % 256) (hex_digit (b % 16)) == b)
      256
    ≡ true
unfolding passes_below join_digit hex_digit
byte_test = refl

-- Two digits are joined to their byte.
join-print_byte :
    (b : ℕ)
    → b < 256
    → join_digit (join_digit 0 (hex_digit (b / 16)) * 16 % 256) (hex_digit (b % 16)) ≡ b
join-print_byte b h = (==_iff _ _).0 (
    passes_below-at
      (λ b. join_digit (join_digit 0 (hex_digit (b / 16)) * 16 % 256) (hex_digit (b % 16)) == b) 256
      {k = b} h byte_test)

digit_not_dash : (d : ℕ) → (hex_digit d == b'-') ≡ false
unfolding hex_digit
digit_not_dash d = ground arith

abbrev at : ℕ → Reading
at j = record { j = j; k = j + j + 1; c = 0 }

-- Two digits are read, and their byte is written.
uuid_bytes-print_byte :
    (b j : ℕ) (chars : List ℕ)
    → b < 256
    → uuid_bytes (print_byte b ++ chars) (at j) ≡ b ∷ uuid_bytes chars (at (j + 1))
unfolding print_byte uuid_bytes read_char
uuid_bytes-print_byte b j chars h =
    let first : ((j + 1) * 2 == j + j + 1) ≡ false = ground arith in
    let second : ((j + 1) * 2 == j + j + 1 + 1) ≡ true = ground arith in
    let next : j + j + 1 + 1 + 1 ≡ j + 1 + (j + 1) + 1 = omega arith in
    rw (digit_not_dash (b / 16), first, digit_not_dash (b % 16), second, join-print_byte b h, next)
      refl

uuid_bytes-dash :
    (i j : ℕ) (chars : List ℕ)
    → uuid_bytes ((if i == 4 || i == 6 || i == 8 || i == 10 then b'-' ∷ [] else []) ++ chars) (at j)
      ≡ uuid_bytes chars (at j)
unfolding uuid_bytes read_char
uuid_bytes-dash i j chars = elim (Bool-cases (i == 4 || i == 6 || i == 8 || i == 10)) [
  | inl e ↦ rw e refl
  | inr e ↦ rw e refl
]

uuid_bytes-print_bytes :
    (bytes : List ℕ) (i : ℕ) → AllBytes bytes → uuid_bytes (print_bytes i bytes) (at i) ≡ bytes
unfolding print_bytes print_byte uuid_bytes
uuid_bytes-print_bytes [] i no_bytes = refl
uuid_bytes-print_bytes (b ∷ bytes) i (more_bytes h a) =
    uuid_bytes-dash i i (print_byte b ++ print_bytes (i + 1) bytes)
    ∙ uuid_bytes-print_byte b i (print_bytes (i + 1) bytes) h
    ∙ ap (λ l. b ∷ l) (uuid_bytes-print_bytes bytes (i + 1) a)

-- the dashes in front of and between `n` bytes from `i` on
abbrev dashes : ℕ → ℕ → ℕ
dashes zero i = 0
dashes (suc n) i = (if i == 4 || i == 6 || i == 8 || i == 10 then 1 else 0) + dashes n (i + 1)

length-print_bytes :
    (bytes : List ℕ) (i : ℕ)
    → length (print_bytes i bytes) ≡ length bytes + length bytes + dashes (length bytes) i
unfolding print_bytes print_byte
length-print_bytes [] i = refl
length-print_bytes (b ∷ bytes) i = elim (Bool-cases (i == 4 || i == 6 || i == 8 || i == 10)) [
  | inl e ↦ rw e (omega (arith, length-print_bytes bytes (i + 1)))
  | inr e ↦ rw e (omega (arith, length-print_bytes bytes (i + 1)))
]

length-printed : (id : List ℕ) → length id ≡ 16 → length (print_bytes 0 id) ≡ 36
length-printed id h = length-print_bytes id 0 ∙ ap (λ n. n + n + dashes n 0) h

take_printed :
    (id : List ℕ) → length id ≡ 16 → take 36 (print_bytes 0 id ++ 0 ∷ []) ≡ print_bytes 0 id
take_printed id h =
    ap (λ n. take n (print_bytes 0 id ++ 0 ∷ [])) (sym (length-printed id h))
    ∙ take-append (print_bytes 0 id) (0 ∷ [])

not_star : (text : List ℕ) → length text ≡ 36 → bytes_eq text (b'*' ∷ []) ≡ false
unfolding bytes_eq
not_star [] h = refl
not_star (a ∷ []) h = absurd (omega (arith, h))
not_star (a ∷ b ∷ text) h = ground arith

drop_all : (n : ℕ) (xs : List ℕ) → length xs ≡ n → drop n xs ≡ []
drop_all zero [] h = refl
drop_all zero (x ∷ xs) h = absurd (omega (arith, h))
drop_all (suc n) [] h = refl
drop_all (suc n) (x ∷ xs) h = drop_all n xs (omega (arith, h))

module _ (id old : List ℕ) (h : length id ≡ 16) (g : length old ≡ 16) (a : AllBytes id) where
  printed-read : str_to_uuid (print_bytes 0 id) old ≡ some id
  unfolding str_to_uuid
  printed-read =
      rw
        (
          take_printed id h,
          uuid_bytes-print_bytes id 0 a,
          not_star (print_bytes 0 id) (length-printed id h),
          length-printed id h,
          h,
          g,
          drop_all 16 old g,
          append-nil id,
        )
        refl

  star : bytes_eq id (b'*' ∷ replicate 15 0) ≡ true → str_to_uuid (b'*' ∷ []) old ≡ some id
  unfolding str_to_uuid
  star e = ap some (sym (bytes_eq_sound id (b'*' ∷ replicate 15 0) e))

  -- A UUID of 16 bytes is printed into a buffer of at least 37 bytes, and the text is read back as that
  -- UUID, whatever 16 bytes it is read into; so is the one that is printed as "*".
  pub str_to_uuid-uuid_to_str :
      (buflen : ℕ)
      → 37 ≤ buflen
      → (text : List ℕ) × (uuid_to_str id buflen ≡ some text) × (str_to_uuid text old ≡ some id)
  unfolding uuid_to_str
  str_to_uuid-uuid_to_str buflen n = elim (Bool-cases (bytes_eq id (b'*' ∷ replicate 15 0))) [
    | inl e ↦ (b'*' ∷ [], ground (arith, e), star e)
    | inr e ↦ (print_bytes 0 id, ground (arith, e), printed-read)
  ]
