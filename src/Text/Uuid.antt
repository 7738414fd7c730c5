-- ===== src/Text/Uuid.antt =====
-- api/oc_uuid.c: UUIDs as texts, and as 16 bytes.
pub mod Writes
pub mod RoundTrip
use knx_iot_stack.Prelude.{
  ℕ, ◌+◌, ◌-◌, ◌*◌, ◌/◌, ◌%◌, ◌^◌, Option, none, some, Bool, true, false, ◌&&◌, ◌||◌, List, [], ◌∷◌,
  ◌++◌, ltb, leb, ◌==◌, if◌then◌else◌, length, take, drop, replicate, set, get_or, bytes_eq,
  bit_and, bit_or,
}
use knx_iot_stack.Text.{print_byte}

-- `isalpha` in the C locale
abbrev is_alpha : ℕ → Bool
is_alpha ch = (leb b'A' ch && leb ch b'Z') || (leb b'a' ch && leb ch b'z')

-- the `switch` of `oc_str_to_uuid`
abbrev letter_value : ℕ → ℕ
letter_value ch =
    if ch == 65 || ch == 97
    then 0x0a
    else if ch == 66 || ch == 98
    then 0x0b
    else if ch == 67 || ch == 99
    then 0x0c
    else if ch == 68 || ch == 100
    then 0x0d
    else if ch == 69 || ch == 101
    then 0x0e
    else if ch == 70 || ch == 102
    then 0x0f
    else 0

-- A character is joined to `c`, a `uint8_t`.
unfoldable pub join_digit : ℕ → ℕ → ℕ
join_digit c ch =
    if is_alpha ch then bit_or c (letter_value ch) else bit_or c ((ch + 256 - 48) % 256)

-- The variables of the loop of `oc_str_to_uuid`.
pub record Reading : Type 0 where
  pub j : ℕ
  pub k : ℕ
  pub c : ℕ

-- One round of the loop, with the byte that it writes at index `j`, if it writes one.
unfoldable pub read_char : ℕ → Reading → Reading × List ℕ
unfolding join_digit
read_char ch r =
    let c = join_digit r.c ch in
    if ch == b'-'
    then (r, [])
    else if (r.j + 1) * 2 == r.k
    then (record { j = r.j + 1; k = r.k + 1; c = 0 }, c ∷ [])
    else (record { j = r.j; k = r.k + 1; c = c * 16 % 256 }, [])

-- The bytes that the loop writes, the first at the index `j` that it has reached.
unfoldable pub uuid_bytes : List ℕ → Reading → List ℕ
unfolding read_char
uuid_bytes [] r = []
uuid_bytes (ch ∷ chars) r = let step = read_char ch r in step.1 ++ uuid_bytes chars step.0

abbrev pub start : Reading
start = record { j = 0; k = 1; c = 0 }

-- `oc_str_to_uuid` into the 16 bytes `id`: `none` where it reads behind the text and its terminator, or
-- writes behind the bytes.
unfoldable pub str_to_uuid : List ℕ → List ℕ → Option (List ℕ)
unfolding uuid_bytes bytes_eq
str_to_uuid text id =
    let written = uuid_bytes (take 36 (text ++ 0 ∷ [])) start in
    if bytes_eq text (b'*' ∷ [])
    then some (b'*' ∷ replicate 15 0)
    else if ltb (length text) 35 || ltb (length id) (length written)
    then none
    else some (written ++ drop (length written) id)

-- The loop of `oc_uuid_to_str` from byte `i` on.
unfoldable pub print_bytes : ℕ → List ℕ → List ℕ
unfolding print_byte
print_bytes i [] = []
print_bytes i (b ∷ bytes) =
    (if i == 4 || i == 6 || i == 8 || i == 10 then b'-' ∷ [] else [])
    ++ (print_byte b ++ print_bytes (i + 1) bytes)

-- `oc_uuid_to_str`: `none` where the buffer is left alone.
unfoldable pub uuid_to_str : List ℕ → ℕ → Option (List ℕ)
unfolding print_bytes bytes_eq
uuid_to_str id buflen =
    if ltb buflen 37
    then none
    else if bytes_eq id (b'*' ∷ replicate 15 0)
    then some (b'*' ∷ [])
    else some (print_bytes 0 id)

-- the bytes of a `uint32_t` in memory, the lowest first
abbrev word_bytes : ℕ → List ℕ
word_bytes r = r % 256 ∷ r / 256 % 256 ∷ r / 2 ^ 16 % 256 ∷ r / 2 ^ 24 % 256 ∷ []

-- `oc_gen_uuid`, with the results of `oc_random_value`
unfoldable pub gen_uuid : (ℕ → ℕ) → List ℕ
gen_uuid random =
    let id =
      word_bytes (random 0)
      ++ word_bytes (random 1)
      ++ word_bytes (random 2)
      ++ word_bytes (random 3) in
    let id = set id 8 (bit_and (get_or id 8 0) 0x3f) in
    let id = set id 8 (bit_or (get_or id 8 0) 0x40) in
    let id = set id 6 (bit_and (get_or id 6 0) 0x0f) in set id 6 (bit_or (get_or id 6 0) 0x40)
