-- ===== src/Base64.antt =====
-- api/oc_base64.c: Base64 (RFC 4648) with padding, encoded into a buffer and decoded in place.
-- Bytes and characters are numbers below 256.
pub mod Stream
pub mod Masks
pub mod Blocks
pub mod RoundTrip
mod Tests
use knx_iot_stack.Prelude.{
  ℕ, zero, suc, ◌+◌, ◌-◌, ◌*◌, ◌/◌, ◌%◌, Option, none, some, Bool, true, false, not, ◌&&◌, List, [],
  ◌∷◌, ◌++◌, ltb, leb, ◌==◌, if◌then◌else◌, length, get_or, set, take, replicate, bit_and, bit_or,
}
use Prim.Native.String.{String}
use Prim.Native.String
use Prim.Native.Char.{code}

-- the table `alphabet` of `oc_base64_encode`
abbrev codes : String → List ℕ
codes String.[] = []
codes (String.◌∷◌ c s) = code c ∷ codes s

unfoldable pub alphabet : ℕ → ℕ
alphabet v = get_or (codes "ABCDEFGHIJKLMNOPQRSTUVWXYZabcdefghijklmnopqrstuvwxyz0123456789+/=") v 0

-- `x << k` and `x >> k` stored in a `uint8_t`
abbrev pub shl8 : ℕ → ℕ → ℕ
shl8 x m = x * m % 256

-- The loop of `oc_base64_encode` over the input from index `i` on, with the pending bits `val`, and
-- the character for the bits left over.
unfoldable pub encode_from : List ℕ → ℕ → ℕ → List ℕ
encode_from [] i val = if i % 3 == 0 then [] else alphabet val ∷ []
encode_from (b ∷ bs) i val =
    let first = alphabet (b / 4) ∷ encode_from bs (i + 1) (bit_and (shl8 b 16) 0x30) in
    let second =
      alphabet (bit_or val (b / 16)) ∷ encode_from bs (i + 1) (bit_and (shl8 b 4) 0x3D) in
    let third =
      alphabet (bit_or val (b / 64))
      ∷ alphabet (bit_and b 0x3F)
      ∷ encode_from bs (i + 1) (bit_and b 0x3F) in
    if i % 3 == 0 then first else if i % 3 == 1 then second else third

-- the length that `oc_base64_encode` computes
unfoldable pub output_len : ℕ → ℕ
output_len n = if n % 3 == 0 then n / 3 * 4 else n / 3 * 4 + 4

-- `oc_base64_encode`: `none` is the result -1, else the characters written; their number is the
-- result. (For an empty input the code also writes a zero byte, which it does not count.) The lengths
-- are taken to be below 2^31, where the conversions to int keep them.
unfoldable pub encode : List ℕ → ℕ → Option (List ℕ)
unfolding encode_from output_len
encode input output_buffer_len =
    let chars = encode_from input 0 0 in
    if ltb output_buffer_len (output_len (length input))
    then none
    else some (chars ++ replicate (output_len (length input) - length chars) b'=')

-- what a character of the encoded string stands for
pub data Sextet : Type 0 where
  value : ℕ → Sextet
  padding : Sextet
  invalid : Sextet

unfoldable pub sextet : ℕ → Sextet
sextet c =
    if leb b'A' c && leb c b'Z'
    then value (c - 65)
    else if leb b'a' c && leb c b'z'
    then value (c - 71)
    else if leb b'0' c && leb c b'9'
    then value (c + 4)
    else if c == b'+'
    then value 62
    else if c == b'/'
    then value 63
    else if c == b'='
    then padding
    else invalid

-- The loop of `oc_base64_decode`, with `n` characters left to read. It reads index `i` of the string
-- and writes index `j` of the same string; `none` is the result -1.
unfoldable pub decode_loop : ℕ → List ℕ → ℕ → ℕ → ℕ → ℕ → Option (List ℕ × ℕ)
decode_loop zero str len i j val_c = some (str, j)
decode_loop (suc n) str len i j val_c = elim (sextet (get_or str i 0)) [
  | invalid ↦ none
  | padding ↦
      if ltb i (len - 2)
      then none
      else if (i == len - 2) && not (get_or str (i + 1) 0 == b'=')
      then none
      else some (str, j)
  | value v ↦
      let first = decode_loop n str len (i + 1) j (bit_and (shl8 v 4) 0xFD) in
      let second =
        decode_loop n (set str j (bit_or val_c (v / 16))) len (i + 1) (j + 1)
          (bit_and (shl8 v 16) 0xF0) in
      let third =
        decode_loop n (set str j (bit_or val_c (v / 4))) len (i + 1) (j + 1)
          (bit_and (shl8 v 64) 0xD0) in
      let fourth =
        decode_loop n (set str j (bit_or val_c v)) len (i + 1) (j + 1) (bit_or val_c v) in
      if i % 4 == 0
      then first
      else if i % 4 == 1
      then second
      else if i % 4 == 2
      then third
      else fourth
]

-- `oc_base64_decode`: the string with the bytes from `j` on set to zero, and `j`.
unfoldable pub decode : List ℕ → Option (List ℕ × ℕ)
unfolding decode_loop
decode str =
    if not (length str % 4 == 0)
    then none
    else elim (decode_loop (length str) str (length str) 0 0 0) [
      | none ↦ none
      | some (str', j) ↦ some (take j str' ++ replicate (length str - j) 0, j)
    ]
