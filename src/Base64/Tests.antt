-- ===== src/Base64/Tests.antt =====
-- The encoder and the decoder on the test vectors of RFC 4648, and the theorems at concrete strings.
use knx_iot_stack.Prelude.{
  ℕ, ◌-◌, ◌≡◌, refl, arith, some, none, List, [], ◌∷◌, ◌++◌, length, replicate,
}
use knx_iot_stack.Base64.{encode, decode, alphabet, sextet, output_len}
use knx_iot_stack.Base64.RoundTrip.{decode-encode}

-- "foob" and "Zm9vYg=="
abbrev foob : List ℕ
foob = b'f' ∷ b'o' ∷ b'o' ∷ b'b' ∷ []

abbrev foob_chars : List ℕ
foob_chars = b'Z' ∷ b'm' ∷ b'9' ∷ b'v' ∷ b'Y' ∷ b'g' ∷ b'=' ∷ b'=' ∷ []

encode-foob : encode foob 8 ≡ some foob_chars
unfolding encode alphabet
encode-foob = refl

encode_too_small : encode foob 7 ≡ none
unfolding encode
encode_too_small = refl

decode-foob : decode foob_chars ≡ some (foob ++ 0 ∷ 0 ∷ 0 ∷ 0 ∷ [], 4)
unfolding decode sextet
decode-foob = refl

-- Padding in the middle of a string is refused.
decode_padding : decode (b'Z' ∷ b'=' ∷ b'9' ∷ b'v' ∷ []) ≡ none
unfolding decode sextet
decode_padding = refl

decode-encode_example :
    (chars : List ℕ) × (encode foob 8 ≡ some chars)
    × (length chars ≡ output_len 4)
    × (decode chars ≡ some (foob ++ replicate (length chars - 4) 0, 4))
unfolding output_len
decode-encode_example = decode-encode foob 8 (omega arith) (omega arith)
