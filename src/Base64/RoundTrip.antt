-- ===== src/Base64/RoundTrip.antt =====
-- `oc_base64_decode` undoes `oc_base64_encode`.
use native.Mathlib.Nat.{zero-add}
use knx_iot_stack.Prelude.{
  ℕ, suc, ◌+◌, ◌-◌, ◌*◌, ◌/◌, ◌%◌, ◌≤◌, ◌<◌, ◌≡◌, ◌↔◌, refl, arith, ◌∙◌, ap, Option, none, some,
  List, [], ◌∷◌, ◌++◌, ◌==◌, if◌then◌else◌, inl, inr, Bool-cases, if_true, sym, length,
  length-append, length-replicate, replicate,
}
use knx_iot_stack.Base64.{encode_from, output_len, encode, sextet, decode_loop, decode}
use knx_iot_stack.Base64.Stream.{decode_stream, push, Agrees, in_place}
use knx_iot_stack.Base64.Blocks.{
  decode_two, decode_three, decode_four, encode_one, encode_two, encode_three,
}

-- All are bytes.
abbrev pub AllBytes : List ℕ → Type 0
AllBytes [] = Unit {0}
AllBytes (b ∷ bs) = (b < 256) × AllBytes bs

-- The number of padding characters.
abbrev pad_len : ℕ → ℕ
pad_len n = if n % 3 == 0 then 0 else 3 - n % 3

encode_nil : (i : ℕ) → i % 3 ≡ 0 → encode_from [] i 0 ≡ []
unfolding encode_from
encode_nil i e = ground arith

stream_nil : (i val : ℕ) → decode_stream [] i val ≡ some []
unfolding decode_stream
stream_nil i val = refl

length-encode_from :
    (bs : List ℕ) (i : ℕ)
    → AllBytes bs
    → i % 3 ≡ 0
    → length (encode_from bs i 0) + pad_len (length bs) ≡ output_len (length bs)
unfolding output_len
length-encode_from [] i h e = rw (encode_nil i e) refl
length-encode_from (a ∷ []) i h e = rw (encode_one a i 0 h.0 e) (ground arith)
length-encode_from (a ∷ b ∷ []) i h e = rw (encode_two a b i 0 h.0 h.1.0 e) (ground arith)
length-encode_from (a ∷ b ∷ c ∷ bs) i h e =
    rw (encode_three a b c bs i 0 h.0 h.1.0 h.1.1.0 e)
      (ground (arith, length-encode_from bs (i + 1 + 1 + 1) h.1.1.1 (omega arith)))

pad_stops_one : (i val : ℕ) → decode_stream (b'=' ∷ []) i val ≡ some []
unfolding decode_stream sextet
pad_stops_one i val = refl

pad_stops_two : (i val : ℕ) → decode_stream (b'=' ∷ b'=' ∷ []) i val ≡ some []
unfolding decode_stream sextet
pad_stops_two i val = refl

pad_block : (bs : List ℕ) → pad_len (suc (suc (suc (length bs)))) ≡ pad_len (length bs)
pad_block bs = ground arith

-- What the encoder writes, decoded character by character, is the input.
stream_round_trip :
    (bs : List ℕ) (i k : ℕ)
    → AllBytes bs
    → i % 3 ≡ 0
    → k % 4 ≡ 0
    → decode_stream (encode_from bs i 0 ++ replicate (pad_len (length bs)) b'=') k 0 ≡ some bs
stream_round_trip [] i k h e f = rw (encode_nil i e) (stream_nil k 0)
stream_round_trip (a ∷ []) i k h e f = rw (encode_one a i 0 h.0 e) (
    decode_two (a / 4) (a % 4 * 16) _ k 0 (omega arith) (omega arith) f
    ∙ ap (push (a / 4 * 4 + a % 4 * 16 / 16)) (pad_stops_two _ _)
    ∙ ap (λ x. some (x ∷ [])) (omega arith))
stream_round_trip (a ∷ b ∷ []) i k h e f = rw (encode_two a b i 0 h.0 h.1.0 e) (
    decode_three (a / 4) (a % 4 * 16 + b / 16) (b % 16 * 4) _ k 0 (omega arith) (omega arith)
      (omega arith) f
    ∙ rw pad_stops_one (ground arith))
stream_round_trip (a ∷ b ∷ c ∷ bs) i k h e f = rw (encode_three a b c bs i 0 h.0 h.1.0 h.1.1.0 e) (
    decode_four (a / 4) (a % 4 * 16 + b / 16) (b % 16 * 4 + c / 64) (c % 64) _ k 0 (omega arith)
      (omega arith) (omega arith) (omega arith) f
    ∙ rw
        (
          pad_block bs,
          stream_round_trip bs (i + 1 + 1 + 1) (k + 1 + 1 + 1 + 1) h.1.1.1 (omega arith)
              (omega arith),
        )
        (ground arith))

-- The characters that `encode` returns when the buffer is large enough.
abbrev encoded : List ℕ → List ℕ
encoded bs = encode_from bs 0 0 ++ replicate (pad_len (length bs)) b'='

encode-encoded :
    (bs : List ℕ) (n : ℕ)
    → AllBytes bs
    → output_len (length bs) ≤ n
    → encode bs n ≡ some (encoded bs)
unfolding encode
encode-encoded bs n h le =
    let e : output_len (length bs) - length (encode_from bs 0 0) ≡ pad_len (length bs) =
      omega (arith, length-encode_from bs 0 h refl) in
    rw e (ground arith)

length-encoded : (bs : List ℕ) → AllBytes bs → length (encoded bs) ≡ output_len (length bs)
length-encoded bs h = omega (
  arith,
  length-append (encode_from bs 0 0) (replicate (pad_len (length bs)) b'='),
  length-replicate {A = ℕ} (pad_len (length bs)) b'=',
  length-encode_from bs 0 h refl,
)

output_len_blocks : (n : ℕ) → output_len n % 4 ≡ 0
unfolding output_len
output_len_blocks n = ground arith

decode_of_Agrees :
    (str : List ℕ) (bs : List ℕ)
    → length str % 4 ≡ 0
    → Agrees 0 str (some bs) (decode_loop (length str) str (length str) 0 0 0)
    → decode str ≡ some (bs ++ replicate (length str - length bs) 0, length bs)
unfolding decode
decode_of_Agrees str bs h (str', e, t) =
    rw (h, decode)
      (rw (e, zero-add)
        (ap (λ l. some (l ++ replicate (length str - length bs) 0, length bs)) (rw zero-add at t)))

decode_of_refused :
    (str : List ℕ)
    → length str % 4 ≡ 0
    → decode_loop (length str) str (length str) 0 0 0 ≡ none
    → decode str ≡ none
unfolding decode
decode_of_refused str h e = rw (h, decode) (rw e)

-- What the buffer holds when the bytes are decoded: they, and zeros behind them.
abbrev pub zero_filled : List ℕ → Option (List ℕ) → Option (List ℕ × ℕ)
zero_filled str none = none
zero_filled str (some bs) = some (bs ++ replicate (length str - length bs) 0, length bs)

two_of_blocks : (c : ℕ) (cs : List ℕ) → length (c ∷ cs) % 4 ≡ 0 → 2 ≤ length (c ∷ cs)
two_of_blocks c cs h = omega arith

of_Agrees :
    (str : List ℕ) (s : Option (List ℕ))
    → length str % 4 ≡ 0
    → Agrees 0 str s (decode_loop (length str) str (length str) 0 0 0)
    → decode str ≡ zero_filled str s
of_Agrees str none h a = decode_of_refused str h a
of_Agrees str (some bs) h a = decode_of_Agrees str bs h a

-- The decoder refuses a string whose length is no multiple of four. Any other it decodes as if each
-- character were read before anything is written: it refuses what the character by character decoder
-- refuses, and else leaves its bytes, followed by zeros, and returns their number.
pub decode-stream :
    (str : List ℕ)
    → decode str ≡ (if length str % 4 == 0 then zero_filled str (decode_stream str 0 0) else none)
unfolding decode decode_stream
decode-stream [] = refl
decode-stream (c ∷ cs) = elim (Bool-cases (length (c ∷ cs) % 4 == 0)) [
  | inr bad ↦ rw (bad, decode) refl
  | inl ok ↦
      let m : length (c ∷ cs) % 4 ≡ 0 = ground arith in
      of_Agrees (c ∷ cs) (decode_stream (c ∷ cs) 0 0) m (
        in_place (c ∷ cs) (c ∷ cs) (length (c ∷ cs)) 0 0 0 refl refl (two_of_blocks c cs m)
          (omega arith))
      ∙ sym (if_true _ _ _ ok)
]

-- Encoding any bytes into a buffer that is large enough gives a string, and decoding that string in
-- place gives the bytes back, followed by zeros up to its length, with their number.
pub decode-encode :
    (bs : List ℕ) (n : ℕ)
    → AllBytes bs
    → output_len (length bs) ≤ n
    → (chars : List ℕ) × (encode bs n ≡ some chars)
      × (length chars ≡ output_len (length bs))
      × (decode chars ≡ some (bs ++ replicate (length chars - length bs) 0, length bs))
decode-encode bs n h le = (
  encoded bs,
  encode-encoded bs n h le,
  length-encoded bs h,
  decode-stream (encoded bs) ∙ rw (blocks, stream_round_trip bs 0 0 h refl refl) refl,
)
  where
    blocks : length (encoded bs) % 4 ≡ 0
    blocks = rw (length-encoded bs h) (output_len_blocks (length bs))

-- The encoder refuses exactly the buffers that are too small.
pub encode-none : (bs : List ℕ) (n : ℕ) → (encode bs n ≡ none) ↔ (n < output_len (length bs))
unfolding encode
encode-none bs n = ground arith
