-- ===== src/Base64/Blocks.antt =====
-- Blocks of three bytes and four characters: one block of the encoder's loop and of the decoder's.
use knx_iot_stack.Prelude.{
  ℕ, ◌+◌, ◌*◌, ◌/◌, ◌%◌, ◌<◌, ◌≡◌, refl, arith, ◌∙◌, ap, List, [], ◌∷◌, bit_and, bit_or,
}
use knx_iot_stack.Base64.{shl8, alphabet, encode_from, value, sextet}
use knx_iot_stack.Base64.Stream.{decode_stream, push}
use knx_iot_stack.Base64.Masks.{
  sextet-alphabet, mask_3f, second_sextet, third_sextet, first_byte, second_byte, third_byte,
  mask_30, mask_3d,
}

-- At the start of a block the pending bits do not matter.
encode_from_fresh :
    (bs : List ℕ) (i val : ℕ) → i % 3 ≡ 0 → encode_from bs i val ≡ encode_from bs i 0
unfolding encode_from
encode_from_fresh [] i val h = ground arith
encode_from_fresh (b ∷ bs) i val h = ground arith

decode_stream_fresh :
    (cs : List ℕ) (i val : ℕ) → i % 4 ≡ 0 → decode_stream cs i val ≡ decode_stream cs i 0
unfolding decode_stream
decode_stream_fresh [] i val h = refl
decode_stream_fresh (c ∷ cs) i val h = ground arith

module _ (c : ℕ) (cs : List ℕ) (i val v : ℕ) (e : sextet c ≡ value v) where
  char_first :
      i % 4 ≡ 0 → decode_stream (c ∷ cs) i val ≡ decode_stream cs (i + 1) (bit_and (shl8 v 4) 0xFD)
  unfolding decode_stream
  char_first h = rw (e, decode_stream) (ground arith)

  char_second :
      i % 4 ≡ 1
      → decode_stream (c ∷ cs) i val
        ≡ push (bit_or val (v / 16)) (decode_stream cs (i + 1) (bit_and (shl8 v 16) 0xF0))
  unfolding decode_stream
  char_second h = rw (e, decode_stream) (ground arith)

  char_third :
      i % 4 ≡ 2
      → decode_stream (c ∷ cs) i val
        ≡ push (bit_or val (v / 4)) (decode_stream cs (i + 1) (bit_and (shl8 v 64) 0xD0))
  unfolding decode_stream
  char_third h = rw (e, decode_stream) (ground arith)

  char_fourth :
      i % 4 ≡ 3
      → decode_stream (c ∷ cs) i val ≡ push (bit_or val v) (decode_stream cs (i + 1) (bit_or val v))
  unfolding decode_stream
  char_fourth h = rw (e, decode_stream) (ground arith)

-- The two first characters of a block give its first byte.
pub decode_two :
    (u v : ℕ) (cs : List ℕ) (i val : ℕ)
    → u < 64
    → v < 64
    → i % 4 ≡ 0
    → decode_stream (alphabet u ∷ alphabet v ∷ cs) i val
      ≡ push (u * 4 + v / 16) (decode_stream cs (i + 1 + 1) (bit_and (shl8 v 16) 0xF0))
decode_two u v cs i val hu hv h =
    char_first _ _ i val u (sextet-alphabet u hu) h
    ∙ char_second _ cs (i + 1) _ v (sextet-alphabet v hv) (omega arith)
    ∙ ap (λ b. push b (decode_stream cs (i + 1 + 1) (bit_and (shl8 v 16) 0xF0)))
        (first_byte u v hu hv)

pub decode_three :
    (u v w : ℕ) (cs : List ℕ) (i val : ℕ)
    → u < 64
    → v < 64
    → w < 64
    → i % 4 ≡ 0
    → decode_stream (alphabet u ∷ alphabet v ∷ alphabet w ∷ cs) i val
      ≡ push
          (u * 4 + v / 16)
          (push (v % 16 * 16 + w / 4) (decode_stream cs (i + 1 + 1 + 1) (bit_and (shl8 w 64) 0xD0)))
decode_three u v w cs i val hu hv hw h =
    decode_two u v _ i val hu hv h
    ∙ ap (push (u * 4 + v / 16)) (
        char_third _ cs (i + 1 + 1) _ w (sextet-alphabet w hw) (omega arith)
        ∙ ap (λ b. push b (decode_stream cs (i + 1 + 1 + 1) (bit_and (shl8 w 64) 0xD0)))
            (second_byte v w hv hw))

pub decode_four :
    (u v w x : ℕ) (cs : List ℕ) (i val : ℕ)
    → u < 64
    → v < 64
    → w < 64
    → x < 64
    → i % 4 ≡ 0
    → decode_stream (alphabet u ∷ alphabet v ∷ alphabet w ∷ alphabet x ∷ cs) i val
      ≡ push (u * 4 + v / 16) (
          push
            (v % 16 * 16 + w / 4)
            (push (w % 4 * 64 + x) (decode_stream cs (i + 1 + 1 + 1 + 1) 0)))
decode_four u v w x cs i val hu hv hw hx h =
    decode_three u v w _ i val hu hv hw h
    ∙ ap (λ s. push (u * 4 + v / 16) (push (v % 16 * 16 + w / 4) s))
        (char_fourth _ cs (i + 1 + 1 + 1) _ x (sextet-alphabet x hx) (omega arith)
          ∙ ap (push (bit_or (bit_and (shl8 w 64) 208) x))
              (decode_stream_fresh cs (i + 1 + 1 + 1 + 1) _ (omega arith))
          ∙ ap (λ b. push b (decode_stream cs (i + 1 + 1 + 1 + 1) 0)) (third_byte w x hw hx))

pub encode_one :
    (a : ℕ) (i val : ℕ)
    → a < 256
    → i % 3 ≡ 0
    → encode_from (a ∷ []) i val ≡ alphabet (a / 4) ∷ alphabet (a % 4 * 16) ∷ []
unfolding encode_from
encode_one a i val h e = ground (arith, mask_30 a h)

pub encode_two :
    (a b : ℕ) (i val : ℕ)
    → a < 256
    → b < 256
    → i % 3 ≡ 0
    → encode_from (a ∷ b ∷ []) i val
      ≡ alphabet (a / 4) ∷ alphabet (a % 4 * 16 + b / 16) ∷ alphabet (b % 16 * 4) ∷ []
unfolding encode_from
encode_two a b i val ha hb e = ground (arith, second_sextet a b ha hb, mask_3d b hb)

pub encode_three :
    (a b c : ℕ) (bs : List ℕ) (i val : ℕ)
    → a < 256
    → b < 256
    → c < 256
    → i % 3 ≡ 0
    → encode_from (a ∷ b ∷ c ∷ bs) i val
      ≡ alphabet (a / 4)
        ∷ alphabet (a % 4 * 16 + b / 16)
        ∷ alphabet (b % 16 * 4 + c / 64)
        ∷ alphabet (c % 64)
        ∷ encode_from bs (i + 1 + 1 + 1) 0
unfolding encode_from
encode_three a b c bs i val ha hb hc e = ground (
  arith,
  second_sextet a b ha hb,
  third_sextet b c hb hc,
  mask_3f c hc,
  encode_from_fresh bs (i + 1 + 1 + 1) (bit_and c 0x3F),
)
