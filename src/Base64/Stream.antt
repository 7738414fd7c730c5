-- ===== src/Base64/Stream.antt =====
-- The loop of the decoder in api/oc_base64.c writes over the string it reads. `decode_stream` is the
-- same loop with the input and the output apart, for the proofs of what the loop decodes.
use native.Mathlib.Nat.{add-zero}
use native.Mathlib.Numerals.{add-one}
use knx_iot_stack.Prelude.{
  ℕ, zero, suc, ◌+◌, ◌-◌, ◌/◌, ◌%◌, ◌≤◌, ◌<◌, ◌≡◌, refl, arith, ◌⊎◌, inl, inr, ◌∙◌, sym, ap,
  append_assoc, append-nil, Option, none, some, Bool, true, false, not, ◌&&◌, List, [], ◌∷◌, ◌++◌,
  ltb, ◌==◌, if◌then◌else◌, length, get_or, set, take, drop, bit_and, bit_or, length-set,
}
use knx_iot_stack.Base64.{shl8, Sextet, value, padding, invalid, sextet, decode_loop}

abbrev pub push : ℕ → Option (List ℕ) → Option (List ℕ)
push b none = none
push b (some bs) = some (b ∷ bs)

-- The loop with its output apart, from index `i` on; `none` if the characters are refused.
unfoldable pub decode_stream : List ℕ → ℕ → ℕ → Option (List ℕ)
decode_stream [] i val_c = some []
decode_stream (c ∷ cs) i val_c = elim (sextet c) [
  | invalid ↦ none
  | padding ↦
      if ltb 1 (length cs)
      then none
      else if (length cs == 1) && not (get_or cs 0 0 == b'=')
      then none
      else some []
  | value v ↦
      let first = decode_stream cs (i + 1) (bit_and (shl8 v 4) 0xFD) in
      let second =
        push (bit_or val_c (v / 16)) (decode_stream cs (i + 1) (bit_and (shl8 v 16) 0xF0)) in
      let third =
        push (bit_or val_c (v / 4)) (decode_stream cs (i + 1) (bit_and (shl8 v 64) 0xD0)) in
      let fourth = push (bit_or val_c v) (decode_stream cs (i + 1) (bit_or val_c v)) in
      if i % 4 == 0
      then first
      else if i % 4 == 1
      then second
      else if i % 4 == 2
      then third
      else fourth
]

-- What the loop has made of a string whose first `j` bytes are decoded, against the stream.
abbrev pub Agrees : ℕ → List ℕ → Option (List ℕ) → Option (List ℕ × ℕ) → Type 0
Agrees j str none out = out ≡ none
Agrees j str (some bs) out =
    (str' : List ℕ) × (out ≡ some (str', j + length bs))
    × (take (j + length bs) str' ≡ take j str ++ bs)

drop-get_or :
    (i : ℕ) (str : List ℕ) {c : ℕ} {cs : List ℕ} → drop i str ≡ c ∷ cs → get_or str i 0 ≡ c
drop-get_or zero [] e = cc
drop-get_or zero (x ∷ xs) e = cc
drop-get_or (suc i) [] e = cc
drop-get_or (suc i) (x ∷ xs) e = drop-get_or i xs e

drop-suc :
    (i : ℕ) (str : List ℕ) {c : ℕ} {cs : List ℕ} → drop i str ≡ c ∷ cs → drop (suc i) str ≡ cs
drop-suc zero [] e = cc
drop-suc zero (x ∷ xs) e = cc
drop-suc (suc i) [] e = cc
drop-suc (suc i) (x ∷ xs) e = drop-suc i xs e

drop-set : (i j : ℕ) (str : List ℕ) (v : ℕ) → j < i → drop i (set str j v) ≡ drop i str
drop-set zero j str v h = absurd (omega arith)
drop-set (suc i) j [] v h = refl
drop-set (suc i) zero (x ∷ xs) v h = refl
drop-set (suc i) (suc j) (x ∷ xs) v h = drop-set i j xs v (omega arith)

take-set :
    (j : ℕ) (str : List ℕ) (v : ℕ)
    → j < length str
    → take (suc j) (set str j v) ≡ take j str ++ v ∷ []
take-set j [] v h = absurd (omega arith)
take-set zero (x ∷ xs) v h = refl
take-set (suc j) (x ∷ xs) v h = ap (λ l. x ∷ l) (take-set j xs v (omega arith))

length-drop :
    (i : ℕ) (str : List ℕ) {c : ℕ} {cs : List ℕ}
    → drop i str ≡ c ∷ cs
    → length str ≡ i + suc (length cs)
length-drop zero [] e = cc
length-drop zero (x ∷ xs) e = ground (arith, e)
length-drop (suc i) [] e = cc
length-drop (suc i) (x ∷ xs) e = omega (arith, length-drop i xs e)

-- After a byte is written at `j`.
Agrees-push :
    (j : ℕ) (str : List ℕ) (b : ℕ) (s : Option (List ℕ)) (out : Option (List ℕ × ℕ))
    → j < length str
    → Agrees (j + 1) (set str j b) s out
    → Agrees j str (push b s) out
Agrees-push j str b none out h a = a
Agrees-push j str b (some bs) out h (str', e, t) = (
  str',
  e ∙ ap (λ k. some (str', k)) sum,
  ap (λ k. take k str') (sym sum)
      ∙ t
      ∙ ap (λ l. l ++ bs) (rw add-one (take-set j str b h))
      ∙ append_assoc (take j str) (b ∷ []) bs,
)
  where
    sum : j + 1 + length bs ≡ j + suc (length bs)
    sum = omega arith

Sextet-cases : (x : Sextet) → ((x ≡ invalid) ⊎ (x ≡ padding)) ⊎ ((v : ℕ) × (x ≡ value v))
Sextet-cases (value v) = inr (v, refl)
Sextet-cases padding = inl (inr refl)
Sextet-cases invalid = inl (inl refl)

-- The next call of the loop, with the byte `b` written at `j` or with none written.
module _ (str : List ℕ) (len i j : ℕ) {c : ℕ} {cs : List ℕ} (d : drop i str ≡ c ∷ cs)
    (l : length str ≡ len) (h : j ≤ i) where
  drop_next : drop (i + 1) str ≡ cs
  drop_next = rw add-one (drop-suc i str d)

  drop_written : (b : ℕ) → drop (i + 1) (set str j b) ≡ cs
  drop_written b = drop-set (i + 1) j str b (omega arith) ∙ drop_next

  in_range : j < length str
  in_range = omega (arith, length-drop i str d)

Agrees-refused :
    (j : ℕ) (str : List ℕ) (a b : Bool)
    → Agrees j str
        (if a then none else if b then none else some [])
        (if a then none else if b then none else some (str, j))
Agrees-refused j str true b = refl
Agrees-refused j str false true = refl
Agrees-refused j str false false = (str, rw add-zero, rw (add-zero, append-nil))

Agrees-branch :
    (j : ℕ) (str : List ℕ) (a b c : Bool) (s₁ s₂ s₃ s₄ : Option (List ℕ))
    (o₁ o₂ o₃ o₄ : Option (List ℕ × ℕ))
    → Agrees j str s₁ o₁
    → Agrees j str s₂ o₂
    → Agrees j str s₃ o₃
    → Agrees j str s₄ o₄
    → Agrees j str
        (if a then s₁ else if b then s₂ else if c then s₃ else s₄)
        (if a then o₁ else if b then o₂ else if c then o₃ else o₄)
Agrees-branch j str true b c _ _ _ _ _ _ _ _ p q r s = p
Agrees-branch j str false true c _ _ _ _ _ _ _ _ p q r s = q
Agrees-branch j str false false true _ _ _ _ _ _ _ _ p q r s = r
Agrees-branch j str false false false _ _ _ _ _ _ _ _ p q r s = s

-- The decoder's tests on the position of a padding character, by what follows it.
padding_early :
    (cs : List ℕ) (i len : ℕ) → len ≡ i + suc (length cs) → ltb i (len - 2) ≡ ltb 1 (length cs)
padding_early cs i len e = ground arith

padding_alone :
    (c : ℕ) (cs str : List ℕ) (i len : ℕ)
    → drop i str ≡ c ∷ cs
    → len ≡ i + suc (length cs)
    → 2 ≤ len
    → ((i == len - 2) && not (get_or str (i + 1) 0 == b'='))
      ≡ ((length cs == 1) && not (get_or cs 0 0 == b'='))
padding_alone c [] str i len d e two = ground arith
padding_alone c (x ∷ xs) str i len d e two =
    ground (arith, drop-get_or (i + 1) str {c = x} {cs = xs} (rw add-one (drop-suc i str d)))

-- The last character of the string, or the last but one, may be padding.
place_padding :
    (c : ℕ) (cs str : List ℕ) (len i j val_c : ℕ)
    → sextet c ≡ padding
    → drop i str ≡ c ∷ cs
    → length str ≡ len
    → 2 ≤ len
    → Agrees j str
        (decode_stream (c ∷ cs) i val_c)
        (decode_loop (suc (length cs)) str len i j val_c)
unfolding decode_stream decode_loop
place_padding c cs str len i j val_c e d l two =
    rw (drop-get_or i str d, decode_loop)
      (rw (e, decode_stream, decode_loop)
        (rw (padding_early cs i len len_eq, padding_alone c cs str i len d len_eq two)
          (Agrees-refused j str (ltb 1 (length cs)) _)))
  where
    len_eq : len ≡ i + suc (length cs)
    len_eq = sym l ∙ length-drop i str d

place_value :
    (c : ℕ) (cs str : List ℕ) (len i j val_c v : ℕ)
    → sextet c ≡ value v
    → drop i str ≡ c ∷ cs
    → length str ≡ len
    → j ≤ i
    → ((str' : List ℕ) (j' val' : ℕ)
        → drop (i + 1) str' ≡ cs
        → length str' ≡ len
        → j' ≤ i + 1
        → Agrees j' str'
            (decode_stream cs (i + 1) val')
            (decode_loop (length cs) str' len (i + 1) j' val'))
    → Agrees j str
        (decode_stream (c ∷ cs) i val_c)
        (decode_loop (suc (length cs)) str len i j val_c)
unfolding decode_stream decode_loop
place_value c cs str len i j val_c v e d l h ih =
    rw (drop-get_or i str d, decode_loop)
      (rw (e, decode_stream, decode_loop)
        (Agrees-branch j str (i % 4 == 0) (i % 4 == 1) (i % 4 == 2) _ _ _ _ _ _ _ _ (skipped _)
          (wrote _ _) (wrote _ _) (wrote _ _)))
  where
    wrote :
        (b val' : ℕ)
        → Agrees j str
            (push b (decode_stream cs (i + 1) val'))
            (decode_loop (length cs) (set str j b) len (i + 1) (j + 1) val')
    wrote b val' =
        Agrees-push j str b (decode_stream cs (i + 1) val') _ (in_range str len i j d l h) (
          ih (set str j b) (j + 1) val' (drop_written str len i j d l h b) (length-set str j b ∙ l)
            (omega arith))

    skipped :
        (val' : ℕ)
        → Agrees j str
            (decode_stream cs (i + 1) val')
            (decode_loop (length cs) str len (i + 1) j val')
    skipped val' = ih str j val' (drop_next str len i j d l h) l (omega arith)

pub in_place :
    (cs str : List ℕ) (len i j val_c : ℕ)
    → drop i str ≡ cs
    → length str ≡ len
    → 2 ≤ len
    → j ≤ i
    → Agrees j str (decode_stream cs i val_c) (decode_loop (length cs) str len i j val_c)
unfolding decode_stream decode_loop
in_place [] str len i j val_c d l two h = (str, rw add-zero, rw (add-zero, append-nil))
in_place (c ∷ cs) str len i j val_c d l two h = elim (Sextet-cases (sextet c)) [
  | inl (inl e) ↦ rw (drop-get_or i str d, decode_loop) (rw (e, decode_stream, decode_loop) refl)
  | inl (inr e) ↦ place_padding c cs str len i j val_c e d l two
  | inr (v, e) ↦
      place_value c cs str len i j val_c v e d l h
        (λ str' j' val' d' l' h'. in_place cs str' len (i + 1) j' val' d' l' two h')
]
