-- ===== src/Coap/Serialize/Parts.antt =====
-- The parts of a path or of a query: joined again they are the text, for a text that neither begins nor
-- ends with the separator.
use knx_iot_stack.Prelude.{
  ℕ, ◌+◌, ◌<◌, ◌≡◌, ◌≢◌, refl, inl, inr, arith, append_assoc, Bool, false, List, [], ◌∷◌, ◌++◌,
  ◌==◌, length, Bool-cases, length-append, append-nil,
}
use knx_iot_stack.Coap.Parse.{merge_multi_option}
use knx_iot_stack.Coap.Serialize.{parts_behind, parts_from}

-- A text begins, or ends, with the byte.
abbrev pub begins_with : ℕ → List ℕ → Bool
begins_with c [] = false
begins_with c (b ∷ bytes) = b == c

abbrev pub ends_with : ℕ → List ℕ → Bool
ends_with c [] = false
ends_with c (b ∷ []) = b == c
ends_with c (b ∷ d ∷ bytes) = ends_with c (d ∷ bytes)

-- What the parser makes of a sequence of options of one number.
unfoldable pub merge_all : ℕ → List ℕ → List (List ℕ) → List ℕ
merge_all separator dst [] = dst
merge_all separator dst (part ∷ parts) =
    merge_all separator (merge_multi_option dst part separator) parts

ends_with_tail :
    (c b : ℕ) (bytes : List ℕ) → ends_with c (b ∷ bytes) ≡ false → ends_with c bytes ≡ false
ends_with_tail c b [] h = refl
ends_with_tail c b (d ∷ bytes) h = h

merge-nonempty :
    (separator x : ℕ) (dst option : List ℕ)
    → merge_multi_option (x ∷ dst) option separator ≡ x ∷ dst ++ separator ∷ option
unfolding merge_multi_option
merge-nonempty separator x dst option = ground arith

merge-empty : (separator : ℕ) (option : List ℕ) → merge_multi_option [] option separator ≡ option
unfolding merge_multi_option
merge-empty separator option = refl

-- Every part is shorter than a bound.
abbrev pub AllBelow : ℕ → List (List ℕ) → Type 0
AllBelow n [] = Unit
AllBelow n (part ∷ parts) = (length part < n) × AllBelow n parts

module _ (separator : ℕ) (behind : ℕ × ℕ) where
  -- Parts behind others, the current one not empty.
  merge_more :
      (bytes dst : List ℕ) (x d : ℕ) (part : List ℕ)
      → ends_with separator bytes ≡ false
      → merge_all separator (x ∷ dst) (parts_from separator behind (d ∷ part) bytes)
        ≡ x ∷ dst ++ separator ∷ d ∷ part ++ bytes
  unfolding merge_all parts_from
  merge_more [] dst x d part h = rw (merge-nonempty, append-nil) refl
  merge_more (c ∷ []) dst x d part h = ground (
    arith,
    merge-nonempty separator x dst (d ∷ part ++ c ∷ []),
    append_assoc dst (separator ∷ d ∷ part) (c ∷ []),
  )
  merge_more (c ∷ e ∷ bytes) dst x d part h = ground (
    arith,
    merge-nonempty separator x dst (d ∷ part),
    merge_more bytes (dst ++ separator ∷ d ∷ part) x e [] (ends_with_tail separator e bytes h),
    append_assoc dst (separator ∷ d ∷ part) (separator ∷ e ∷ bytes),
    append_assoc (dst ++ separator ∷ d ∷ part) (separator ∷ e ∷ []) bytes,
    merge_more (e ∷ bytes) dst x d (part ++ c ∷ []) h,
    append_assoc dst (separator ∷ d ∷ part) (c ∷ e ∷ bytes),
    append_assoc part (c ∷ []) (e ∷ bytes),
    append_assoc dst (separator ∷ d ∷ part ++ c ∷ []) (e ∷ bytes),
  )

  -- The first part, not empty so far.
  merge_first :
      (bytes : List ℕ) (d : ℕ) (part : List ℕ)
      → ends_with separator bytes ≡ false
      → merge_all separator [] (parts_from separator behind (d ∷ part) bytes) ≡ d ∷ part ++ bytes
  unfolding merge_all parts_from
  merge_first [] d part h = rw (merge-empty, append-nil) refl
  merge_first (c ∷ []) d part h = ground (arith, merge-empty separator (d ∷ part ++ c ∷ []))
  merge_first (c ∷ e ∷ bytes) d part h = ground (
    arith,
    merge-empty separator (d ∷ part),
    merge_more bytes part d e [] (ends_with_tail separator e bytes h),
    append_assoc part (separator ∷ e ∷ []) bytes,
    merge_first (e ∷ bytes) d (part ++ c ∷ []) h,
    append_assoc part (c ∷ []) (e ∷ bytes),
  )

  -- The parts of a text that neither begins nor ends with the separator are joined to the text.
  pub merge_all-parts_from :
      (bytes : List ℕ)
      → begins_with separator bytes ≡ false
      → ends_with separator bytes ≡ false
      → merge_all separator [] (parts_from separator behind [] bytes) ≡ bytes
  unfolding merge_all parts_from
  merge_all-parts_from [] b h = merge-empty separator []
  merge_all-parts_from (c ∷ []) b h = ground (arith, merge-empty separator (c ∷ []))
  merge_all-parts_from (c ∷ e ∷ bytes) b h = ground (arith, merge_first (e ∷ bytes) c [] h)

  -- The parts are below a bound above the length of the text and above one.
  pub parts_from-AllBelow :
      (n : ℕ) (part bytes : List ℕ)
      → 1 < n
      → length part + length bytes < n
      → AllBelow n (parts_from separator behind part bytes)
  unfolding parts_from parts_behind
  parts_from-AllBelow n part [] o h = (omega (arith, h), tt)
  parts_from-AllBelow n part (c ∷ []) o h = elim (Bool-cases (c == separator)) [
    | inl at ↦ rw at (
      omega (arith, h),
      elim (Bool-cases (behind.1 == separator)) [ inl b ↦ rw b (o, tt) | inr b ↦ rw b tt ],
    )
    | inr off ↦ rw off (omega (arith, h, length-append part (c ∷ [])), tt)
  ]
  parts_from-AllBelow n part (c ∷ e ∷ bytes) o h = elim (Bool-cases (c == separator)) [
    | inl at ↦ rw at (omega (arith, h), parts_from-AllBelow n (e ∷ []) bytes o (omega (arith, h)))
    | inr off ↦ rw off (
        parts_from-AllBelow n (part ++ c ∷ []) (e ∷ bytes) o
          (omega (arith, h, length-append part (c ∷ []))))
  ]

  -- There is at least one part.
  pub parts_from-nonempty : (part bytes : List ℕ) → parts_from separator behind part bytes ≢ []
  unfolding parts_from
  parts_from-nonempty part [] = λ h. cc
  parts_from-nonempty part (c ∷ []) = λ h. ground arith
  parts_from-nonempty part (c ∷ e ∷ bytes) = λ h. elim (Bool-cases (c == separator)) [
    | inl at ↦ ground arith
    | inr off ↦ parts_from-nonempty (part ++ c ∷ []) (e ∷ bytes) (ground arith)
  ]
