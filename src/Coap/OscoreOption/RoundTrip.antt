-- ===== src/Coap/OscoreOption/RoundTrip.antt =====
-- The OSCORE option: what is written is read back.
use knx_iot_stack.Prelude.{
  ℕ, suc, ◌+◌, ◌-◌, ◌^◌, ◌≤◌, ◌<◌, ◌≡◌, ◌≢◌, refl, sym, ap, ◌∙◌, arith, append_assoc, true, List,
  [], ◌∷◌, ◌++◌, ltb, ◌==◌, if◌then◌else◌, length, ℕ_discrete, bit_and, length-append, take-append,
  drop-append,
}
use knx_iot_stack.Coap.Packet.{Packet}
use knx_iot_stack.Coap.OscoreOption.{
  Stored, stored, copy, parse_piv, parse_kid_ctx, parse_kid, parse_parts, parse_oscore_option,
  Cursor, count_down, oscore_option_length, oscore_value, kid_ctx_bytes, kid_ctx_from,
}

-- A packet whose flags say which parts it has, and whose parts fit in their arrays.
pub record HasOscore (pkt : Packet) : Type 0 where
  pub piv_flags : bit_and pkt.oscore_flags 0x07 ≡ length pkt.piv
  pub piv_fits : length pkt.piv ≤ 5
  pub kid_ctx_flag : (bit_and pkt.oscore_flags 0x10 == 0) ≡ (length pkt.kid_ctx == 0)
  pub kid_ctx_fits : length pkt.kid_ctx ≤ 16
  pub kid_flag : (bit_and pkt.oscore_flags 0x08 == 0) ≡ (length pkt.kid == 0)
  pub kid_fits : length pkt.kid ≤ 7

copy-append :
    (size : ℕ) (xs ys : List ℕ) → length xs ≤ size → copy size (length xs) (xs ++ ys) ≡ stored xs
unfolding copy
copy-append size xs ys h = ground (arith, length-append xs ys, take-append xs ys)

nil_of_length : (xs : List ℕ) → length xs ≡ 0 → xs ≡ []
nil_of_length [] h = refl
nil_of_length (x ∷ xs) h = absurd (omega (arith, h))

abbrev cursor : List ℕ → ℕ → Cursor
cursor bytes left = record { bytes = bytes; left = left }

module _ (q : Packet) where
  parse_piv-written :
      (piv ys : List ℕ) (left : ℕ)
      → bit_and q.oscore_flags 0x07 ≡ length piv
      → length piv ≤ 5
      → length piv ≤ left
      → left < 2 ^ 32
      → parse_piv (cursor (piv ++ ys) left) q
        ≡ stored (cursor ys (left - length piv), record q { piv = piv })
  unfolding parse_piv
  parse_piv-written [] ys left e f l m = ground arith
  parse_piv-written (x ∷ piv) ys left e f l m =
      ground (arith, copy-append 5 (x ∷ piv) ys f, drop-append (x ∷ piv) ys)

  parse_kid_ctx-written :
      (kid_ctx ys : List ℕ) (left : ℕ)
      → (bit_and q.oscore_flags 0x10 == 0) ≡ (length kid_ctx == 0)
      → length kid_ctx ≤ 16
      → length (kid_ctx_bytes kid_ctx) ≤ left
      → left < 2 ^ 32
      → q.kid_ctx ≡ []
      → parse_kid_ctx (cursor (kid_ctx_bytes kid_ctx ++ ys) left) q
        ≡ stored (cursor ys (left - length (kid_ctx_bytes kid_ctx)), record q { kid_ctx = kid_ctx })
  unfolding parse_kid_ctx kid_ctx_bytes kid_ctx_from
  parse_kid_ctx-written [] ys left e f l m n = ground arith
  parse_kid_ctx-written (x ∷ kid_ctx) ys left e f l m n =
      ground (arith, copy-append 16 (x ∷ kid_ctx) ys f, drop-append (x ∷ kid_ctx) ys)

  parse_kid-written :
      (kid ys : List ℕ)
      → (bit_and q.oscore_flags 0x08 == 0) ≡ (length kid == 0)
      → length kid ≤ 7
      → q.kid ≡ []
      → parse_kid (cursor (kid ++ ys) (length kid)) q ≡ stored (record q { kid = kid })
  unfolding parse_kid
  parse_kid-written [] ys e f n = ground arith
  parse_kid-written (x ∷ kid) ys e f n = ground (arith, copy-append 7 (x ∷ kid) ys f)

abbrev pub with_oscore : Packet → Packet → Packet
with_oscore pkt q = record q {
  oscore_flags = pkt.oscore_flags;
  piv = pkt.piv;
  kid_ctx = pkt.kid_ctx;
  kid = pkt.kid;
}

length-kid_ctx_bytes :
    (kid_ctx : List ℕ)
    → length (kid_ctx_bytes kid_ctx) ≡ length kid_ctx + (if ltb 0 (length kid_ctx) then 1 else 0)
unfolding kid_ctx_bytes
length-kid_ctx_bytes kid_ctx = ground arith

length-kid_ctx_bytes-le : (kid_ctx : List ℕ) → length (kid_ctx_bytes kid_ctx) ≤ length kid_ctx + 1
unfolding kid_ctx_bytes
length-kid_ctx_bytes-le kid_ctx = ground arith

parse_parts_steps :
    (c : Cursor) (q : Packet) {c' : Cursor} {q' : Packet} {c'' : Cursor} {q'' : Packet}
    {r : Stored Packet}
    → parse_piv c q ≡ stored (c', q')
    → parse_kid_ctx c' q' ≡ stored (c'', q'')
    → parse_kid c'' q'' ≡ r
    → parse_parts c q ≡ r
unfolding parse_parts
parse_parts_steps c q a b d = ground arith

empty_value : (bytes : List ℕ) (q : Packet) → parse_oscore_option bytes 0 q ≡ stored q
unfolding parse_oscore_option
empty_value [] q = refl
empty_value (b ∷ bytes) q = refl

nonempty_value :
    (flags : ℕ) (bytes : List ℕ) (n : ℕ) (q : Packet)
    → n < 2 ^ 32
    → parse_oscore_option (flags ∷ bytes) (suc n) q
      ≡ parse_parts (cursor bytes n) (record q { oscore_flags = flags })
unfolding parse_oscore_option
nonempty_value flags bytes n q l =
    let e : count_down (suc n) 1 ≡ n = omega arith in ground (arith, e)

module _ (stale : List ℕ) (pkt : Packet) (h : HasOscore pkt) where
  -- Without flags there are no parts.
  no_parts :
      pkt.oscore_flags ≡ 0 → (length pkt.piv ≡ 0) × (length pkt.kid_ctx ≡ 0) × (length pkt.kid ≡ 0)
  no_parts e =
      let a : 0 ≡ length pkt.piv = sym (ap (λ f. bit_and f 0x07) e) ∙ h.piv_flags in
      let b : true ≡ (length pkt.kid_ctx == 0) =
        sym (ap (λ f. bit_and f 0x10 == 0) e) ∙ h.kid_ctx_flag in
      let c : true ≡ (length pkt.kid == 0) = sym (ap (λ f. bit_and f 0x08 == 0) e) ∙ h.kid_flag in
      ground arith

  -- Without flags the value is empty.
  no_value : pkt.oscore_flags ≡ 0 → oscore_option_length pkt ≡ 0
  unfolding oscore_option_length
  no_value e = ground (arith, no_parts e)

  written :
      pkt.oscore_flags ≢ 0
      → oscore_value stale pkt ≡ pkt.oscore_flags ∷ pkt.piv ++ kid_ctx_bytes pkt.kid_ctx ++ pkt.kid
  unfolding oscore_value
  written n = ground arith

  unwritten : pkt.oscore_flags ≡ 0 → oscore_value stale pkt ≡ []
  unfolding oscore_value
  unwritten e = ground (arith, no_value e)

  length-parts :
      length (pkt.piv ++ kid_ctx_bytes pkt.kid_ctx ++ pkt.kid)
      ≡ length pkt.piv + length (kid_ctx_bytes pkt.kid_ctx) + length pkt.kid
  length-parts = omega (
    arith,
    length-append (pkt.piv ++ kid_ctx_bytes pkt.kid_ctx) pkt.kid,
    length-append pkt.piv (kid_ctx_bytes pkt.kid_ctx),
  )

  -- The length that is announced is that of the value.
  pub length-oscore_value : length (oscore_value stale pkt) ≡ oscore_option_length pkt
  length-oscore_value = elim (ℕ_discrete pkt.oscore_flags 0) [
    | yes e ↦ ap length (unwritten e) ∙ sym (no_value e)
    | no n ↦ ap length (written n) ∙ announced n
  ]
    where
      announced :
          pkt.oscore_flags ≢ 0
          → length (pkt.oscore_flags ∷ pkt.piv ++ kid_ctx_bytes pkt.kid_ctx ++ pkt.kid)
            ≡ oscore_option_length pkt
      announced n =
          let one : (if◌then◌else◌ {A = ℕ} (ltb 0 pkt.oscore_flags) 1 0) ≡ 1 = ground arith in
          unfold oscore_option_length in
          omega (arith, one, length-parts, length-kid_ctx_bytes pkt.kid_ctx)

  pub length-oscore_value-le : length (oscore_value stale pkt) ≤ 30
  unfolding oscore_option_length
  length-oscore_value-le = rw length-oscore_value (ground (arith, h))

  parse_parts-written :
      (following : List ℕ) (q : Packet)
      → q.oscore_flags ≡ pkt.oscore_flags
      → q.kid_ctx ≡ []
      → q.kid ≡ []
      → parse_parts
          (cursor
            ((pkt.piv ++ kid_ctx_bytes pkt.kid_ctx ++ pkt.kid) ++ following)
            (length (pkt.piv ++ kid_ctx_bytes pkt.kid_ctx ++ pkt.kid)))
          q
        ≡ stored (with_oscore pkt q)
  parse_parts-written following q f c d =
      rw (append_assoc (pkt.piv ++ kid_ctx_bytes pkt.kid_ctx), append_assoc pkt.piv, length-parts)
        (parse_parts_steps _ q
          (parse_piv-written q pkt.piv (kid_ctx_bytes pkt.kid_ctx ++ (pkt.kid ++ following))
            (length pkt.piv + length (kid_ctx_bytes pkt.kid_ctx) + length pkt.kid)
            (ap (λ x. bit_and x 0x07) f ∙ h.piv_flags) h.piv_fits (omega arith)
            (omega (arith, h, length-kid_ctx_bytes-le pkt.kid_ctx)))
          (parse_kid_ctx-written (record q { piv = pkt.piv }) pkt.kid_ctx (pkt.kid ++ following)
            (length pkt.piv + length (kid_ctx_bytes pkt.kid_ctx) + length pkt.kid - length pkt.piv)
            (ap (λ x. bit_and x 0x10 == 0) f ∙ h.kid_ctx_flag) h.kid_ctx_fits (omega arith)
            (omega (arith, h, length-kid_ctx_bytes-le pkt.kid_ctx)) c)
          (ap
              (λ n.
                parse_kid (cursor (pkt.kid ++ following) n)
                  (record q { piv = pkt.piv; kid_ctx = pkt.kid_ctx }))
              left_over
            ∙ parse_kid-written (record q { piv = pkt.piv; kid_ctx = pkt.kid_ctx }) pkt.kid
                following (ap (λ x. bit_and x 0x08 == 0) f ∙ h.kid_flag) h.kid_fits d
            ∙ ap
                (λ x. stored (record q {
                  oscore_flags = x;
                  piv = pkt.piv;
                  kid_ctx = pkt.kid_ctx;
                  kid = pkt.kid;
                }))
                f))
    where
      left_over :
          length pkt.piv
            + length (kid_ctx_bytes pkt.kid_ctx)
            + length pkt.kid
            - length pkt.piv
            - length (kid_ctx_bytes pkt.kid_ctx)
          ≡ length pkt.kid
      left_over = omega arith

  -- The OSCORE option that is written for a packet is read back into a packet whose flags, Partial IV, kid
  -- context and kid are empty: it then has those that were written, and what follows the option is left
  -- alone. The lengths in the written packet agree with its flags and fit in the arrays.
  pub parse-oscore_value :
      (following : List ℕ) (q : Packet)
      → q.oscore_flags ≡ 0
      → q.piv ≡ []
      → q.kid_ctx ≡ []
      → q.kid ≡ []
      → parse_oscore_option
          (oscore_value stale pkt ++ following)
          (length (oscore_value stale pkt))
          q
        ≡ stored (with_oscore pkt q)
  parse-oscore_value following q a b c d = elim (ℕ_discrete pkt.oscore_flags 0) [
    | yes e ↦ rw (unwritten e) (empty_value following q ∙ ap stored (unchanged e))
    | no n ↦ rw (written n) (
        nonempty_value pkt.oscore_flags
          ((pkt.piv ++ kid_ctx_bytes pkt.kid_ctx ++ pkt.kid) ++ following)
          (length (pkt.piv ++ kid_ctx_bytes pkt.kid_ctx ++ pkt.kid)) q
          (omega (arith, h, length-parts, length-kid_ctx_bytes-le pkt.kid_ctx))
        ∙ parse_parts-written following (record q { oscore_flags = pkt.oscore_flags }) refl c d)
  ]
    where
      unchanged : pkt.oscore_flags ≡ 0 → q ≡ with_oscore pkt q
      unchanged e =
          let (p, k, l) = no_parts e in
          ground
            (arith, nil_of_length pkt.piv p, nil_of_length pkt.kid_ctx k, nil_of_length pkt.kid l)
