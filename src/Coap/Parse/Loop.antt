-- ===== src/Coap/Parse/Loop.antt =====
-- The loop over the options: its fuel suffices, and it reads an option that was serialised.
use knx_iot_stack.Prelude.{
  ℕ, zero, suc, ◌+◌, ◌/◌, ◌%◌, ◌^◌, ◌≤◌, ◌<◌, ◌≡◌, refl, sym, ap, ◌∙◌, inl, inr, arith, Bool, true,
  false, List, [], ◌∷◌, ◌++◌, ltb, length, take, drop, bit_and, Bool-cases, length-append,
  length-drop, take-append, dec_lt, drop-append,
}
use knx_iot_stack.Coap.Options.{
  Read, got, overread, parse_extended, parse_option_header, is_payload_marker, set_option_header,
}
use knx_iot_stack.Coap.Options.Headers.{
  parse-set_option_header, set_option_header-marker, header_limit,
}
use knx_iot_stack.Coap.Packet.{Packet, bad_option}
use knx_iot_stack.Coap.Parse.{
  Outcome, parsed, failed, overrun, overflow, out_of_fuel, go_on, take_option, note_option,
  parse_behind, parse_value, parse_one, parse_loop,
}

-- What is left after a read is no longer than what was there.
abbrev pub AtMost {ℓ} : {A : Type ℓ} → ℕ → Read A → Type 0
AtMost n (got a rest) = length rest ≤ n
AtMost n overread = Unit

parse_extended-AtMost :
    (nibble : ℕ) (bytes : List ℕ) → AtMost (length bytes) (parse_extended nibble bytes)
unfolding parse_extended
parse_extended-AtMost nibble [] = ground arith
parse_extended-AtMost nibble (b ∷ []) = ground arith
parse_extended-AtMost nibble (b ∷ c ∷ bytes) = ground arith

AtMost-le {ℓ} : {A : Type ℓ} (m n : ℕ) (r : Read A) → m ≤ n → AtMost m r → AtMost n r
AtMost-le m n (got a rest) l h = omega (arith, l, h)
AtMost-le m n overread l h = tt

with_delta :
    (n delta : ℕ) (r : Read ℕ)
    → AtMost n r
    → AtMost n (elim r as (λ _. Read (ℕ × ℕ)) [
      | got len rest ↦ got (delta, len) rest
      | overread ↦ overread
    ])
with_delta n delta (got len rest) h = h
with_delta n delta overread h = tt

-- The second read of a header, after the first.
second_read :
    (n low : ℕ) (r : Read ℕ)
    → AtMost n r
    → AtMost n (elim r as (λ _. Read (ℕ × ℕ)) [
      | overread ↦ overread
      | got delta bytes ↦ elim (parse_extended low bytes) as (λ _. Read (ℕ × ℕ)) [
        | overread ↦ overread
        | got len rest ↦ got (delta, len) rest
      ]
    ])
second_read n low overread h = tt
second_read n low (got delta bytes) h =
    with_delta n delta (parse_extended low bytes)
      (AtMost-le (length bytes) n (parse_extended low bytes) h (parse_extended-AtMost low bytes))

pub header-AtMost :
    (b : ℕ) (bytes : List ℕ) → AtMost (length bytes) (parse_option_header (b ∷ bytes))
unfolding parse_option_header
header-AtMost b bytes =
    second_read (length bytes) (bit_and b 15) (parse_extended (b / 16) bytes)
      (parse_extended-AtMost (b / 16) bytes)

go_on_cong :
    (o : Outcome) (k k' : Packet → Outcome) → ((p : Packet) → k p ≡ k' p) → go_on o k ≡ go_on o k'
go_on_cong (parsed p) k k' h = h p
go_on_cong (failed s p) k k' h = refl
go_on_cong overrun k k' h = refl
go_on_cong overflow k k' h = refl
go_on_cong out_of_fuel k k' h = refl

module _ (max_app_data_size : ℕ) (inner outer oscore : Bool) where
  parse_value_short :
      (f : List ℕ → ℕ → Packet → Outcome) (number len : ℕ) (rest : List ℕ) (pkt : Packet)
      → length rest < len
      → parse_value max_app_data_size inner outer oscore f number len rest pkt
        ≡ failed bad_option (note_option number pkt)
  unfolding parse_value
  parse_value_short f number len rest pkt h =
      let short : ltb (length rest) len ≡ true = ground arith in rw (short, parse_value) refl

  parse_value_long :
      (f : List ℕ → ℕ → Packet → Outcome) (number len : ℕ) (rest : List ℕ) (pkt : Packet)
      → len ≤ length rest
      → parse_value max_app_data_size inner outer oscore f number len rest pkt
        ≡ go_on
            (take_option inner outer oscore number
              (take len rest)
              (drop len rest)
              (note_option number pkt))
            (f (drop len rest) number)
  unfolding parse_value
  parse_value_long f number len rest pkt h =
      let long : ltb (length rest) len ≡ false = ground arith in rw (long, parse_value) refl

  -- One round depends only on what the rest of the loop does with fewer bytes.
  module _ (f g : List ℕ → ℕ → Packet → Outcome) (limit : ℕ)
      (same : (rest : List ℕ) (n : ℕ) (p : Packet)
        → length rest ≤ limit
        → f rest n p ≡ g rest n p) where
    parse_behind_cong :
        (number : ℕ) (pkt : Packet) (r : Read (ℕ × ℕ))
        → AtMost limit r
        → parse_behind max_app_data_size inner outer oscore f number pkt r
          ≡ parse_behind max_app_data_size inner outer oscore g number pkt r
    unfolding parse_behind
    parse_behind_cong number pkt overread h = refl
    parse_behind_cong number pkt (got (delta, len) rest) h = elim (dec_lt (length rest) len) [
      | yes short ↦
          parse_value_short f _ len rest pkt short ∙ sym (parse_value_short g _ len rest pkt short)
      | no long ↦
          parse_value_long f _ len rest pkt (omega arith)
          ∙ go_on_cong _ _ _
              (λ p. same (drop len rest) _ p (omega (arith, h, length-drop len rest)))
          ∙ sym (parse_value_long g _ len rest pkt (omega arith))
    ]

    parse_one_cong :
        (b : ℕ) (bytes : List ℕ) (number : ℕ) (pkt : Packet)
        → length bytes ≤ limit
        → parse_one max_app_data_size inner outer oscore f b bytes number pkt
          ≡ parse_one max_app_data_size inner outer oscore g b bytes number pkt
    unfolding parse_one
    parse_one_cong b bytes number pkt l = elim (Bool-cases (is_payload_marker b)) [
      | inl marker ↦ rw (marker, parse_one) refl
      | inr option ↦
          rw (option, parse_one)
            (parse_behind_cong number pkt (parse_option_header (b ∷ bytes))
              (AtMost-le _ limit _ l (header-AtMost b bytes)))
    ]

  abbrev loop : ℕ → List ℕ → ℕ → Packet → Outcome
  loop = parse_loop max_app_data_size inner outer oscore

  -- Any fuel above the number of bytes gives the same outcome.
  pub parse_loop-fuel :
      (f g : ℕ) (bytes : List ℕ) (number : ℕ) (pkt : Packet)
      → length bytes < f
      → length bytes < g
      → loop f bytes number pkt ≡ loop g bytes number pkt
  unfolding parse_loop
  parse_loop-fuel zero g bytes number pkt hf hg = elim hf [ ]
  parse_loop-fuel (suc f) zero bytes number pkt hf hg = elim hg [ ]
  parse_loop-fuel (suc f) (suc g) [] number pkt hf hg = refl
  parse_loop-fuel (suc f) (suc g) (b ∷ bytes) number pkt hf hg =
      parse_one_cong (loop f) (loop g) (length bytes)
        (λ rest n p l. parse_loop-fuel f g rest n p (omega arith) (omega arith)) b bytes number pkt
        (omega arith)

  -- The loop with as much fuel as its bytes need.
  abbrev pub parse_from : List ℕ → ℕ → Packet → Outcome
  parse_from bytes = loop (suc (length bytes)) bytes

  -- One round at bytes that begin with the header of an option.
  parse_one-header :
      (f : List ℕ → ℕ → Packet → Outcome) (b : ℕ) (bytes : List ℕ) (number : ℕ) (pkt : Packet)
      (delta len : ℕ) (rest : List ℕ)
      → is_payload_marker b ≡ false
      → parse_option_header (b ∷ bytes) ≡ got (delta, len) rest
      → len ≤ length rest
      → parse_one max_app_data_size inner outer oscore f b bytes number pkt
        ≡ go_on
            (take_option inner outer oscore
              ((number + delta) % 2 ^ 32)
              (take len rest)
              (drop len rest)
              (note_option ((number + delta) % 2 ^ 32) pkt))
            (f (drop len rest) ((number + delta) % 2 ^ 32))
  unfolding parse_one
  parse_one-header f b bytes number pkt delta len rest option header enough =
      rw (option, parse_one) (rw header (parse_value_long f _ len rest pkt enough))

  -- The bytes of an option, its header split into its first byte and the others.
  parse_from-split :
      (delta : ℕ) (value rest : List ℕ) (number : ℕ) (pkt : Packet) (b : ℕ) (bytes : List ℕ)
      → delta < header_limit
      → length value < header_limit
      → set_option_header delta (length value) ≡ b ∷ bytes
      → is_payload_marker b ≡ false
      → parse_from (b ∷ bytes ++ (value ++ rest)) number pkt
        ≡ go_on
            (take_option inner outer oscore
              ((number + delta) % 2 ^ 32)
              value
              rest
              (note_option ((number + delta) % 2 ^ 32) pkt))
            (parse_from rest ((number + delta) % 2 ^ 32))
  unfolding parse_loop
  parse_from-split delta value rest number pkt b bytes hd hl e option =
      let header : parse_option_header (b ∷ bytes ++ (value ++ rest))
          ≡ got (delta, length value) (value ++ rest) =
        ap (λ h. parse_option_header (h ++ (value ++ rest))) (sym e)
        ∙ parse-set_option_header delta (length value) (value ++ rest) hd hl in
      parse_one-header (loop (length (b ∷ bytes ++ (value ++ rest)))) b (bytes ++ (value ++ rest))
        number pkt delta (length value) (value ++ rest) option header
        (omega (arith, length-append value rest))
      ∙ rw (take-append value rest, drop-append value rest)
          (go_on_cong _ _ _ (λ p.
            parse_loop-fuel (length (b ∷ bytes ++ (value ++ rest))) (suc (length rest)) rest _ p
              (omega (arith, length-append bytes (value ++ rest), length-append value rest))
              (omega arith)))

  -- An option that was serialised is read by one round.
  pub parse_from-option :
      (delta : ℕ) (value rest : List ℕ) (number : ℕ) (pkt : Packet)
      → delta < header_limit
      → length value < header_limit
      → parse_from (set_option_header delta (length value) ++ (value ++ rest)) number pkt
        ≡ go_on
            (take_option inner outer oscore
              ((number + delta) % 2 ^ 32)
              value
              rest
              (note_option ((number + delta) % 2 ^ 32) pkt))
            (parse_from rest ((number + delta) % 2 ^ 32))
  parse_from-option delta value rest number pkt hd hl =
      let (b, bytes, e, option) = set_option_header-marker delta (length value) in
      ap (λ h. parse_from (h ++ (value ++ rest)) number pkt) e
      ∙ parse_from-split delta value rest number pkt b bytes hd hl e option
