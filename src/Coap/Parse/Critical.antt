-- ===== src/Coap/Parse/Critical.antt =====
-- Critical options: a message is taken only if the loop knows every option with an odd number.
use knx_iot_stack.Prelude.{
  ℕ, ◌+◌, ◌-◌, ◌%◌, ◌^◌, ◌≤◌, ◌<◌, ◌≡◌, sym, ap, ◌∙◌, arith, append_assoc, Bool, true, false, ◌||◌,
  List, [], ◌∷◌, ◌++◌, ◌==◌, length, inl, inr, Bool-cases,
}
use knx_iot_stack.Coap.Options.{set_option_header}
use knx_iot_stack.Coap.Packet.{Packet, bad_option, no_options}
use knx_iot_stack.Coap.Parse.{
  Outcome, parsed, failed, overrun, overflow, out_of_fuel, go_on, take_option, note_option,
  parse_options,
}
use knx_iot_stack.Coap.Parse.Loop.{parse_from, parse_from-option}

-- The numbers that the `switch` names.
unfoldable pub is_known : ℕ → Bool
is_known n =
    n == 9
    || n == 12
    || n == 14
    || n == 4
    || n == 17
    || n == 35
    || n == 3
    || n == 7
    || n == 11
    || n == 15
    || n == 6
    || n == 23
    || n == 27
    || n == 28
    || n == 60
    || n == 252
    || n == 2053
    || n == 2049

-- Options in the order of their numbers, as they are encoded after an option with the first number.
unfoldable pub encode : ℕ → List (ℕ × List ℕ) → List ℕ
encode current [] = []
encode current ((number, value) ∷ options) =
    set_option_header (number - current) (length value) ++ (value ++ encode number options)

abbrev pub Ascending : ℕ → List (ℕ × List ℕ) → Type 0
Ascending current [] = Unit
Ascending current ((number, value) ∷ options) =
    (current ≤ number) × (number < 2 ^ 16) × (length value < 2 ^ 16) × Ascending number options

abbrev pub AllTolerable : List (ℕ × List ℕ) → Type 0
AllTolerable [] = Unit
AllTolerable ((number, value) ∷ options) =
    ((is_known number || number % 2 == 0) ≡ true) × AllTolerable options

regroup : (a b c d : List ℕ) → a ++ (b ++ (c ++ d)) ≡ (a ++ (b ++ c)) ++ d
regroup a b c d = simp append_assoc

module _ (max_app_data_size : ℕ) (inner outer oscore : Bool) where
  take_option-critical :
      (number : ℕ) (value following : List ℕ) (pkt : Packet)
      → (is_known number || number % 2 == 0) ≡ false
      → take_option inner outer oscore number value following pkt ≡ failed bad_option pkt
  unfolding take_option is_known
  take_option-critical number value following pkt h = ground arith

  -- What is parsed begins with an option that can be tolerated.
  go_on-tolerable :
      (number : ℕ) (value following : List ℕ) (pkt : Packet) (k : Packet → Outcome) (q : Packet)
      → go_on (take_option inner outer oscore number value following pkt) k ≡ parsed q
      → ((is_known number || number % 2 == 0) ≡ true) × (p : Packet) × (k p ≡ parsed q)
  go_on-tolerable number value following pkt k q h =
      elim (Bool-cases (is_known number || number % 2 == 0)) [
        | inl good ↦
            let (p, e) = continued (take_option inner outer oscore number value following pkt) h in
            (good, p, e)
        | inr critical ↦ absurd (
            no_parse (
              sym (ap (λ o. go_on o k) (take_option-critical number value following pkt critical))
              ∙ h))
      ]
    where
      continued : (o : Outcome) → go_on o k ≡ parsed q → (p : Packet) × (k p ≡ parsed q)
      continued (parsed p) e = (p, e)
      continued (failed s p) e = cc
      continued overrun e = cc
      continued overflow e = cc
      continued out_of_fuel e = cc

      no_parse : failed bad_option pkt ≡ parsed q → ⊥
      no_parse e = cc

  parse_from-tolerable :
      (options : List (ℕ × List ℕ)) (rest : List ℕ) (current : ℕ) (pkt q : Packet)
      → Ascending current options
      → parse_from max_app_data_size inner outer oscore (encode current options ++ rest) current pkt
        ≡ parsed q
      → AllTolerable options
  unfolding encode
  parse_from-tolerable [] rest current pkt q a h = tt
  parse_from-tolerable ((number, value) ∷ options) rest current pkt q (le, small, len, more) h =
      let total : (current + (number - current)) % 2 ^ 32 ≡ number = omega arith in
      let after = encode number options ++ rest in
      let step =
        parse_from-option max_app_data_size inner outer oscore (number - current) value after
          current pkt (omega arith) (omega arith) in
      let round : ℕ → Outcome = λ (n : ℕ).
        go_on (take_option inner outer oscore n value after (note_option n pkt))
          (parse_from max_app_data_size inner outer oscore after n) in
      let (good, p, e) =
        go_on-tolerable number value after (note_option number pkt)
          (parse_from max_app_data_size inner outer oscore after number) q
          (sym (ap round total)
            ∙ sym step
            ∙ ap (λ l. parse_from max_app_data_size inner outer oscore l current pkt)
                (regroup (set_option_header (number - current) (length value)) value
                  (encode number options) rest)
            ∙ h) in
      (good, parse_from-tolerable options rest number p q more e)

  -- If the parser takes a message, then each option in front of what else the message holds is one that
  -- it knows or has an even number. The options stand in the order of their numbers, which are below
  -- 2^16, as the lengths of their values are.
  pub parse_options-tolerable :
      (options : List (ℕ × List ℕ)) (rest : List ℕ) (pkt q : Packet)
      → Ascending 0 options
      → parse_options max_app_data_size inner outer oscore (encode 0 options ++ rest) pkt ≡ parsed q
      → AllTolerable options
  unfolding parse_options
  parse_options-tolerable options rest pkt q a h =
      parse_from-tolerable options rest 0 (record pkt { options = no_options }) q a h
