-- ===== src/Coap/RoundTrip/Steps.antt =====
-- What one serialised option does to a parser: the simulation of the serialiser by the option loop.
use knx_iot_stack.Prelude.{
  ℕ, ◌+◌, ◌-◌, ◌%◌, ◌^◌, ◌≤◌, ◌<◌, ◌≡◌, ◌≢◌, refl, ap, ◌∙◌, arith, append_assoc, Bool, true, false,
  List, [], ◌∷◌, ◌++◌, ◌==◌, length,
}
use knx_iot_stack.Coap.Options.{set_option_header, int_value, serialize_int_option}
use knx_iot_stack.Coap.Options.Headers.{header_limit}
use knx_iot_stack.Coap.Options.Integers.{length-int_value}
use knx_iot_stack.Coap.Packet.{Packet, set_option}
use knx_iot_stack.Coap.Parse.{Outcome, parsed, go_on, take_option, note_option, merge_multi_option}
use knx_iot_stack.Coap.Parse.Loop.{parse_from, parse_from-option}
use knx_iot_stack.Coap.Serialize.{
  delta_of, serialize_parts, serialize_array_option, parts_from, Writer, write,
}
use knx_iot_stack.Coap.Serialize.Parts.{
  AllBelow, merge_all, begins_with, ends_with, merge_all-parts_from, parts_from-AllBelow,
  parts_from-nonempty,
}

module _ (max_app_data_size : ℕ) (inner outer oscore : Bool) where
  abbrev pub reads : List ℕ → ℕ → Packet → Outcome
  reads = parse_from max_app_data_size inner outer oscore

  -- The bytes of an option with a number that is taken lead from one packet to the other.
  pub one_option :
      (number current : ℕ) (value rest : List ℕ) (q q' : Packet)
      → current ≤ number
      → number < 2 ^ 16
      → length value < header_limit
      → take_option inner outer oscore number value rest (note_option number q) ≡ parsed q'
      → reads
          (set_option_header (delta_of number current) (length value) ++ (value ++ rest))
          current
          q
        ≡ reads rest number q'
  one_option number current value rest q q' le small len taken =
      let delta : delta_of number current ≡ number - current = omega arith in
      let total : (current + (number - current)) % 2 ^ 32 ≡ number = omega arith in
      rw delta (
        parse_from-option max_app_data_size inner outer oscore (number - current) value rest current
          q (omega arith) len
        ∙ rw total (ap (λ o. go_on o (reads rest number)) taken))

  -- The parser, at what is written so far, is at the packet `q`.
  pub record Carries (bound : ℕ) (start : Packet) (w : Writer) (q : Packet) : Type 0 where
    pub below : w.current_number ≤ bound
    pub leads : (rest : List ℕ) → reads (w.bytes ++ rest) 0 start ≡ reads rest w.current_number q

  -- An option that is written, or not: `u` says what becomes of the packet.
  pub carry :
      (set : Bool) (number : ℕ) (serialized : ℕ → List ℕ) (start : Packet) (w : Writer)
      (u : Bool → Packet) (bound : ℕ)
      → ((current : ℕ) (rest : List ℕ)
          → set ≡ true
          → current ≤ bound
          → reads (serialized current ++ rest) current (u false) ≡ reads rest number (u true))
      → bound ≤ number
      → Carries bound start w (u false)
      → Carries number start (write set number serialized w) (u set)
  carry false number serialized start w u bound step le c = record {
    below = omega (arith, c.below);
    leads = c.leads;
  }
  carry true number serialized start w u bound step le c = record {
    below = omega arith;
    leads = λ rest.
        ap (λ l. reads l 0 start) (append_assoc w.bytes (serialized w.current_number) rest)
        ∙ c.leads (serialized w.current_number ++ rest)
        ∙ step w.current_number rest refl c.below;
  }

  -- An integer option.
  pub int_option :
      (number current value : ℕ) (rest : List ℕ) (q q' : Packet)
      → current ≤ number
      → number < 2 ^ 16
      → value < 2 ^ 32
      → take_option inner outer oscore number (int_value value) rest (note_option number q)
        ≡ parsed q'
      → reads (serialize_int_option number current value ++ rest) current q ≡ reads rest number q'
  unfolding serialize_int_option
  int_option number current value rest q q' le small h taken =
      ap (λ l. reads l current q)
        (append_assoc (set_option_header (delta_of number current) (length (int_value value)))
          (int_value value) rest)
      ∙ one_option number current (int_value value) rest q q' le small
          (omega (arith, length-int_value value h)) taken

  -- An option that is not split.
  pub whole_option :
      (number current : ℕ) (value rest : List ℕ) (behind : ℕ × ℕ) (q q' : Packet)
      → current ≤ number
      → number < 2 ^ 16
      → length value < header_limit
      → take_option inner outer oscore number value rest (note_option number q) ≡ parsed q'
      → reads (serialize_array_option number current value 0 behind ++ rest) current q
        ≡ reads rest number q'
  unfolding serialize_array_option
  whole_option number current value rest behind q q' le small len taken =
      ap (λ l. reads l current q)
        (append_assoc (set_option_header (delta_of number current) (length value)) value rest)
      ∙ one_option number current value rest q q' le small len taken

  reorder :
      (number current : ℕ) (part : List ℕ) (parts : List (List ℕ)) (rest : List ℕ)
      → (set_option_header (delta_of number current) (length part)
            ++ part
            ++ serialize_parts number number parts)
          ++ rest
        ≡ set_option_header (delta_of number current) (length part)
          ++ (part ++ (serialize_parts number number parts ++ rest))
  reorder number current part parts rest = simp append_assoc

  -- The options of one number, for a field that they are joined in: `P` gives the packet for a map of
  -- options and a text.
  module _ (number separator : ℕ) (small : number < 2 ^ 16) (P : List ℕ → List ℕ → Packet)
      (taken : (options text value rest : List ℕ)
        → take_option inner outer oscore number value rest (note_option number (P options text))
          ≡ parsed (P (set_option number options) (merge_multi_option text value separator)))
      (options : List ℕ)
      (again : set_option number (set_option number options) ≡ set_option number options) where
    later_parts :
        (parts : List (List ℕ)) (rest text : List ℕ)
        → AllBelow header_limit parts
        → reads
            (serialize_parts number number parts ++ rest)
            number
            (P (set_option number options) text)
          ≡ reads rest number (P (set_option number options) (merge_all separator text parts))
    unfolding serialize_parts merge_all
    later_parts [] rest text h = refl
    later_parts (part ∷ parts) rest text h =
        ap (λ l. reads l number (P (set_option number options) text))
          (reorder number number part parts rest)
        ∙ one_option number number part (serialize_parts number number parts ++ rest) _ _
            (omega arith) small h.0
            (taken (set_option number options) text part
                (serialize_parts number number parts ++ rest)
              ∙ ap (λ o. parsed (P o (merge_multi_option text part separator))) again)
        ∙ later_parts parts rest (merge_multi_option text part separator) h.1

    -- The parts of an option, one or more.
    parts_option :
        (parts : List (List ℕ)) (current : ℕ) (rest text : List ℕ)
        → parts ≢ []
        → current ≤ number
        → AllBelow header_limit parts
        → reads (serialize_parts number current parts ++ rest) current (P options text)
          ≡ reads rest number (P (set_option number options) (merge_all separator text parts))
    unfolding serialize_parts merge_all
    parts_option [] current rest text n le h = absurd (n refl)
    parts_option (part ∷ parts) current rest text n le h =
        ap (λ l. reads l current (P options text)) (reorder number current part parts rest)
        ∙ one_option number current part (serialize_parts number number parts ++ rest) _ _ le small
            h.0 (taken options text part (serialize_parts number number parts ++ rest))
        ∙ later_parts parts rest (merge_multi_option text part separator) h.1

    -- An option that is split at a separator, which its text neither begins nor ends with.
    pub split_option :
        (current : ℕ) (array rest : List ℕ) (behind : ℕ × ℕ)
        → current ≤ number
        → (separator == 0) ≡ false
        → length array < 2 ^ 16
        → begins_with separator array ≡ false
        → ends_with separator array ≡ false
        → reads
            (serialize_array_option number current array separator behind ++ rest)
            current
            (P options [])
          ≡ reads rest number (P (set_option number options) array)
    unfolding serialize_array_option
    split_option current array rest behind le n len b e =
        rw (n, serialize_array_option)
          (parts_option (parts_from separator behind [] array) current rest []
              (parts_from-nonempty separator behind [] array) le
              (parts_from-AllBelow separator behind header_limit [] array (omega arith)
                (omega arith))
            ∙ ap (λ t. reads rest number (P (set_option number options) t))
                (merge_all-parts_from separator behind array b e))
