-- ===== src/Coap/Parse/Ends.antt =====
-- The option loop ends: the fuel that the model gives it is never used up.
use knx_iot_stack.Prelude.{
  ℕ, zero, suc, ◌+◌, ◌%◌, ◌^◌, ◌≤◌, ◌<◌, ◌≢◌, subst, arith, Bool, List, [], ◌∷◌, ltb, length, take,
  drop, length-drop, inl, inr, Bool-cases,
}
use knx_iot_stack.Coap.Options.{Read, got, overread, parse_option_header, is_payload_marker}
use knx_iot_stack.Coap.Packet.{Packet, no_options}
use knx_iot_stack.Coap.Parse.{
  Outcome, parsed, failed, overrun, overflow, out_of_fuel, go_on, take_option, note_option,
  parse_value, parse_behind, parse_one, parse_loop, parse_options,
}
use knx_iot_stack.Coap.Parse.Loop.{AtMost, header-AtMost}

abbrev HasEnded : Outcome → Type 0
HasEnded (parsed pkt) = Unit
HasEnded (failed status pkt) = Unit
HasEnded overrun = Unit
HasEnded overflow = Unit
HasEnded out_of_fuel = ⊥

go_on-HasEnded :
    (o : Outcome) (k : Packet → Outcome)
    → HasEnded o
    → ((q : Packet) → HasEnded (k q))
    → HasEnded (go_on o k)
go_on-HasEnded (parsed pkt) k h f = f pkt
go_on-HasEnded (failed status pkt) k h f = tt
go_on-HasEnded overrun k h f = tt
go_on-HasEnded overflow k h f = tt
go_on-HasEnded out_of_fuel k h f = h

module _ (max_app_data_size : ℕ) (inner outer oscore : Bool) where
  take_option-HasEnded :
      (number : ℕ) (value following : List ℕ) (pkt : Packet)
      → HasEnded (take_option inner outer oscore number value following pkt)
  unfolding take_option
  take_option-HasEnded number value following pkt = ground arith

  parse_behind-HasEnded :
      (loop : List ℕ → ℕ → Packet → Outcome) (limit number : ℕ) (pkt : Packet) (r : Read (ℕ × ℕ))
      → AtMost limit r
      → ((rest : List ℕ) (n : ℕ) (q : Packet) → length rest ≤ limit → HasEnded (loop rest n q))
      → HasEnded (parse_behind max_app_data_size inner outer oscore loop number pkt r)
  unfolding parse_behind
  parse_behind-HasEnded loop limit number pkt overread l h = tt
  parse_behind-HasEnded loop limit number pkt (got (delta, len) rest) l h =
      elim (Bool-cases (ltb (length rest) len)) [
        | inl short ↦ rw (short, parse_value) tt
        | inr long ↦
            let number' = (number + delta) % 2 ^ 32 in
            rw (long, parse_value)
              (go_on-HasEnded
                (take_option inner outer oscore number' (take len rest) (drop len rest)
                  (note_option number' pkt))
                (loop (drop len rest) number')
                (take_option-HasEnded number' (take len rest) (drop len rest)
                  (note_option number' pkt))
                (λ q. h (drop len rest) number' q (omega (arith, l, length-drop len rest))))
      ]

  parse_loop-HasEnded :
      (fuel : ℕ) (bytes : List ℕ) (number : ℕ) (pkt : Packet)
      → length bytes < fuel
      → HasEnded (parse_loop max_app_data_size inner outer oscore fuel bytes number pkt)
  unfolding parse_loop parse_one
  parse_loop-HasEnded zero bytes number pkt l = elim l [ ]
  parse_loop-HasEnded (suc fuel) [] number pkt l = tt
  parse_loop-HasEnded (suc fuel) (b ∷ bytes) number pkt l =
      elim (Bool-cases (is_payload_marker b)) [
        | inl marker ↦ rw (marker, parse_one) tt
        | inr option ↦
            rw (option, parse_one)
              (parse_behind-HasEnded _ (length bytes) number pkt (parse_option_header (b ∷ bytes))
                (header-AtMost b bytes)
                (λ rest n q m. parse_loop-HasEnded fuel rest n q (omega (arith, l, m))))
      ]

  -- The loop over the options ends on all bytes, with a packet, a code, a read behind the message, or a
  -- write behind an array of the OSCORE option.
  pub parse_options-ends :
      (bytes : List ℕ) (pkt : Packet)
      → parse_options max_app_data_size inner outer oscore bytes pkt ≢ out_of_fuel
  unfolding parse_options
  parse_options-ends bytes pkt e = subst HasEnded e (
      parse_loop-HasEnded (suc (length bytes)) bytes 0 (record pkt { options = no_options })
        (omega arith))
