-- ===== src/Coap/RoundTrip/Marks.antt =====
-- The map of options of a message that is read: the options that were set and are sent.
use knx_iot_stack.Prelude.{
  ℕ, zero, suc, ◌/◌, ◌%◌, ◌^◌, ◌<◌, ◌≡◌, refl, ◌∙◌, arith, Bool, true, false, ◌&&◌, ◌||◌, List, [],
  ◌∷◌, ◌==◌, length, get_or, replicate, bit_and, ℕ_discrete,
}
use Prim.Native.Nat.{bit_and-bitwise}
use knx_iot_stack.Coap.Packet.{Packet, no_options, set_option, is_option, empty_packet}
use knx_iot_stack.Coap.Packet.Bitmap.{is_option-set_option, length-set_option}
use knx_iot_stack.Coap.RoundTrip.{mark, sent_options, with_options}
use knx_iot_stack.Coap.RoundTrip.Messages.{received}

-- A number is among the options that are sent.
abbrev is_sent : ℕ → List (Bool × ℕ) → Bool
is_sent n [] = false
is_sent n ((sent, number) ∷ more) = (sent && number == n) || is_sent n more

abbrev AllIn : List (Bool × ℕ) → Type 0
AllIn [] = Unit
AllIn ((sent, number) ∷ more) = (number < 256) × AllIn more

or_false : (b : Bool) → (b || false) ≡ b
or_false true = refl
or_false false = refl

get_or-zeros : (n i : ℕ) → get_or {A = ℕ} (replicate n 0) i 0 ≡ 0
get_or-zeros zero i = refl
get_or-zeros (suc n) zero = refl
get_or-zeros (suc n) (suc i) = get_or-zeros n i

bit_and_zero : (b : ℕ) → bit_and 0 b ≡ 0
bit_and_zero b = bit_and-bitwise 0 b

is_option-no_options : (n : ℕ) → is_option n no_options ≡ false
unfolding is_option no_options
is_option-no_options n = rw (get_or-zeros 32 (n / 8)) (ground (arith, bit_and_zero (2 ^ (n % 8))))

is_option-mark :
    (n : ℕ) (l : List (Bool × ℕ)) (options : List ℕ)
    → AllIn l
    → length options ≡ 32
    → is_option n (mark l options) ≡ (is_sent n l || is_option n options)
unfolding mark
is_option-mark n [] options h e = refl
is_option-mark n ((true, number) ∷ l) options h e =
    is_option-mark n l (set_option number options) h.1 (length-set_option number options ∙ e)
    ∙ ground (arith, is_option-set_option number n options (omega (arith, h, e)))
is_option-mark n ((false, number) ∷ l) options h e = is_option-mark n l options h.1 e

-- The numbers of the options that a message over UDP can carry.
abbrev pub carried_numbers : List ℕ
carried_numbers = 3 ∷ 4 ∷ 6 ∷ 7 ∷ 11 ∷ 12 ∷ 14 ∷ 15 ∷ 17 ∷ 23 ∷ 27 ∷ 28 ∷ 35 ∷ 60 ∷ 252 ∷ []

abbrev pub is_among : ℕ → List ℕ → Bool
is_among n [] = false
is_among n (k ∷ ks) = (k == n) || is_among n ks

abbrev set_among : List ℕ → List ℕ → List (Bool × ℕ)
set_among options [] = []
set_among options (k ∷ ks) = (is_option k options, k) ∷ set_among options ks

is_sent-set_among :
    (n : ℕ) (options ks : List ℕ)
    → is_sent n (set_among options ks) ≡ (is_option n options && is_among n ks)
is_sent-set_among n options [] = ground arith
is_sent-set_among n options (k ∷ ks) = elim (ℕ_discrete k n) [
  | yes e ↦ rw e (ground (arith, is_sent-set_among n options ks))
  | no d ↦ ground (arith, is_sent-set_among n options ks)
]

-- In the packet that arrives when a packet is sent over UDP, exactly those options are set that are set in
-- the packet that was sent and that such a message carries.
pub is_option-received :
    (behind : ℕ → ℕ × ℕ) (stale : List ℕ) (pkt : Packet) (n : ℕ)
    → is_option n (received behind stale pkt).options
      ≡ (is_option n pkt.options && is_among n carried_numbers)
unfolding with_options empty_packet
is_option-received behind stale pkt n =
    is_option-mark n (sent_options true true false pkt) no_options (omega arith) refl
    ∙ rw (is_option-no_options n) (or_false (is_sent n (sent_options true true false pkt)))
    ∙ is_sent-set_among n pkt.options carried_numbers
