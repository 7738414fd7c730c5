-- ===== src/Coap/OscoreOption.antt =====
-- messaging/coap/oscore.c: the OSCORE option, `coap_parse_oscore_option` and
-- `coap_serialize_oscore_option`. Lengths are of the type size_t, with 64 bits.
pub mod RoundTrip
mod Tests
use knx_iot_stack.Prelude.{
  ℕ, ◌+◌, ◌-◌, ◌*◌, ◌%◌, ◌^◌, Option, none, some, Bool, true, false, ◌&&◌, List, [], ◌∷◌, ◌++◌, ltb,
  leb, ◌==◌, if◌then◌else◌, length, take, drop, bit_and,
}
use knx_iot_stack.Coap.Options.{set_option_header}
use knx_iot_stack.Coap.Packet.{Packet}

abbrev pub oscore_piv_len : ℕ
oscore_piv_len = 5

abbrev pub oscore_idctx_len : ℕ
oscore_idctx_len = 16

abbrev pub oscore_ctxid_len : ℕ
oscore_ctxid_len = 7

-- What is left of an option: the bytes of the message from its position on, and the length that is
-- counted down.
pub record Cursor : Type 0 where
  pub bytes : List ℕ
  pub left : ℕ

-- The length is counted down as an unsigned number.
abbrev pub count_down : ℕ → ℕ → ℕ
count_down left n = (left + 2 ^ 64 - n) % 2 ^ 64

-- A result, or the end of what C defines: bytes are written behind an array, or read behind the message.
-- The code tests for neither.
pub data Stored {ℓ} (A : Type ℓ) : Type ℓ where
  stored : A → Stored A
  writes_behind : Stored A
  reads_behind : Stored A

-- A `memcpy` of `n` bytes of the message into an array of `size` bytes.
unfoldable pub copy : ℕ → ℕ → List ℕ → Stored (List ℕ)
copy size n bytes =
    if ltb size n
    then writes_behind
    else if ltb (length bytes) n
    then reads_behind
    else stored (take n bytes)

-- To chain such results with `do`.
infixl 1 ◌>>=◌
abbrev ◌>>=◌ {ℓ κ} : {A : Type ℓ} {B : Type κ} → Stored A → (A → Stored B) → Stored B
stored a >>= f = f a
writes_behind >>= f = writes_behind
reads_behind >>= f = reads_behind

-- the Partial IV
unfoldable pub parse_piv : Cursor → Packet → Stored (Cursor × Packet)
unfolding copy
parse_piv c pkt =
    let n = bit_and pkt.oscore_flags 0x07 in
    if ltb 0 n
    then (copy oscore_piv_len n c.bytes >>= λ piv.
        stored
          (record { bytes = drop n c.bytes; left = count_down c.left n }, record pkt { piv = piv }))
    else stored (c, record pkt { piv = [] })

pub kid_ctx_from : ℕ → Packet → List ℕ → Stored (Cursor × Packet)
kid_ctx_from left pkt [] = reads_behind
kid_ctx_from left pkt (n ∷ bytes) = do
  kid_ctx ← copy oscore_idctx_len n bytes
  stored (
    record { bytes = drop n bytes; left = count_down (count_down left 1) n },
    record pkt { kid_ctx = kid_ctx },
  )

-- the kid context, if its flag is set
unfoldable pub parse_kid_ctx : Cursor → Packet → Stored (Cursor × Packet)
unfolding copy kid_ctx_from
parse_kid_ctx c pkt =
    if bit_and pkt.oscore_flags 0x10 == 0 then stored (c, pkt) else kid_ctx_from c.left pkt c.bytes

-- the kid, if its flag is set: all that is left of the option
unfoldable pub parse_kid : Cursor → Packet → Stored Packet
unfolding copy
parse_kid c pkt =
    if bit_and pkt.oscore_flags 0x08 == 0
    then stored pkt
    else (copy oscore_ctxid_len c.left c.bytes >>= λ kid. stored (record pkt { kid = kid }))

-- The chain of the three parts.
unfoldable pub parse_parts : Cursor → Packet → Stored Packet
parse_parts c pkt = do
  (c', pkt') ← parse_piv c pkt
  (c'', pkt'') ← parse_kid_ctx c' pkt'
  parse_kid c'' pkt''

-- `coap_parse_oscore_option`, given the bytes from the option's value to the end of the message.
unfoldable pub parse_oscore_option : List ℕ → ℕ → Packet → Stored Packet
unfolding parse_parts
parse_oscore_option [] option_length pkt = if option_length == 0 then stored pkt else reads_behind
parse_oscore_option (flags ∷ bytes) option_length pkt =
    if option_length == 0
    then stored pkt
    else parse_parts (record { bytes = bytes; left = count_down option_length 1 })
        (record pkt { oscore_flags = flags })

-- the length that is announced for the value
unfoldable pub oscore_option_length : Packet → ℕ
oscore_option_length pkt =
    length pkt.piv
    + length pkt.kid
    + length pkt.kid_ctx
    + (if ltb 0 (length pkt.kid_ctx) then 1 else 0)
    + (if ltb 0 pkt.oscore_flags then 1 else 0)

-- the kid context, with its length before it, if there is one
unfoldable pub kid_ctx_bytes : List ℕ → List ℕ
kid_ctx_bytes kid_ctx = if ltb 0 (length kid_ctx) then length kid_ctx % 256 ∷ kid_ctx else []

-- The value. Nothing is written without flags: what the buffer held there, `stale`, stays.
unfoldable pub oscore_value : List ℕ → Packet → List ℕ
unfolding oscore_option_length kid_ctx_bytes
oscore_value stale pkt =
    if pkt.oscore_flags == 0
    then take (oscore_option_length pkt) stale
    else pkt.oscore_flags ∷ pkt.piv ++ kid_ctx_bytes pkt.kid_ctx ++ pkt.kid

-- `coap_serialize_oscore_option`; the delta is an `unsigned int`.
unfoldable pub serialize_oscore_option : List ℕ → ℕ → Packet → List ℕ
unfolding oscore_option_length oscore_value
serialize_oscore_option stale current_number pkt =
    set_option_header ((9 + 2 ^ 32 - current_number) % 2 ^ 32) (oscore_option_length pkt)
    ++ oscore_value stale pkt
