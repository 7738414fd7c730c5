-- ===== src/Text.antt =====
-- Numbers, bytes and identifiers as texts: api/oc_uuid.c and the conversions of api/oc_helpers.c.
-- A text is the list of its characters, numbers below 256, without the terminator.
pub mod Uuid
mod Hex
mod Numbers
mod Tests
use knx_iot_stack.Prelude.{ℕ, ◌+◌, ◌*◌, ◌/◌, ◌%◌, List, [], ◌∷◌, ◌++◌, ltb, if◌then◌else◌}

-- `printf` of a number below 16 with "%x"
unfoldable pub hex_digit : ℕ → ℕ
hex_digit d = if ltb d 10 then b'0' + d else 87 + d

-- `printf` of a byte with "%02x"
unfoldable pub print_byte : ℕ → List ℕ
unfolding hex_digit
print_byte b = hex_digit (b / 16) ∷ hex_digit (b % 16) ∷ []
