-- ===== src/Access/Grants.antt =====
-- Which interfaces allow a method.
use knx_iot_stack.Prelude.{ℕ, ◌≡◌, refl, arith, Bool, true, false, if◌then◌else◌}
use knx_iot_stack.Prelude.Bits.{testbit}
use knx_iot_stack.Access.{Method, get, post, put, delete, fetch, has, if_method_allowed}
use knx_iot_stack.Access.Masks.{has-shares, has-testbit}

-- The interfaces that allow a method: all but the group address have GET.
abbrev pub interfaces_with : Method → ℕ
interfaces_with get = 0x7ff6
interfaces_with post = 0x5c9e
interfaces_with put = 0x5cb2
interfaces_with delete = 0x5810
interfaces_with fetch = 0x4000

if_self : (b : Bool) → (if b then true else false) ≡ b
if_self true = refl
if_self false = refl

-- A mask of interfaces allows a method exactly if one of them has it.
pub if_method_allowed-has :
    (mask : ℕ) (method : Method) → if_method_allowed mask method ≡ has mask (interfaces_with method)
unfolding if_method_allowed testbit
if_method_allowed-has mask get =
    rw
      (
        has-testbit mask 1,
        has-testbit mask 2,
        has-testbit mask 4,
        has-testbit mask 5,
        has-testbit mask 6,
        has-testbit mask 7,
        has-testbit mask 8,
        has-testbit mask 9,
        has-testbit mask 10,
        has-testbit mask 11,
        has-testbit mask 12,
        has-testbit mask 13,
        has-testbit mask 14,
        has-shares 15 mask 0x7ff6 (omega arith),
      )
      refl
if_method_allowed-has mask post =
    rw
      (
        has-testbit mask 1,
        has-testbit mask 2,
        has-testbit mask 3,
        has-testbit mask 4,
        has-testbit mask 7,
        has-testbit mask 10,
        has-testbit mask 11,
        has-testbit mask 12,
        has-testbit mask 14,
        has-shares 15 mask 0x5c9e (omega arith),
      )
      refl
if_method_allowed-has mask put =
    rw
      (
        has-testbit mask 1,
        has-testbit mask 4,
        has-testbit mask 5,
        has-testbit mask 7,
        has-testbit mask 10,
        has-testbit mask 11,
        has-testbit mask 12,
        has-testbit mask 14,
        has-shares 15 mask 0x5cb2 (omega arith),
      )
      refl
if_method_allowed-has mask delete =
    rw
      (
        has-testbit mask 4,
        has-testbit mask 11,
        has-testbit mask 12,
        has-testbit mask 14,
        has-shares 15 mask 0x5810 (omega arith),
      )
      refl
if_method_allowed-has mask fetch = if_self (has mask 0x4000)
