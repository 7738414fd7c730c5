-- ===== src/Endpoint.antt =====
-- api/oc_endpoint.c: endpoints of an IPv6 build, and their comparison.
use knx_iot_stack.Prelude.{
  ℕ, ◌+◌, ◌-◌, ◌≡◌, arith, Bool, true, false, not, ◌&&◌, List, ◌==◌, bit_and, bytes_eq,
  bytes_eq_refl,
}

-- `oc_endpoint_t`, the fields that identify a peer.
pub record Endpoint : Type 0 where
  pub flags : ℕ
  pub device : ℕ
  pub address : List ℕ
  pub port : ℕ

abbrev pub ipv6_flag : ℕ
ipv6_flag = 8

abbrev pub multicast_flag : ℕ
multicast_flag = 64

abbrev pub accepted_flag : ℕ
accepted_flag = 128

-- `flags & ~(MULTICAST | ACCEPTED)`
abbrev pub kept_flags : ℕ → ℕ
kept_flags flags = bit_and flags (0xFFFF_FFFF - (multicast_flag + accepted_flag))

-- `oc_endpoint_compare (a, b) == 0`, for addresses of 16 bytes
unfoldable pub endpoint_eq : Endpoint → Endpoint → Bool
endpoint_eq a b =
    (kept_flags a.flags == kept_flags b.flags)
    && (a.device == b.device)
    && (not (bit_and a.flags ipv6_flag == 0)
        && (bytes_eq a.address b.address && (a.port == b.port)))

-- On IPv6 endpoints the comparison is symmetric, transitive and reflexive.
pub endpoint_eq_refl :
    (a : Endpoint) → (bit_and a.flags ipv6_flag == 0) ≡ false → endpoint_eq a a ≡ true
unfolding endpoint_eq
endpoint_eq_refl a h = ground (arith, bytes_eq_refl a.address)
