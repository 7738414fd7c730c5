-- ===== src/Access/Tests.antt =====
-- The check of access on examples, and the theorems at concrete requests.
use knx_iot_stack.Prelude.{pos, ℕ, ◌≡◌, ◌↔◌, ◌⊎◌, refl, arith, true, false, List, [], ◌∷◌}
use knx_iot_stack.Access.{
  post, put, get, Resource, Endpoint, is_resource_secure, has, if_method_allowed, check_acl, chars,
  contains_interface, at_get_interface_mask,
}
use knx_iot_stack.Access.Grants.{interfaces_with, if_method_allowed-has}
use knx_iot_stack.Access.Protection.{MayPass, check_acl-MayPass}

-- An actuator, and a token for the interfaces if.a and if.s.
abbrev light : Resource
light = record { uri = chars "/p/light"; interfaces = 0x80 }

abbrev scopes : List ℕ
scopes = 0x180 ∷ 0x40 ∷ []

abbrev from_token : ℕ → Endpoint
from_token n = record { flags = 0x128; auth_at_index = pos n }

allowed : check_acl true scopes put light (from_token 1) ≡ true
unfolding check_acl is_resource_secure if_method_allowed contains_interface at_get_interface_mask
allowed = refl

-- The second token is for diagnostics.
out_of_scope : check_acl true scopes put light (from_token 2) ≡ false
unfolding check_acl is_resource_secure if_method_allowed contains_interface at_get_interface_mask
out_of_scope = refl

-- Without an index the scopes are not read.
no_index : check_acl true scopes put light (from_token 0) ≡ true
unfolding check_acl is_resource_secure if_method_allowed contains_interface at_get_interface_mask
no_index = refl

unprotected :
    check_acl true scopes put light (record { flags = 0x8; auth_at_index = pos 0 }) ≡ false
unfolding check_acl is_resource_secure if_method_allowed contains_interface at_get_interface_mask
unprotected = refl

handshake :
    is_resource_secure true post
      (record { uri = chars "/.well-known/knx/spake"; interfaces = 0x4000 })
    ≡ false
unfolding is_resource_secure
handshake = refl

check_acl-MayPass_example :
    (check_acl true scopes put light (from_token 1) ≡ true)
    ↔ ((is_resource_secure true put light ≡ false) ⊎ MayPass scopes put light (from_token 1))
check_acl-MayPass_example = check_acl-MayPass scopes put light (from_token 1) (omega arith)

if_method_allowed-has_example : if_method_allowed 0x28 get ≡ has 0x28 (interfaces_with get)
if_method_allowed-has_example = if_method_allowed-has 0x28 get
