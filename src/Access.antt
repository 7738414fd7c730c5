-- ===== src/Access.antt =====
-- api/oc_knx_sec.c: whether a request may call a method of a resource, `oc_knx_sec_check_acl` and what it
-- calls. A mask of interfaces is a number.
mod Masks
pub mod Grants
pub mod Protection
mod Tests
use knx_iot_stack.Prelude.{
  ℤ, pos, negsuc, ℕ, ◌-◌, ◌^◌, Option, Bool, true, false, not, ◌&&◌, ◌||◌, List, [], ◌∷◌, ltb, ◌==◌,
  if◌then◌else◌, get_or, bytes_eq, bit_and,
}
use Prim.Native.String.{String}
use Prim.Native.String
use Prim.Native.Char.{code}

-- `oc_method_t`
pub data Method : Type 0 where
  get : Method
  post : Method
  put : Method
  delete : Method
  fetch : Method

abbrev pub is_get : Method → Bool
is_get get = true
is_get post = false
is_get put = false
is_get delete = false
is_get fetch = false

abbrev pub is_post : Method → Bool
is_post get = false
is_post post = true
is_post put = false
is_post delete = false
is_post fetch = false

abbrev is_put : Method → Bool
is_put get = false
is_put post = false
is_put put = true
is_put delete = false
is_put fetch = false

abbrev is_delete : Method → Bool
is_delete get = false
is_delete post = false
is_delete put = false
is_delete delete = true
is_delete fetch = false

-- The fields of `oc_resource_t` that are read, with the characters of the URI.
pub record Resource : Type 0 where
  pub uri : List ℕ
  pub interfaces : ℕ

-- The fields of `oc_endpoint_t` that are read. A positive index is one more than that of the entry in the
-- table of access tokens.
pub record Endpoint : Type 0 where
  pub flags : ℕ
  pub auth_at_index : ℤ

-- `auth_at_index > 0`, and the index of the entry then
abbrev pub is_positive : ℤ → Bool
is_positive (pos n) = ltb 0 n
is_positive (negsuc n) = false

abbrev pub token_index : ℤ → ℕ
token_index (pos n) = n - 1
token_index (negsuc n) = 0

-- the flags OSCORE and OSCORE_DECRYPTED
abbrev pub oscore : ℕ
oscore = 0x20

abbrev pub oscore_decrypted : ℕ
oscore_decrypted = 0x100

abbrev pub chars : String → List ℕ
chars String.[] = []
chars (String.◌∷◌ c s) = code c ∷ chars s

-- `oc_is_resource_secure`, in a build with OSCORE or without it
unfoldable pub is_resource_secure : Bool → Method → Resource → Bool
unfolding bytes_eq
is_resource_secure with_oscore method resource =
    if is_get method
      && (bytes_eq resource.uri (chars "/.well-known/core")
          || bytes_eq resource.uri (chars "/.well-known/knx")
          || bytes_eq resource.uri (chars "/.well-known/knx/osn"))
    then false
    else if is_post method && bytes_eq resource.uri (chars "/.well-known/knx/spake")
    then false
    else with_oscore

-- `mask & flag`
abbrev pub has : ℕ → ℕ → Bool
has mask flag = not (bit_and mask flag == 0)

-- `oc_if_method_allowed_according_to_mask`, with the tests of the method in front of that of the
-- interface in each block
unfoldable pub if_method_allowed : ℕ → Method → Bool
if_method_allowed mask m =
    if (is_get m || is_post m || is_put m) && has mask 0x2
    then true
    else if (is_get m || is_post m) && has mask 0x4
    then true
    else if is_post m && has mask 0x8
    then true
    else if (is_get m || is_post m || is_put m || is_delete m) && has mask 0x10
    then true
    else if (is_get m || is_put m) && has mask 0x20
    then true
    else if is_get m && has mask 0x40
    then true
    else if (is_get m || is_put m || is_post m) && has mask 0x80
    then true
    else if is_get m && has mask 0x100
    then true
    else if is_get m && has mask 0x200
    then true
    else if (is_get m || is_put m || is_post m) && has mask 0x400
    then true
    else if (is_get m || is_put m || is_post m || is_delete m) && has mask 0x800
    then true
    else if (is_get m || is_put m || is_post m || is_delete m) && has mask 0x1000
    then true
    else if is_get m && has mask 0x2000
    then true
    else if has mask 0x4000
    then true
    else false

-- `oc_knx_contains_interface`
unfoldable pub contains_interface : ℕ → ℕ → Bool
contains_interface calling_interfaces resource_interfaces =
    ltb 0 (bit_and calling_interfaces resource_interfaces)

-- `oc_at_get_interface_mask`, on the scopes of the table of access tokens
unfoldable pub at_get_interface_mask : List ℕ → ℕ → ℕ
at_get_interface_mask scopes index = get_or scopes index 0

-- `method_allowed`
unfoldable pub method_allowed : Bool → List ℕ → Method → Resource → Endpoint → Bool
method_allowed with_oscore scopes method resource endpoint =
    if not (is_resource_secure with_oscore method resource)
    then true
    else if with_oscore && not (has endpoint.flags oscore)
    then false
    else if with_oscore && not (has endpoint.flags oscore_decrypted)
    then false
    else if with_oscore
        && is_positive endpoint.auth_at_index
        && not (
            contains_interface (at_get_interface_mask scopes (token_index endpoint.auth_at_index))
              resource.interfaces)
    then false
    else if_method_allowed resource.interfaces method

-- `oc_knx_sec_check_acl`
unfoldable pub check_acl : Bool → List ℕ → Method → Resource → Endpoint → Bool
unfolding method_allowed
check_acl with_oscore scopes method resource endpoint =
    method_allowed with_oscore scopes method resource endpoint
