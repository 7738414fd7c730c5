-- ===== src/Access/Protection.antt =====
-- What a request needs to be let through.
use knx_iot_stack.Prelude.{
  ℕ, ◌^◌, ◌<◌, ◌≡◌, ◌↔◌, ◌⊎◌, inl, inr, refl, sym, arith, ◌∙◌, Bool, true, false, not, ◌&&◌, List,
  Bool-cases,
}
use knx_iot_stack.Access.{
  Method, get, post, put, delete, fetch, Resource, Endpoint, is_positive, token_index, oscore,
  oscore_decrypted, is_resource_secure, has, contains_interface, at_get_interface_mask,
  method_allowed, check_acl,
}
use knx_iot_stack.Access.Masks.{InCommon, has-InCommon}
use knx_iot_stack.Access.Grants.{interfaces_with, if_method_allowed-has}

contains-has : (a b : ℕ) → contains_interface a b ≡ has a b
unfolding contains_interface
contains-has a b = ground arith

all_hold : Bool → Bool → Bool → Bool → Bool → Bool
all_hold a b e f d = a && (b && (not (e && not f) && d))

joined :
    (a b e f d : Bool)
    → a ≡ true
    → b ≡ true
    → (e ≡ true → f ≡ true)
    → d ≡ true
    → all_hold a b e f d ≡ true
unfolding all_hold
joined a b true f d p q r t = let u : f ≡ true = r refl in ground (arith, p, q, u, t)
joined a b false f d p q r t = ground (arith, p, q, t)

all_hold-parts :
    (a b e f d : Bool)
    → (all_hold a b e f d ≡ true) ↔ ((a ≡ true) × (b ≡ true) × (e ≡ true → f ≡ true) × (d ≡ true))
unfolding all_hold
all_hold-parts a b e f d = (
  λ h. (ground (arith, h), ground (arith, h), λ t. ground (arith, h, t), ground (arith, h)),
  λ (p, q, r, t). joined a b e f d p q r t,
)

interfaces_with-lt : (method : Method) → interfaces_with method < 2 ^ 15
interfaces_with-lt get = omega arith
interfaces_with-lt post = omega arith
interfaces_with-lt put = omega arith
interfaces_with-lt delete = omega arith
interfaces_with-lt fetch = omega arith

-- What a protected resource asks for, as tests.
module _ (scopes : List ℕ) (method : Method) (resource : Resource) (endpoint : Endpoint) where
  abbrev calling : ℕ
  calling = at_get_interface_mask scopes (token_index endpoint.auth_at_index)

  method_allowed-tests :
      is_resource_secure true method resource ≡ true
      → method_allowed true scopes method resource endpoint
        ≡ all_hold
            (has endpoint.flags oscore)
            (has endpoint.flags oscore_decrypted)
            (is_positive endpoint.auth_at_index)
            (has calling resource.interfaces)
            (has resource.interfaces (interfaces_with method))
  unfolding method_allowed all_hold
  method_allowed-tests s =
      rw
        (
          s,
          contains-has calling resource.interfaces,
          if_method_allowed-has resource.interfaces method,
        )
        (ground arith)

  -- What a request for a protected resource needs: its message was decrypted by OSCORE, an interface of the
  -- resource has the method, and, if the endpoint has a positive index of an access token, the scope of
  -- that token has an interface of the resource. Without such an index no scope is asked for.
  pub record MayPass : Type 0 where
    pub is_oscore : has endpoint.flags oscore ≡ true
    pub is_decrypted : has endpoint.flags oscore_decrypted ≡ true
    pub in_scope : is_positive endpoint.auth_at_index ≡ true → InCommon calling resource.interfaces
    pub has_method : InCommon resource.interfaces (interfaces_with method)

  method_allowed-MayPass :
      is_resource_secure true method resource ≡ true
      → resource.interfaces < 2 ^ 15
      → (method_allowed true scopes method resource endpoint ≡ true) ↔ MayPass
  method_allowed-MayPass s bound =
      let tests =
        all_hold-parts (has endpoint.flags oscore) (has endpoint.flags oscore_decrypted)
          (is_positive endpoint.auth_at_index) (has calling resource.interfaces)
          (has resource.interfaces (interfaces_with method)) in
      let scope = has-InCommon 15 calling resource.interfaces bound in
      let methods =
        has-InCommon 15 resource.interfaces (interfaces_with method) (interfaces_with-lt method) in
      (
        λ h.
            let (o, d, c, m) = tests.0 (sym (method_allowed-tests s) ∙ h) in
            record {
              is_oscore = o;
              is_decrypted = d;
              in_scope = λ t. scope.0 (c t);
              has_method = methods.0 m;
            },
        λ p.
            method_allowed-tests s
            ∙ tests.1
                (p.is_oscore, p.is_decrypted, λ t. scope.1 (p.in_scope t), methods.1 p.has_method),
      )

  public :
      is_resource_secure true method resource ≡ false
      → method_allowed true scopes method resource endpoint ≡ true
  unfolding method_allowed
  public s = rw s refl

  -- In a build with OSCORE a request is let through exactly if the method of the resource is public, or
  -- its message was decrypted by OSCORE, an interface of the resource has the method, and, if the
  -- endpoint's index of an access token is positive, the scope of that token has an interface of the
  -- resource. With the index 0 no scope is compared. The interfaces of the resource are among those that
  -- the code has.
  pub check_acl-MayPass :
      resource.interfaces < 2 ^ 15
      → (check_acl true scopes method resource endpoint ≡ true)
        ↔ ((is_resource_secure true method resource ≡ false) ⊎ MayPass)
  unfolding check_acl
  check_acl-MayPass bound = elim (Bool-cases (is_resource_secure true method resource)) [
    | inl s ↦
        let passes = method_allowed-MayPass s bound in
        (λ h. inr (passes.0 h), λ c. elim c [ inl q ↦ absurd (cc) | inr p ↦ passes.1 p ])
    | inr s ↦ (λ h. inl s, λ c. public s)
  ]
