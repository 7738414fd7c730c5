-- ===== src/Blockwise/Lists.antt =====
-- The lists of block-wise buffers: allocation, lookup and scrubbing.
use knx_iot_stack.Prelude.{
  ℕ, ◌≡◌, ◌≢◌, refl, arith, ◌∙◌, sym, ap, some, Bool, true, ◌||◌, List, [], ◌∷◌, ◌++◌, append_assoc,
  ◌==◌, if◌then◌else◌, length, replicate, Bool-cases, inl, inr, bytes_eq,
}
use knx_iot_stack.Prelude.Keyed as Keyed
use knx_iot_stack.Prelude.Keyed.{Apart-nil, Apart-snoc, remove_at-middle}
use knx_iot_stack.Endpoint.{Endpoint}
use knx_iot_stack.Blockwise.{
  BlockState, Buffers, Method, Role, random_bytes, alloc_response_buffer, list_remove,
  free_timed_buffer, scrub, scrub_buffers, scrub_buffers_for_client_cb, has_request, strncmp_eq,
}

-- The buffers have different addresses.
abbrev pub Distinct : List BlockState → Type 0
Distinct bs = Keyed.Distinct (λ b. b.address) bs

-- The buffers that pass no test.
unfoldable pub unless : (BlockState → Bool) → List BlockState → List BlockState
unless test [] = []
unless test (b ∷ bs) = if test b then unless test bs else b ∷ unless test bs

abbrev Apart : List BlockState → List BlockState → Type 0
Apart pre bs = Keyed.Apart (λ b. b.address) pre bs

scrub-unless :
    (test : BlockState → Bool) (pre bs : List BlockState) (s : Buffers)
    → s.buffers ≡ pre ++ bs
    → Apart pre bs
    → Distinct bs
    → (scrub test bs s).buffers ≡ pre ++ unless test bs
unfolding scrub unless free_timed_buffer list_remove
scrub-unless test pre [] s e a d = e
scrub-unless test pre (b ∷ bs) s e a d = elim (Bool-cases (test b)) [
  | inl free ↦
      rw (free, scrub)
        (scrub-unless test pre bs (free_timed_buffer s b.address)
          (ap (list_remove b.address) e ∙ remove_at-middle (λ b. b.address) pre bs b a.0) a.1 d.1)
  | inr keep ↦
      rw (keep, scrub)
        (scrub-unless test (pre ++ b ∷ []) bs s (e ∙ sym (append_assoc pre (b ∷ []) bs))
            (Apart-snoc (λ b. b.address) pre bs b a.1 d.0) d.1
          ∙ append_assoc pre (b ∷ []) (unless test bs))
]

-- Scrubbing frees, of buffers with different addresses, exactly those that nobody refers to, or all
-- of them if it is told so; the others stay in their order.
pub scrub_buffers-unless :
    (all : Bool) (s : Buffers)
    → Distinct s.buffers
    → (scrub_buffers all s).buffers ≡ unless (λ b. (b.ref_count == 0) || all) s.buffers
unfolding scrub_buffers
scrub_buffers-unless all s d =
    scrub-unless (λ b. (b.ref_count == 0) || all) [] s.buffers s refl
      (Apart-nil (λ b. b.address) s.buffers) d

-- Scrubbing for a client callback frees exactly the buffers of that callback.
pub scrub_for_client_cb-unless :
    (cb : ℕ) (s : Buffers)
    → Distinct s.buffers
    → (scrub_buffers_for_client_cb cb s).buffers ≡ unless (λ b. b.client_cb == cb) s.buffers
unfolding scrub_buffers_for_client_cb
scrub_for_client_cb-unless cb s d =
    scrub-unless (λ b. b.client_cb == cb) [] s.buffers s refl (Apart-nil (λ b. b.address) s.buffers)
      d

-- The second half of the ETag of a response buffer is zero whatever the random values are: the loop
-- writes each of them to the first half.
pub alloc_response_buffer-etag :
    (s : Buffers) (address : ℕ) (storage href : List ℕ) (r₁ r₂ r₃ : ℕ) (endpoint : Endpoint)
    (method : Method) (role : Role) {b : BlockState}
    → (alloc_response_buffer s
        (some (address, storage))
        (r₁ ∷ r₂ ∷ r₃ ∷ [])
        href
        endpoint
        method
        role).1
      ≡ some b
    → b.etag ≡ random_bytes r₂ ++ replicate 4 0
unfolding alloc_response_buffer
alloc_response_buffer-etag s address storage href r₁ r₂ r₃ endpoint method role e = ground arith

-- A string as C holds it: no byte is null.
abbrev pub HasNoNull : List ℕ → Type 0
HasNoNull [] = Unit {0}
HasNoNull (c ∷ cs) = (c ≢ 0) × HasNoNull cs

strncmp_eq-append :
    (a b more : List ℕ)
    → HasNoNull a
    → strncmp_eq a b (length a) ≡ true
    → strncmp_eq a (b ++ more) (length a) ≡ true
unfolding bytes_eq
strncmp_eq-append [] b more n h = refl
strncmp_eq-append (x ∷ xs) [] more n h = absurd (ground arith)
strncmp_eq-append (x ∷ xs) (y ∷ ys) more n h = ground (arith, strncmp_eq-append xs ys more n.1)

-- A buffer that serves a request serves it too if its path is any longer one: the paths are compared
-- on the length of the path that is looked for.
pub has_request-prefix :
    (href : List ℕ) (endpoint : Endpoint) (method : Method) (query : List ℕ) (role : Role)
    (b : BlockState) (more : List ℕ)
    → HasNoNull href
    → has_request href endpoint method query role b ≡ true
    → has_request href endpoint method query role (record b { href = b.href ++ more }) ≡ true
unfolding has_request
has_request-prefix href endpoint method query role b more n h =
    ground (arith, strncmp_eq-append href b.href more n)
