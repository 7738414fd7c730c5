-- ===== src/Blockwise/Store.antt =====
-- Both lists of api/oc_blockwise.c, and the functions that search and scrub them.
use knx_iot_stack.Prelude.{
  ℕ, ◌≡◌, refl, ◌∙◌, ap, Option, none, Bool, true, false, ◌&&◌, List, [], ◌∷◌, ◌==◌, Bool-cases,
  inl, inr,
}
use knx_iot_stack.Endpoint.{Endpoint}
use knx_iot_stack.Blockwise.{
  BlockState, Buffers, Method, Role, find_buffer_by, has_token, has_mid, has_client_cb, has_request,
  scrub_buffers, scrub_buffers_for_client_cb,
}
use knx_iot_stack.Blockwise.Lists.{Distinct, unless, scrub_for_client_cb-unless}

-- `oc_blockwise_requests` and `oc_blockwise_responses`
pub record Store : Type 0 where
  pub requests : Buffers
  pub responses : Buffers

-- `oc_blockwise_scrub_buffers`
unfoldable pub scrub_store : Bool → Store → Store
unfolding scrub_buffers
scrub_store all s = record {
  requests = scrub_buffers all s.requests;
  responses = scrub_buffers all s.responses;
}

-- `oc_blockwise_scrub_buffers_for_client_cb`
unfoldable pub scrub_store_for_client_cb : ℕ → Store → Store
unfolding scrub_buffers_for_client_cb
scrub_store_for_client_cb cb s = record {
  requests = scrub_buffers_for_client_cb cb s.requests;
  responses = scrub_buffers_for_client_cb cb s.responses;
}

unfoldable pub find_request_buffer_by_token : Store → List ℕ → ℕ → Option BlockState
unfolding find_buffer_by has_token
find_request_buffer_by_token s token token_len =
    find_buffer_by (has_token token token_len) s.requests.buffers

unfoldable pub find_response_buffer_by_token : Store → List ℕ → ℕ → Option BlockState
unfolding find_buffer_by has_token
find_response_buffer_by_token s token token_len =
    find_buffer_by (has_token token token_len) s.responses.buffers

unfoldable pub find_request_buffer_by_mid : Store → ℕ → Option BlockState
unfolding find_buffer_by has_mid
find_request_buffer_by_mid s mid = find_buffer_by (has_mid mid) s.requests.buffers

unfoldable pub find_response_buffer_by_mid : Store → ℕ → Option BlockState
unfolding find_buffer_by has_mid
find_response_buffer_by_mid s mid = find_buffer_by (has_mid mid) s.responses.buffers

unfoldable pub find_request_buffer_by_client_cb : Store → Endpoint → ℕ → Option BlockState
unfolding find_buffer_by has_client_cb
find_request_buffer_by_client_cb s endpoint client_cb =
    find_buffer_by (has_client_cb endpoint client_cb) s.requests.buffers

unfoldable pub find_response_buffer_by_client_cb : Store → Endpoint → ℕ → Option BlockState
unfolding find_buffer_by has_client_cb
find_response_buffer_by_client_cb s endpoint client_cb =
    find_buffer_by (has_client_cb endpoint client_cb) s.responses.buffers

unfoldable pub find_request_buffer :
    Store → List ℕ → Endpoint → Method → List ℕ → Role → Option BlockState
unfolding find_buffer_by has_request
find_request_buffer s href endpoint method query role =
    find_buffer_by (has_request href endpoint method query role) s.requests.buffers

unfoldable pub find_response_buffer :
    Store → List ℕ → Endpoint → Method → List ℕ → Role → Option BlockState
unfolding find_buffer_by has_request
find_response_buffer s href endpoint method query role =
    find_buffer_by (has_request href endpoint method query role) s.responses.buffers

and_false : (b : Bool) → (b && false) ≡ false
and_false true = refl
and_false false = refl

has_client_cb-other :
    (endpoint : Endpoint) (cb : ℕ) (b : BlockState)
    → (b.client_cb == cb) ≡ false
    → has_client_cb endpoint cb b ≡ false
unfolding has_client_cb
has_client_cb-other endpoint cb b e = rw e (and_false _)

find-unless :
    (endpoint : Endpoint) (cb : ℕ) (bs : List BlockState)
    → find_buffer_by (has_client_cb endpoint cb) (unless (λ b. b.client_cb == cb) bs) ≡ none
unfolding find_buffer_by has_client_cb unless
find-unless endpoint cb [] = refl
find-unless endpoint cb (b ∷ bs) = elim (Bool-cases (b.client_cb == cb)) [
  | inl same ↦ rw same (find-unless endpoint cb bs)
  | inr other ↦ rw (other, has_client_cb-other endpoint cb b other) (find-unless endpoint cb bs)
]

-- After the buffers of a client callback are scrubbed, from lists of buffers with different addresses,
-- the searches by endpoint and callback find none for that callback, in neither list.
pub find_by_client_cb-scrub_store :
    (s : Store) (endpoint : Endpoint) (cb : ℕ)
    → Distinct s.requests.buffers
    → Distinct s.responses.buffers
    → (find_request_buffer_by_client_cb (scrub_store_for_client_cb cb s) endpoint cb ≡ none)
      × (find_response_buffer_by_client_cb (scrub_store_for_client_cb cb s) endpoint cb ≡ none)
unfolding find_request_buffer_by_client_cb find_response_buffer_by_client_cb
    scrub_store_for_client_cb
find_by_client_cb-scrub_store s endpoint cb d e = (
  ap (find_buffer_by (has_client_cb endpoint cb)) (scrub_for_client_cb-unless cb s.requests d)
      ∙ find-unless endpoint cb s.requests.buffers,
  ap (find_buffer_by (has_client_cb endpoint cb)) (scrub_for_client_cb-unless cb s.responses e)
      ∙ find-unless endpoint cb s.responses.buffers,
)
