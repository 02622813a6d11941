-- ===== src/Rpc/Requests.antt =====
-- JsonRpc.cpp: requests that wait for a response, and the response that they get.
use ice_adapter.Base.{
  ℕ, ◌≡◌, refl, ◌∙◌, ℤ, pos, Bytes, Bool, true, false, not, List, [], ◌∷◌, Option, none, some, All,
  arith, if◌then◌else◌, codes, subst₂,
}
use ice_adapter.Base.IntMap.{ℤ_ltb}
use ice_adapter.Base.IntMap.Laws.{IsAscending}
use ice_adapter.Json.{JsonLib, is_string_type}
use ice_adapter.Rpc.Node.{
  Link, Service, Called, returned, thrown, ended, AsyncReply, result, error, Node, send_request,
}
use ice_adapter.Rpc.Dispatch.{
  field, respond, respond_all, send_all, after_call, dispatch, dispatch_async, dispatch_to,
  dispatch_named, process_request, outcome, with_result, with_error,
}

module _ (J : JsonLib) (L : Link) (S : Service J) (K : Type 0) where
  open J use {Value, is_member, is_int, as_int, value_type}

  -- The ids of the waiting requests are below the counter, each once.
  abbrev pub BelowId : ℕ → List (ℤ × K) → Type 0
  BelowId n m = All (λ e. ℤ_ltb e.0 (pos n) ≡ true) m

  abbrev pub IsOrderly : Node J L S K → Type 0
  IsOrderly n = IsAscending n.current_requests × BelowId n.current_id n.current_requests

  -- What the parts of a node's work that are no requests with a callback leave alone.
  abbrev pub SameRequests : Node J L S K → Node J L S K → Type 0
  SameRequests n m = (n.current_requests ≡ m.current_requests) × (n.current_id ≡ m.current_id)

  pub send_request-SameRequests :
      (method : Bytes) (params : Value) (socket : Option ℕ) (n : Node J L S K)
      → SameRequests n (send_request J L S K method params socket none n)
  unfolding send_request
  send_request-SameRequests method params socket n = ground arith

  respond-SameRequests :
      (request : Value) (socket : ℕ) (response : Value) (n : Node J L S K)
      → SameRequests n (respond J L S K request socket response n)
  unfolding respond
  respond-SameRequests request socket response n = ground arith

  send_all-SameRequests :
      (rs : List (Bytes × Value)) (n : Node J L S K) → SameRequests n (send_all J L S K rs n)
  unfolding send_all
  send_all-SameRequests [] n = (refl, refl)
  send_all-SameRequests ((method, params) ∷ rs) n =
      let one = send_request-SameRequests method params none n in
      let more = send_all-SameRequests rs (send_request J L S K method params none none n) in
      (one.0 ∙ more.0, one.1 ∙ more.1)

  respond_all-SameRequests :
      (request : Value) (socket : ℕ) (response : Value) (rs : List (AsyncReply Value))
      (n : Node J L S K)
      → SameRequests n (respond_all J L S K request socket response rs n)
  unfolding respond_all
  respond_all-SameRequests request socket response [] n = (refl, refl)
  respond_all-SameRequests request socket response (result v ∷ rs) n =
      let n1 = respond J L S K request socket (with_result J L S K response v) n in
      let one = respond-SameRequests request socket (with_result J L S K response v) n in
      let more = respond_all-SameRequests request socket response rs n1 in
      (one.0 ∙ more.0, one.1 ∙ more.1)
  respond_all-SameRequests request socket response (error v ∷ rs) n =
      let n1 = respond J L S K request socket (with_error J L S K response v) n in
      let one = respond-SameRequests request socket (with_error J L S K response v) n in
      let more = respond_all-SameRequests request socket response rs n1 in
      (one.0 ∙ more.0, one.1 ∙ more.1)

  after_call-SameRequests :
      (request : Value) (socket : ℕ) (response : Value) (c : Called Value) (n : Node J L S K)
      → SameRequests n (after_call J L S K request socket response c n)
  after_call-SameRequests request socket response (returned r e) n =
      respond-SameRequests request socket (outcome J L S K response r e) n
  after_call-SameRequests request socket response thrown n = (refl, refl)
  after_call-SameRequests request socket response ended n = (refl, refl)

  async-SameRequests :
      (request : Value) (socket : ℕ) (response : Value) (method : Bytes) (params : Value)
      (cb : Option (Value → S.State → List (AsyncReply Value) × Bool × S.State)) (n : Node J L S K)
      → SameRequests n (dispatch_async J L S K request socket response method params cb n)
  async-SameRequests request socket response method params none n =
      respond-SameRequests request socket _ n
  async-SameRequests request socket response method params (some cb) n =
      respond_all-SameRequests request socket response (cb params n.service).0
        (record n { service = (cb params n.service).2 })

  dispatch_to-SameRequests :
      (request : Value) (socket : ℕ) (response : Value) (method : Bytes) (params : Value)
      (cb : Option (Value → S.State → Called Value × List (Bytes × Value) × S.State))
      (n : Node J L S K)
      → SameRequests n (dispatch_to J L S K request socket response method params cb n)
  dispatch_to-SameRequests request socket response method params none n =
      async-SameRequests request socket response method params (S.callback_async method) n
  dispatch_to-SameRequests request socket response method params (some cb) n =
      let made = cb params n.service in
      let n1 : Node J L S K = send_all J L S K made.1 (record n { service = made.2 }) in
      let sent = send_all-SameRequests made.1 (record n { service = made.2 }) in
      let last = after_call-SameRequests request socket response made.0 n1 in
      (sent.0 ∙ last.0, sent.1 ∙ last.1)

  named-SameRequests :
      (request : Value) (socket : ℕ) (response params : Value) (method : Option Bytes)
      (n : Node J L S K)
      → SameRequests n (dispatch_named J L S K request socket response params method n)
  unfolding dispatch
  named-SameRequests request socket response params none n = (refl, refl)
  named-SameRequests request socket response params (some method) n =
      dispatch_to-SameRequests request socket response method params (S.callback method) n

  pub SameRequests-if :
      (b : Bool) (n l r : Node J L S K)
      → SameRequests n l
      → SameRequests n r
      → SameRequests n (if b then l else r)
  SameRequests-if true n l r h k = h
  SameRequests-if false n l r h k = k

  pub process_request-SameRequests :
      (request : Value) (socket : ℕ) (n : Node J L S K)
      → SameRequests n (process_request J L S K request socket n)
  unfolding process_request
  process_request-SameRequests request socket n =
      SameRequests-if (not (is_member request (codes "method"))) n _ _
        (respond-SameRequests request socket _ n)
        (SameRequests-if
          (not (is_string_type (value_type (field J L S K request (codes "method"))))) n _ _
          (respond-SameRequests request socket _ n)
          (named-SameRequests request socket _ _
            (J.as_string (field J L S K request (codes "method"))) n))

  pub IsOrderly-SameRequests : (n m : Node J L S K) → SameRequests n m → IsOrderly n → IsOrderly m
  IsOrderly-SameRequests n m s o =
      subst₂ (λ requests id. IsAscending requests × BelowId id requests) s.0 s.1 o
