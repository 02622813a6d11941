-- ===== src/Rpc/Links.antt =====
-- JsonRpc.cpp: a message changes what a node is connected to by nothing but `_sendMessage`.
use ice_adapter.Base.{
  ℕ, ℤ, Bytes, Bool, true, false, not, ◌||◌, List, [], ◌∷◌, Option, none, some, if◌then◌else◌,
  codes,
}
use ice_adapter.Base.IntMap.{find}
use ice_adapter.Json.{JsonLib, is_array, is_string_type}
use ice_adapter.Rpc.Node.{
  Link, Service, Called, returned, thrown, ended, AsyncReply, result, error, Node, is_empty,
  send_request, request_of,
}
use ice_adapter.Rpc.Dispatch.{
  field, respond, respond_all, send_all, after_call, dispatch, dispatch_async, dispatch_to,
  dispatch_named, process_request, process_response, process_json_message, resolve, resolve_id,
  outcome, with_result, with_error,
}

module _ (J : JsonLib) (L : Link) (S : Service J) (K : Type 0) (P : L.State → Type 0)
    (keeps : (text : Bytes) (socket : Option ℕ) (l : L.State)
      → P l
      → P (L.send_message text socket l).1) where
  open J use {Value, is_member, is_int, as_int, value_type}

  Holds-if : (b : Bool) (l r : Node J L S K) → P l.link → P r.link → P (if b then l else r).link
  Holds-if true l r h k = h
  Holds-if false l r h k = k

  send_request-Holds :
      (method : Bytes) (params : Value) (socket : Option ℕ) (n : Node J L S K)
      → P n.link
      → P (send_request J L S K method params socket none n).link
  unfolding send_request
  send_request-Holds method params socket n h =
      let text = J.write (request_of J L S K method params) in
      let sent : Node J L S K = record n { link = (L.send_message text socket n.link).1 } in
      let kept : P sent.link = keeps text socket n.link h in
      Holds-if (not (is_array (value_type params))) _ _ h (
        Holds-if (is_empty method) _ _ h
          (Holds-if (L.send_message text socket n.link).0 _ _ kept kept))

  respond-Holds :
      (request : Value) (socket : ℕ) (response : Value) (n : Node J L S K)
      → P n.link
      → P (respond J L S K request socket response n).link
  unfolding respond
  respond-Holds request socket response n h =
      let sent : Node J L S K = record n {
        link = (L.send_message (J.write response) (some socket) n.link).1;
      } in
      Holds-if (is_member request (codes "id")) sent n
        (keeps (J.write response) (some socket) n.link h) h

  send_all-Holds :
      (rs : List (Bytes × Value)) (n : Node J L S K) → P n.link → P (send_all J L S K rs n).link
  unfolding send_all
  send_all-Holds [] n h = h
  send_all-Holds ((method, params) ∷ rs) n h =
      send_all-Holds rs (send_request J L S K method params none none n)
        (send_request-Holds method params none n h)

  respond_all-Holds :
      (request : Value) (socket : ℕ) (response : Value) (rs : List (AsyncReply Value))
      (n : Node J L S K)
      → P n.link
      → P (respond_all J L S K request socket response rs n).link
  unfolding respond_all
  respond_all-Holds request socket response [] n h = h
  respond_all-Holds request socket response (result v ∷ rs) n h =
      let made = with_result J L S K response v in
      respond_all-Holds request socket response rs (respond J L S K request socket made n)
        (respond-Holds request socket made n h)
  respond_all-Holds request socket response (error v ∷ rs) n h =
      let made = with_error J L S K response v in
      respond_all-Holds request socket response rs (respond J L S K request socket made n)
        (respond-Holds request socket made n h)

  after_call-Holds :
      (request : Value) (socket : ℕ) (response : Value) (c : Called Value) (n : Node J L S K)
      → P n.link
      → P (after_call J L S K request socket response c n).link
  after_call-Holds request socket response (returned r e) n h =
      respond-Holds request socket (outcome J L S K response r e) n h
  after_call-Holds request socket response thrown n h = h
  after_call-Holds request socket response ended n h = h

  async-Holds :
      (request : Value) (socket : ℕ) (response : Value) (method : Bytes) (params : Value)
      (cb : Option (Value → S.State → List (AsyncReply Value) × Bool × S.State)) (n : Node J L S K)
      → P n.link
      → P (dispatch_async J L S K request socket response method params cb n).link
  async-Holds request socket response method params none n h = respond-Holds request socket _ n h
  async-Holds request socket response method params (some cb) n h =
      respond_all-Holds request socket response (cb params n.service).0
        (record n { service = (cb params n.service).2 }) h

  dispatch_to-Holds :
      (request : Value) (socket : ℕ) (response : Value) (method : Bytes) (params : Value)
      (cb : Option (Value → S.State → Called Value × List (Bytes × Value) × S.State))
      (n : Node J L S K)
      → P n.link
      → P (dispatch_to J L S K request socket response method params cb n).link
  dispatch_to-Holds request socket response method params none n h =
      async-Holds request socket response method params (S.callback_async method) n h
  dispatch_to-Holds request socket response method params (some cb) n h =
      let made = cb params n.service in
      let called : Node J L S K = record n { service = made.2 } in
      after_call-Holds request socket response made.0 (send_all J L S K made.1 called)
        (send_all-Holds made.1 called h)

  named-Holds :
      (request : Value) (socket : ℕ) (response params : Value) (method : Option Bytes)
      (n : Node J L S K)
      → P n.link
      → P (dispatch_named J L S K request socket response params method n).link
  unfolding dispatch
  named-Holds request socket response params none n h = h
  named-Holds request socket response params (some method) n h =
      dispatch_to-Holds request socket response method params (S.callback method) n h

  process_request-Holds :
      (request : Value) (socket : ℕ) (n : Node J L S K)
      → P n.link
      → P (process_request J L S K request socket n).link
  unfolding process_request
  process_request-Holds request socket n h =
      Holds-if (not (is_member request (codes "method"))) _ _ (respond-Holds request socket _ n h) (
        Holds-if (not (is_string_type (value_type (field J L S K request (codes "method"))))) _ _
          (respond-Holds request socket _ n h)
          (named-Holds request socket _ _ (J.as_string (field J L S K request (codes "method"))) n
            h))

  resolve-Holds :
      (message : Value) (id : ℤ) (o : Option K) (n : Node J L S K)
      → P n.link
      → P (resolve J L S K message id o n).link
  resolve-Holds message id none n h = h
  resolve-Holds message id (some k) n h = h

  resolve_id-Holds :
      (message : Value) (id : Option ℤ) (n : Node J L S K)
      → P n.link
      → P (resolve_id J L S K message id n).link
  resolve_id-Holds message none n h = h
  resolve_id-Holds message (some id) n h = resolve-Holds message id (find id n.current_requests) n h

  process_response-Holds :
      (message : Value) (n : Node J L S K) → P n.link → P (process_response J L S K message n).link
  unfolding process_response
  process_response-Holds message n h = Holds-if (not (is_member message (codes "id"))) n _ h (
      Holds-if (not (is_int (field J L S K message (codes "id")))) n _ h
        (resolve_id-Holds message (as_int (field J L S K message (codes "id"))) n h))

  -- What every sending keeps of the connections, a message keeps.
  pub process_json_message-Holds :
      (message : Value) (socket : ℕ) (n : Node J L S K)
      → P n.link
      → P (process_json_message J L S K message socket n).link
  unfolding process_json_message
  process_json_message-Holds message socket n h =
      Holds-if (is_member message (codes "method")) _ _ (process_request-Holds message socket n h) (
        Holds-if (is_member message (codes "error") || is_member message (codes "result")) _ n
          (process_response-Holds message n h) h)
