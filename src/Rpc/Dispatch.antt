-- ===== src/Rpc/Dispatch.antt =====
-- JsonRpc.cpp: `_processRequest` and `_processJsonMessage`.
use ice_adapter.Base.{
  ℕ, ℤ, negsuc, Bytes, Bool, true, not, ◌&&◌, ◌||◌, List, [], ◌∷◌, ◌++◌, Option, none, some, codes,
  if◌then◌else◌,
}
use ice_adapter.Base.IntMap.{find, erase}
use ice_adapter.Json.{JsonLib, is_array, is_string_type}
use ice_adapter.Rpc.Framing.{is_null}
use ice_adapter.Rpc.Node.{
  Link, Service, Called, returned, thrown, ended, AsyncReply, result, error, Node, answer,
  send_request,
}

module _ (J : JsonLib) (L : Link) (S : Service J) (K : Type 0) where
  open J use {
    Value, null, empty_array, of_int, of_string, set_member, is_member, member, write, value_type,
    as_string, is_int, as_int,
  }

  -- `v["key"]` of an object; a missing member is null.
  abbrev pub field : Value → Bytes → Value
  field v key = elim (member v key) [ none ↦ null | some x ↦ x ]

  -- What the response starts with.
  unfoldable pub response_to : Value → Value
  response_to request =
      let response = set_member null (codes "jsonrpc") (of_string (codes "2.0")) in
      if is_member request (codes "id")
      then set_member response (codes "id") (field request (codes "id"))
      else response

  -- `response["error"]["code"] = -1`, and the message.
  abbrev pub invalid_request : Bytes → Value
  invalid_request text =
      set_member (set_member null (codes "code") (of_int (negsuc 0))) (codes "message")
        (of_string text)

  abbrev pub with_result : Value → Value → Value
  with_result response v = set_member response (codes "result") v

  abbrev pub with_error : Value → Value → Value
  with_error response v = set_member response (codes "error") v

  -- The test for a valid combination of error and result.
  unfoldable pub outcome : Value → Value → Value → Value
  unfolding is_null
  outcome response r e =
      if not (is_null J r)
      then with_result response r
      else if not (is_null J e)
      then with_error response e
      else with_error response (of_string (codes "invalid response"))

  -- The callback that `_processJsonMessage` passes: notifications get no response.
  unfoldable pub respond : Value → ℕ → Value → Node J L S K → Node J L S K
  respond request socket response n =
      if is_member request (codes "id")
      then (let (good, link) = L.send_message (write response) (some socket) n.link in
          record n { link = link })
      else n

  -- Requests that a callback sends while it runs; none passes a callback of its own.
  unfoldable pub send_all : List (Bytes × Value) → Node J L S K → Node J L S K
  unfolding send_request
  send_all [] n = n
  send_all ((method, params) ∷ rs) n = send_all rs (send_request J L S K method params none none n)

  unfoldable pub respond_all :
      Value → ℕ → Value → List (AsyncReply Value) → Node J L S K → Node J L S K
  unfolding respond
  respond_all request socket response [] n = n
  respond_all request socket response (result v ∷ rs) n =
      respond_all request socket response rs (respond request socket (with_result response v) n)
  respond_all request socket response (error v ∷ rs) n =
      respond_all request socket response rs (respond request socket (with_error response v) n)

  abbrev pub not_found : Bytes → Bytes
  not_found method = codes "RPC callback for method '" ++ (method ++ codes "' not found")

  -- The `try` block around a callback: an exception is only logged.
  abbrev pub after_call : Value → ℕ → Value → Called Value → Node J L S K → Node J L S K
  after_call request socket response (returned r e) n =
      respond request socket (outcome response r e) n
  after_call request socket response thrown n = n
  after_call request socket response ended n = record n { has_ended = true }

  -- A callback in `_callbacksAsync`, or none.
  abbrev pub dispatch_async :
      Value
      → ℕ
      → Value
      → Bytes
      → Value
      → Option (Value → S.State → List (AsyncReply Value) × Bool × S.State)
      → Node J L S K
      → Node J L S K
  dispatch_async request socket response method params none n =
      respond request socket (with_error response (of_string (not_found method))) n
  dispatch_async request socket response method params (some cb) n =
      let (replies, throws, s) = cb params n.service in
      respond_all request socket response replies (record n { service = s })

  -- A callback in `_callbacks`, or none.
  abbrev pub dispatch_to :
      Value
      → ℕ
      → Value
      → Bytes
      → Value
      → Option (Value → S.State → Called Value × List (Bytes × Value) × S.State)
      → Node J L S K
      → Node J L S K
  dispatch_to request socket response method params none n =
      dispatch_async request socket response method params (S.callback_async method) n
  dispatch_to request socket response method params (some cb) n =
      let (called, sent, s) = cb params n.service in
      after_call request socket response called (send_all sent (record n { service = s }))

  -- The call of the callback that is registered for the method.
  unfoldable pub dispatch : Value → ℕ → Value → Bytes → Value → Node J L S K → Node J L S K
  unfolding outcome send_all respond_all
  dispatch request socket response method params n =
      dispatch_to request socket response method params (S.callback method) n

  -- `params`, if it is an array.
  unfoldable pub params_of : Value → Value
  params_of request =
      if is_member request (codes "params")
        && is_array (value_type (field request (codes "params")))
      then field request (codes "params")
      else empty_array

  -- `asString` of a string does not throw.
  abbrev pub dispatch_named : Value → ℕ → Value → Value → Option Bytes → Node J L S K → Node J L S K
  dispatch_named request socket response params none n = n
  dispatch_named request socket response params (some method) n =
      dispatch request socket response method params n

  unfoldable pub process_request : Value → ℕ → Node J L S K → Node J L S K
  unfolding response_to dispatch params_of
  process_request request socket n =
      let response = response_to request in
      if not (is_member request (codes "method"))
      then respond request socket
          (with_error response (invalid_request (codes "missing 'method' parameter"))) n
      else if not (is_string_type (value_type (field request (codes "method"))))
      then respond request socket
          (with_error response (invalid_request (codes "'method' parameter must be a string"))) n
      else dispatch_named request socket response (params_of request)
          (as_string (field request (codes "method"))) n

  abbrev pub member_or_null : Value → Bytes → Value
  member_or_null v key = if is_member v key then field v key else null

  -- The callback is called, and forgotten; an exception of it is only logged.
  abbrev pub resolve : Value → ℤ → Option K → Node J L S K → Node J L S K
  resolve message id none n = n
  resolve message id (some k) n =
      record (answer J L S K (some k) (member_or_null message (codes "result"))
        (member_or_null message (codes "error")) n) {
          current_requests = erase id n.current_requests;
        }

  abbrev pub resolve_id : Value → Option ℤ → Node J L S K → Node J L S K
  resolve_id message none n = n
  resolve_id message (some id) n = resolve message id (find id n.current_requests) n

  unfoldable pub process_response : Value → Node J L S K → Node J L S K
  process_response message n =
      if not (is_member message (codes "id"))
      then n
      else if not (is_int (field message (codes "id")))
      then n
      else resolve_id message (as_int (field message (codes "id"))) n

  unfoldable pub process_json_message : Value → ℕ → Node J L S K → Node J L S K
  unfolding process_request process_response
  process_json_message message socket n =
      if is_member message (codes "method")
      then process_request message socket n
      else if is_member message (codes "error") || is_member message (codes "result")
      then process_response message n
      else n
