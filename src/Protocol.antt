-- ===== src/Protocol.antt =====
-- legacy_testclient/JsonRpcProtocol.h and legacy_testclient/JsonRpcProtocol.cpp: the JSON-RPC of the
-- test client and the test server.
pub mod Trimmed
pub mod Reading
pub mod Sockets
pub mod Ends
pub mod Streams
pub mod Tests
use ice_adapter.Base.{
  ℕ, suc, ℤ, pos, negsuc, Bytes, Bool, true, false, not, ◌||◌, ◌&&◌, List, [], ◌∷◌, ◌++◌, Option,
  none, some, codes, if◌then◌else◌, str_eq,
}
use ice_adapter.Base.IntMap.{find, assign, erase}
use ice_adapter.Json.{JsonLib, is_array, is_string_type}
use ice_adapter.Rpc.Framing.{is_null}
use ice_adapter.Rpc.Node.{is_empty}

-- `std::map<std::string, …>`: what `find` finds, and `insert` of a key that is not there.
unfoldable pub find_callback : {C : Type 0} → Bytes → List (Bytes × C) → Option C
find_callback name [] = none
find_callback name ((other, c) ∷ m) =
    let rest = find_callback name m in if str_eq other name then some c else rest

abbrev pub unless_registered :
    {C : Type 0} → Bytes → C → Option C → List (Bytes × C) → List (Bytes × C)
unless_registered method c none m = (method, c) ∷ m
unless_registered method c (some d) m = m

unfoldable pub set_rpc_callback : {C : Type 0} → Bytes → C → List (Bytes × C) → List (Bytes × C)
unfolding find_callback
set_rpc_callback method c m = unless_registered method c (find_callback method m) m

module _ (J : JsonLib) (S K : Type 0) where
  open J use {
    Value, null, empty_array, of_int, of_string, set_member, is_member, member, write, value_type,
    as_string, is_int, as_int,
  }

  -- What a callback leaves in `result` and `error`, also when an exception ends it, which is caught,
  -- and the state that the callbacks share.
  abbrev pub RpcCallback : Type 0
  RpcCallback = Value → ℕ → S → (Value × Value) × S

  -- A socket is known by its address. `K` names the callbacks that wait for a response, `answered` is the
  -- trace of their calls and `sent` that of the texts that are written. `has_ended` says that an
  -- exception has left a slot. That `mCurrentId` stays below 2 ^ 31 is assumed.
  pub record Endpoint : Type 0 where
    pub callbacks : List (Bytes × RpcCallback)
    pub service : S
    pub current_requests : List (ℤ × K)
    pub current_id : ℕ
    pub answered : List (K × Value × Value)
    pub sent : List (ℕ × Bytes)
    pub has_ended : Bool

  -- `v["key"]` of an object, and the member or null.
  abbrev pub value_or_null : Option Value → Value
  value_or_null none = null
  value_or_null (some v) = v

  abbrev pub field : Value → Bytes → Value
  field v key = value_or_null (member v key)

  abbrev pub answer : Option K → Value → Value → Endpoint → Endpoint
  answer none r e p = p
  answer (some k) r e p = record p { answered = p.answered ++ ((k, r, e) ∷ []) }

  abbrev pub request_of : Bytes → Value → Value
  request_of method params =
      set_member
        (set_member (set_member null (codes "jsonrpc") (of_string (codes "2.0"))) (codes "method")
          (of_string method))
        (codes "params") params

  abbrev pub register : Option K → Value → Endpoint → Value × Endpoint
  register none request p = (request, p)
  register (some k) request p = (
    set_member request (codes "id") (of_int (pos p.current_id)),
    record p {
      current_requests = assign (pos p.current_id) k p.current_requests;
      current_id = suc p.current_id;
    },
  )

  -- `sendJson`, which the derived classes implement: whether the text is sent, and the trace with it.
  abbrev pub SendJson : Type 0
  SendJson = Option ℕ → Bytes → List (ℕ × Bytes) → Bool × List (ℕ × Bytes)

  abbrev pub after_send : Option K → Bool → Endpoint → Endpoint
  after_send k true p = p
  after_send k false p = answer k null (of_string (codes "send failed")) p

  abbrev pub send : SendJson → Option ℕ → Option K → Value → Endpoint → Endpoint
  send send_json socket k request p =
      let (good, sent) = send_json socket (write request) p.sent in
      after_send k good (record p { sent = sent })

  unfoldable pub send_request : SendJson → Bytes → Value → Option ℕ → Option K → Endpoint → Endpoint
  send_request send_json method params socket k p =
      if not (is_array (value_type params))
      then answer k null (of_string (codes "paramsArray MUST be an array")) p
      else if is_empty method
      then answer k null (of_string (codes "method MUST not be empty")) p
      else (let (request, q) = register k (request_of method params) p in
          send send_json socket k request q)

  unfoldable pub response_to : Value → Value
  response_to request =
      let response = set_member null (codes "jsonrpc") (of_string (codes "2.0")) in
      if is_member request (codes "id")
      then set_member response (codes "id") (field request (codes "id"))
      else response

  -- `response["error"]["code"] = -1`, and the message.
  abbrev pub invalid : Bytes → Value → Value
  invalid text response = set_member response (codes "error") (
      set_member (set_member null (codes "code") (of_int (negsuc 0))) (codes "message")
        (of_string text))

  unfoldable pub params_of : Value → Value
  params_of request =
      if is_member request (codes "params")
        && is_array (value_type (field request (codes "params")))
      then field request (codes "params")
      else empty_array

  unfoldable pub outcome : Value → Value × Value → Value
  unfolding is_null
  outcome response (r, e) =
      if not (is_null J r)
      then set_member response (codes "result") r
      else set_member response (codes "error") e

  abbrev pub call : Bytes → Option RpcCallback → Value → ℕ → S → (Value × Value) × S
  call name none params socket s =
      ((null, of_string (codes "RPC callback for method '" ++ (name ++ codes "' not found"))), s)
  call name (some c) params socket s = c params socket s

  abbrev pub after_call : Value → Endpoint → (Value × Value) × S → Value × Endpoint
  after_call request p (r, s) = (outcome (response_to request) r, record p { service = s })

  -- `asString` of a string does not throw.
  abbrev pub call_named : Value → ℕ → Option Bytes → Endpoint → Value × Endpoint
  call_named request socket none p = (null, record p { has_ended = true })
  call_named request socket (some name) p =
      after_call request p
        (call name (find_callback name p.callbacks) (params_of request) socket p.service)

  unfoldable pub process_request : Value → ℕ → Endpoint → Value × Endpoint
  unfolding response_to params_of outcome find_callback
  process_request request socket p =
      if not (is_member request (codes "method"))
      then (invalid (codes "missing 'method' parameter") (response_to request), p)
      else if not (is_string_type (value_type (field request (codes "method"))))
      then (invalid (codes "'method' parameter must be a string") (response_to request), p)
      else call_named request socket (as_string (field request (codes "method"))) p
