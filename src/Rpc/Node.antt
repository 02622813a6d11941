-- ===== src/Rpc/Node.antt =====
-- JsonRpc.h and JsonRpc.cpp: the state of `JsonRpc`, what it is connected to, and `sendRequest`.
use ice_adapter.Base.{
  ℕ, suc, ℤ, pos, Bytes, Bool, true, false, not, List, [], ◌∷◌, ◌++◌, Option, none, some, codes,
  if◌then◌else◌,
}
use ice_adapter.Base.IntMap.{assign}
use ice_adapter.Json.{JsonLib, is_array}

abbrev pub is_empty : Bytes → Bool
is_empty [] = true
is_empty (c ∷ cs) = false

-- What a derived class implements: `_sendMessage`, which answers whether the message was sent. A
-- socket is known by its address; `none` is the null pointer.
pub record Link : Type 1 where
  pub State : Type 0
  pub send_message : Bytes → Option ℕ → State → Bool × State

-- How a callback ends: with what it leaves in `result` and `error`, by an exception, or not at all
-- (`std::exit`, or a null pointer).
pub data Called (V : Type 0) : Type 0 where
  returned : V → V → Called V
  thrown ended : Called V

-- What an asynchronous callback hands to its two response callbacks.
pub data AsyncReply (V : Type 0) : Type 0 where
  result error : V → AsyncReply V

-- The callbacks that are registered, over the state that they change. A callback may send requests
-- while it runs: method and parameters, in order. An asynchronous one may answer while it runs, and
-- may throw after that; answers that it gives later are not modelled.
pub record Service (J : JsonLib) : Type 1 where
  pub State : Type 0
  pub callback : Bytes → Option (J.Value → State → Called J.Value × List (Bytes × J.Value) × State)
  pub callback_async : Bytes → Option (J.Value → State → List (AsyncReply J.Value) × Bool × State)

module _ (J : JsonLib) (L : Link) (S : Service J) (K : Type 0) where
  open J use {Value, null, of_int, of_string, set_member, write, value_type}

  -- `K` names the callbacks that wait for a response, and `answered` is the trace of their calls with a
  -- result and an error. `_currentId` counts from 0; that it stays below 2 ^ 31 is assumed.
  -- `has_ended` says that a callback has ended the program.
  pub record Node : Type 0 where
    pub service : S.State
    pub link : L.State
    pub current_id : ℕ
    pub current_requests : List (ℤ × K)
    pub answered : List (K × Value × Value)
    pub has_ended : Bool

  -- `if (resultCb) { resultCb(result, error); }`
  abbrev pub answer : Option K → Value → Value → Node → Node
  answer none r e n = n
  answer (some k) r e n = record n { answered = n.answered ++ ((k, r, e) ∷ []) }

  abbrev pub request_of : Bytes → Value → Value
  request_of method params =
      set_member
        (set_member (set_member null (codes "jsonrpc") (of_string (codes "2.0"))) (codes "method")
          (of_string method))
        (codes "params") params

  -- A request without a callback has no id: it is a notification.
  abbrev pub register : Option K → Value → Node → Value × Node
  register none request n = (request, n)
  register (some k) request n = (
    set_member request (codes "id") (of_int (pos n.current_id)),
    record n {
      current_id = suc n.current_id;
      current_requests = assign (pos n.current_id) k n.current_requests;
    },
  )

  unfoldable pub send_request : Bytes → Value → Option ℕ → Option K → Node → Node
  send_request method params socket k n =
      if not (is_array (value_type params))
      then answer k null (of_string (codes "paramsArray MUST be an array")) n
      else if is_empty method
      then answer k null (of_string (codes "method MUST not be empty")) n
      else (let (request, n1) = register k (request_of method params) n in
          let (good, link) = L.send_message (write request) socket n1.link in
          let n2 = record n1 { link = link } in
          if good then n2 else answer k null (of_string (codes "send failed")) n2)
