-- ===== src/Rpc/Pending.antt =====
-- JsonRpc.cpp: a request is answered once, in any history of requests and messages.
use ice_adapter.Base.{
  ℕ, suc, ◌≡◌, refl, sym, ◌∙◌, ◌⊎◌, inl, inr, ℤ, pos, negsuc, ℤ_eq, Bytes, Bool, true, false, not,
  ◌||◌, List, [], ◌∷◌, ◌++◌, Option, none, some, arith, Bool-cases, if◌then◌else◌, codes, ap, subst,
}
use ice_adapter.Base.IntMap.{ℤ_ltb, find, assign}
use ice_adapter.Base.IntMap.Laws.{
  IsAscending, find-erase_self, assign-IsAscending, erase-IsAscending, All-assign, All-erase,
}
use ice_adapter.Json.{JsonLib, is_array}
use ice_adapter.Rpc.Node.{Link, Service, Node, is_empty, send_request}
use ice_adapter.Rpc.Dispatch.{
  field, process_request, process_response, process_json_message, resolve, resolve_id,
  member_or_null,
}
use ice_adapter.Rpc.Requests.{
  BelowId, IsOrderly, SameRequests, send_request-SameRequests, process_request-SameRequests,
  IsOrderly-SameRequests,
}

module _ (J : JsonLib) (L : Link) (S : Service J) (K : Type 0) where
  open J use {Value, is_member, is_int, as_int, value_type, null}

  BelowId-suc : (n : ℕ) (m : List (ℤ × K)) → BelowId J L S K n m → BelowId J L S K (suc n) m
  BelowId-suc n [] h = tt
  BelowId-suc n ((pos i, k) ∷ m) h = (ground arith, BelowId-suc n m h.1)
  BelowId-suc n ((negsuc i, k) ∷ m) h = (refl, BelowId-suc n m h.1)

  pub find-BelowId : (n : ℕ) (m : List (ℤ × K)) → BelowId J L S K n m → find (pos n) m ≡ none
  unfolding find ℤ_eq
  find-BelowId n [] h = refl
  find-BelowId n ((pos i, k) ∷ m) h = ground (arith, find-BelowId n m h.1)
  find-BelowId n ((negsuc i, k) ∷ m) h = find-BelowId n m h.1

  -- The node after `register` with a callback, whatever the sending of the request does.
  abbrev pub awaiting : K → Node J L S K → Node J L S K
  awaiting k n = record n {
    current_id = suc n.current_id;
    current_requests = assign (pos n.current_id) k n.current_requests;
  }

  awaiting-IsOrderly :
      (k : K) (n : Node J L S K) → IsOrderly J L S K n → IsOrderly J L S K (awaiting k n)
  awaiting-IsOrderly k n o = (
    assign-IsAscending (pos n.current_id) k n.current_requests o.0,
    All-assign (λ e. ℤ_ltb e.0 (pos (suc n.current_id)) ≡ true) (pos n.current_id) k
        n.current_requests (ground arith) (BelowId-suc n.current_id n.current_requests o.1),
  )

  pub send_request_lem :
      (method : Bytes) (params : Value) (socket : Option ℕ) (k : K) (n : Node J L S K)
      → is_array (value_type params) ≡ true
      → is_empty method ≡ false
      → SameRequests J L S K (awaiting k n) (send_request J L S K method params socket (some k) n)
  unfolding send_request
  send_request_lem method params socket k n a e = ground arith

  send_request_refused :
      (method : Bytes) (params : Value) (socket : Option ℕ) (k : K) (n : Node J L S K)
      → (is_array (value_type params) ≡ false) ⊎ (is_empty method ≡ true)
      → SameRequests J L S K n (send_request J L S K method params socket (some k) n)
  unfolding send_request
  send_request_refused method params socket k n h = ground arith

  send_request-IsOrderly :
      (method : Bytes) (params : Value) (socket : Option ℕ) (k : Option K) (n : Node J L S K)
      → IsOrderly J L S K n
      → IsOrderly J L S K (send_request J L S K method params socket k n)
  send_request-IsOrderly method params socket none n o =
      IsOrderly-SameRequests J L S K n (send_request J L S K method params socket none n)
        (send_request-SameRequests J L S K method params socket n) o
  send_request-IsOrderly method params socket (some k) n o =
      elim (Bool-cases (is_array (value_type params))) [
        | inl a ↦ elim (Bool-cases (is_empty method)) [
          | inl e ↦
              IsOrderly-SameRequests J L S K n
                (send_request J L S K method params socket (some k) n)
                (send_request_refused method params socket k n (inr e)) o
          | inr e ↦
              IsOrderly-SameRequests J L S K (awaiting k n)
                (send_request J L S K method params socket (some k) n)
                (send_request_lem method params socket k n a e) (awaiting-IsOrderly k n o)
        ]
        | inr a ↦
            IsOrderly-SameRequests J L S K n (send_request J L S K method params socket (some k) n)
              (send_request_refused method params socket k n (inl a)) o
      ]

  resolve-IsOrderly :
      (message : Value) (id : ℤ) (o : Option K) (n : Node J L S K)
      → IsOrderly J L S K n
      → IsOrderly J L S K (resolve J L S K message id o n)
  resolve-IsOrderly message id none n o = o
  resolve-IsOrderly message id (some k) n o = (
    erase-IsAscending id n.current_requests o.0,
    All-erase (λ e. ℤ_ltb e.0 (pos n.current_id) ≡ true) id n.current_requests o.1,
  )

  resolve_id-IsOrderly :
      (message : Value) (id : Option ℤ) (n : Node J L S K)
      → IsOrderly J L S K n
      → IsOrderly J L S K (resolve_id J L S K message id n)
  resolve_id-IsOrderly message none n o = o
  resolve_id-IsOrderly message (some id) n o =
      resolve-IsOrderly message id (find id n.current_requests) n o

  IsOrderly-if :
      (b : Bool) (l r : Node J L S K)
      → IsOrderly J L S K l
      → IsOrderly J L S K r
      → IsOrderly J L S K (if b then l else r)
  IsOrderly-if true l r h k = h
  IsOrderly-if false l r h k = k

  process_response-IsOrderly :
      (message : Value) (n : Node J L S K)
      → IsOrderly J L S K n
      → IsOrderly J L S K (process_response J L S K message n)
  unfolding process_response
  process_response-IsOrderly message n o =
      IsOrderly-if (not (is_member message (codes "id"))) n _ o (
        IsOrderly-if (not (is_int (field J L S K message (codes "id")))) n _ o
          (resolve_id-IsOrderly message (as_int (field J L S K message (codes "id"))) n o))

  process_json_message-IsOrderly :
      (message : Value) (socket : ℕ) (n : Node J L S K)
      → IsOrderly J L S K n
      → IsOrderly J L S K (process_json_message J L S K message socket n)
  unfolding process_json_message
  process_json_message-IsOrderly message socket n o =
      IsOrderly-if (is_member message (codes "method")) _ _
        (IsOrderly-SameRequests J L S K n (process_request J L S K message socket n)
          (process_request-SameRequests J L S K message socket n) o)
        (IsOrderly-if (is_member message (codes "error") || is_member message (codes "result")) _ n
          (process_response-IsOrderly message n o) o)

  -- What happens to a node: the program sends a request, or a message arrives.
  pub data Event : Type 0 where
    sends : Bytes → Value → Option ℕ → Option K → Event
    arrives : Value → ℕ → Event

  unfoldable pub run : List Event → Node J L S K → Node J L S K
  run [] n = n
  run (sends method params socket k ∷ es) n = run es (send_request J L S K method params socket k n)
  run (arrives message socket ∷ es) n = run es (process_json_message J L S K message socket n)

  abbrev pub IsNew : Node J L S K → Type 0
  IsNew n = n.current_requests ≡ []

  pub run-IsOrderly :
      (es : List Event) (n : Node J L S K) → IsOrderly J L S K n → IsOrderly J L S K (run es n)
  unfolding run
  run-IsOrderly [] n o = o
  run-IsOrderly (sends method params socket k ∷ es) n o =
      run-IsOrderly es (send_request J L S K method params socket k n)
        (send_request-IsOrderly method params socket k n o)
  run-IsOrderly (arrives message socket ∷ es) n o =
      run-IsOrderly es (process_json_message J L S K message socket n)
        (process_json_message-IsOrderly message socket n o)

  pub IsNew-IsOrderly : (n : Node J L S K) → IsNew n → IsOrderly J L S K n
  IsNew-IsOrderly n h = subst (λ m. IsAscending m × BelowId J L S K n.current_id m) (sym h) (tt, tt)

  -- A response with the id of a request: a result, an error, or both.
  abbrev pub IsResponseTo : ℤ → Value → Type 0
  IsResponseTo id v =
      (is_member v (codes "method") ≡ false)
      × ((is_member v (codes "error") || is_member v (codes "result")) ≡ true)
      × (is_member v (codes "id") ≡ true)
      × (is_int (field J L S K v (codes "id")) ≡ true)
      × (as_int (field J L S K v (codes "id")) ≡ some id)

  response_lem :
      (v : Value) (socket : ℕ) (id : ℤ) (n : Node J L S K)
      → IsResponseTo id v
      → process_json_message J L S K v socket n
        ≡ resolve J L S K v id (find id n.current_requests) n
  unfolding process_json_message process_response
  response_lem v socket id n h = rw (h.0, h.1, h.2, h.3, h.4)

  -- After any history of a node that starts with no request waiting: the response to a waiting request
  -- calls the request's callback, with the result and the error of the response or null for a missing
  -- one. The request does not wait any more, and the same response a second time changes nothing.
  pub response_once :
      (es : List Event) (start : Node J L S K) (v : Value) (socket : ℕ) (id : ℤ) (k : K)
      → IsNew start
      → IsResponseTo id v
      → find id (run es start).current_requests ≡ some k
      → let n1 = process_json_message J L S K v socket (run es start) in
        (n1.answered
          ≡ (run es start).answered
            ++ ((
              k,
              member_or_null J L S K v (codes "result"),
              member_or_null J L S K v (codes "error"),
            )
                ∷ []))
        × (find id n1.current_requests ≡ none)
        × (process_json_message J L S K v socket n1 ≡ n1)
  response_once es start v socket id k new h waits =
      let n = run es start in
      let o = run-IsOrderly es start (IsNew-IsOrderly start new) in
      let done : process_json_message J L S K v socket n ≡ resolve J L S K v id (some k) n =
        response_lem v socket id n h ∙ ap (λ w. resolve J L S K v id w n) waits in
      let gone = find-erase_self id n.current_requests o.0 in
      rw done (
        refl,
        gone,
        response_lem v socket id (resolve J L S K v id (some k) n) h
            ∙ ap (λ w. resolve J L S K v id w (resolve J L S K v id (some k) n)) gone,
      )
