-- ===== src/Rpc/Answers.antt =====
-- JsonRpc.cpp `_processRequest`: which response a request gets.
use ice_adapter.Base.{
  ℕ, ◌≡◌, refl, ap, ◌∙◌, ◌⊎◌, inl, inr, Bytes, true, false, List, ◌++◌, none, some, Bool-cases,
  codes, str_eq,
}
use ice_adapter.Json.{JsonLib, JsonLaws, ObjectLaws, is_string_type}
use ice_adapter.Rpc.Framing.{is_null}
use ice_adapter.Rpc.Node.{Link, Service, Called, returned, thrown, Node}
use ice_adapter.Rpc.Dispatch.{
  field, response_to, outcome, respond, send_all, not_found, dispatch, params_of, process_request,
  process_json_message,
}
use ice_adapter.Rpc.Responses.{
  CarriesId, Replies, version, start_of, set_member-CarriesId, HasOnly, with_result-HasOnly,
  with_error-HasOnly,
}

module _ (J : JsonLib) (laws : JsonLaws J) (objects : ObjectLaws J) (L : Link) (S : Service J)
    (K : Type 0) where
  open J use {Value, of_string, set_member, member, is_member, value_type, as_string, write}

  outcome-Replies :
      (x r e : Value)
      → CarriesId J laws objects (outcome J L S K (start_of J laws objects x) r e) x
        × Replies J laws objects (outcome J L S K (start_of J laws objects x) r e) r e
  unfolding outcome str_eq
  outcome-Replies x r e = elim (Bool-cases (is_null J r)) [
    | inl r_null ↦ elim (Bool-cases (is_null J e)) [
      | inl e_null ↦
          rw (r_null, e_null)
            (
              set_member-CarriesId J laws objects x (codes "error")
                  (of_string (codes "invalid response")) refl refl,
              with_error-HasOnly J laws objects x (of_string (codes "invalid response")),
            )
      | inr e_set ↦
          rw (r_null, e_set)
            (
              set_member-CarriesId J laws objects x (codes "error") e refl refl,
              with_error-HasOnly J laws objects x e,
            )
    ]
    | inr r_set ↦ rw r_set (
      set_member-CarriesId J laws objects x (codes "result") r refl refl,
      with_result-HasOnly J laws objects x r,
    )
  ]

  -- A request for a method, with an id.
  abbrev pub IsCall : Value → Value → Value → Bytes → Type 0
  IsCall v x name method =
      (is_member v (codes "method") ≡ true)
      × (member v (codes "method") ≡ some name)
      × (is_string_type (value_type name) ≡ true)
      × (as_string name ≡ some method)
      × (is_member v (codes "id") ≡ true)
      × (member v (codes "id") ≡ some x)

  -- The node after the response to the client is sent.
  abbrev pub replied : Value → ℕ → Node J L S K → Node J L S K
  replied response socket n = record n {
    link = (L.send_message (write response) (some socket) n.link).1;
  }

  field_lem : (v x : Value) (k : Bytes) → member v k ≡ some x → field J L S K v k ≡ x
  field_lem v x k h = rw (h, field) refl

  response_to_lem :
      (v x : Value)
      → is_member v (codes "id") ≡ true
      → member v (codes "id") ≡ some x
      → response_to J L S K v ≡ start_of J laws objects x
  unfolding response_to
  response_to_lem v x has_id id =
      rw has_id
        (ap (set_member (version J laws objects) (codes "id")) (field_lem v x (codes "id") id))

  respond_lem :
      (v response : Value) (socket : ℕ) (n : Node J L S K)
      → is_member v (codes "id") ≡ true
      → respond J L S K v socket response n ≡ replied response socket n
  unfolding respond
  respond_lem v response socket n has_id = rw has_id refl

  dispatched_any :
      (v name : Value) (method : Bytes) (socket : ℕ) (n : Node J L S K)
      → is_member v (codes "method") ≡ true
      → member v (codes "method") ≡ some name
      → is_string_type (value_type name) ≡ true
      → as_string name ≡ some method
      → process_json_message J L S K v socket n
        ≡ dispatch J L S K v socket (response_to J L S K v) method (params_of J L S K v) n
  unfolding process_json_message process_request
  dispatched_any v name method socket n is_request named is_string text =
      let named_lem = field_lem v name (codes "method") named in
      let string_lem = ap (λ y. is_string_type (value_type y)) named_lem ∙ is_string in
      let text_lem = ap as_string named_lem ∙ text in rw (is_request, string_lem, text_lem) refl

  dispatched :
      (v x name : Value) (method : Bytes) (socket : ℕ) (n : Node J L S K)
      → IsCall v x name method
      → process_json_message J L S K v socket n
        ≡ dispatch J L S K v socket (start_of J laws objects x) method (params_of J L S K v) n
  dispatched v x name method socket n h =
      dispatched_any v name method socket n h.0 h.1 h.2 h.3
      ∙ ap (λ start. dispatch J L S K v socket start method (params_of J L S K v) n)
          (response_to_lem v x h.4 h.5)

  -- A call with an id whose callback returns with `r` in the result and `e` in the error, after it
  -- has sent requests of its own: the client gets exactly one response, after those requests. It
  -- carries the protocol's version J laws objects and the id of the call, and either a result or an error: the
  -- result `r` unless it is null, else the error `e` unless it is null, else a text.
  pub request_answered :
      (v x name : Value) (method : Bytes) (socket : ℕ) (n : Node J L S K)
      (cb : Value → S.State → Called Value × List (Bytes × Value) × S.State) (r e : Value)
      (sent : List (Bytes × Value)) (s : S.State)
      → IsCall v x name method
      → S.callback method ≡ some cb
      → cb (params_of J L S K v) n.service ≡ (returned r e, sent, s)
      → (response : Value) × CarriesId J laws objects response x
        × Replies J laws objects response r e
        × (process_json_message J L S K v socket n
            ≡ replied response socket (send_all J L S K sent (record n { service = s })))
  unfolding dispatch
  request_answered v x name method socket n cb r e sent s h registered runs =
      let response = outcome J L S K (start_of J laws objects x) r e in
      let right = outcome-Replies x r e in
      (
        response,
        right.0,
        right.1,
        dispatched v x name method socket n h
            ∙ (rw (registered, runs)
                (respond_lem v response socket (send_all J L S K sent (record n { service = s }))
                  h.4)),
      )

  -- A call with an id of a method without a callback: the client gets exactly one response, with the
  -- version, the id of the call and the error text that names the method, and no result. Nothing else
  -- changes.
  pub unknown_method_answered :
      (v x name : Value) (method : Bytes) (socket : ℕ) (n : Node J L S K)
      → IsCall v x name method
      → S.callback method ≡ none
      → S.callback_async method ≡ none
      → (response : Value) × CarriesId J laws objects response x
        × HasOnly J laws objects
            (codes "error")
            (codes "result")
            response
            (of_string (codes "RPC callback for method '" ++ (method ++ codes "' not found")))
        × (process_json_message J L S K v socket n ≡ replied response socket n)
  unfolding dispatch str_eq
  unknown_method_answered v x name method socket n h not_here not_async =
      let text = of_string (not_found J L S K method) in
      let response = set_member (start_of J laws objects x) (codes "error") text in
      (
        response,
        set_member-CarriesId J laws objects x (codes "error") text refl refl,
        with_error-HasOnly J laws objects x text,
        dispatched v x name method socket n h
            ∙ (rw (not_here, not_async) (respond_lem v response socket n h.4)),
      )

  -- Two calls of a registered callback that get no response: one without an id, and one whose callback
  -- throws, even if it has an id. All that is sent are the requests of the callback.
  pub call_unanswered :
      (v name : Value) (method : Bytes) (socket : ℕ) (n : Node J L S K)
      (cb : Value → S.State → Called Value × List (Bytes × Value) × S.State) (called : Called Value)
      (r e : Value) (sent : List (Bytes × Value)) (s : S.State)
      → is_member v (codes "method") ≡ true
      → member v (codes "method") ≡ some name
      → is_string_type (value_type name) ≡ true
      → as_string name ≡ some method
      → S.callback method ≡ some cb
      → cb (params_of J L S K v) n.service ≡ (called, sent, s)
      → (called ≡ thrown) ⊎ ((called ≡ returned r e) × (is_member v (codes "id") ≡ false))
      → process_json_message J L S K v socket n ≡ send_all J L S K sent (record n { service = s })
  unfolding dispatch respond
  call_unanswered v name method socket n cb called r e sent s is_request named is_string text
        registered runs (inl throws) =
      dispatched_any v name method socket n is_request named is_string text
      ∙ (rw (registered, runs, throws) refl)
  call_unanswered v name method socket n cb called r e sent s is_request named is_string text
        registered runs (inr (returns, no_id)) =
      dispatched_any v name method socket n is_request named is_string text
      ∙ (rw (registered, runs, returns, no_id) refl)
