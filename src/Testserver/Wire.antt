-- ===== src/Testserver/Wire.antt =====
-- legacy_testclient/Testserver.cpp behind legacy_testclient/JsonRpcProtocol.cpp: what the bytes of a
-- client do to the server.
use ice_adapter.Base.{
  ℕ, ◌≡◌, refl, ap, sym, ◌∙◌, subst, Bytes, Bool, true, false, not, List, [], ◌∷◌, ◌++◌, some,
  codes, if◌then◌else◌, str_eq, map, All,
}
use ice_adapter.Json.{JsonLib, JsonLaws, is_array, is_string_type}
use ice_adapter.Protocol.{
  Endpoint, RpcCallback, set_rpc_callback, find_callback, field, params_of, process_request,
  call_named, after_call, call,
}
use ice_adapter.Protocol.Reading.{on_message, respond, Processed, on_ready_read}
use ice_adapter.Protocol.Sockets.{copy_callbacks}
use ice_adapter.Protocol.Streams.{on_all, NeverEnds, all_processed}
use ice_adapter.Rpc.Stream.{AreMessages, stream}
use ice_adapter.Testserver.{Testserver}
use ice_adapter.Testserver.Histories.{
  Method, reconnect, host_game, leave_game, join_game, send_ice_msg, callback, Event, calls, step,
  run,
}

abbrev pub name_of : Method → Bytes
name_of Method.login = codes "login"
name_of reconnect = codes "reconnect"
name_of host_game = codes "hostGame"
name_of leave_game = codes "leaveGame"
name_of join_game = codes "joinGame"
name_of send_ice_msg = codes "sendIceMsg"

module _ (J : JsonLib) (K : Type 0) where
  abbrev ServerCallbacks : Type 0
  ServerCallbacks = List (Bytes × RpcCallback J (Testserver J) K)

  -- The calls of `setRpcCallback` in the constructor.
  unfoldable pub server_callbacks : ServerCallbacks
  unfolding set_rpc_callback callback
  server_callbacks =
      let add =
        λ (m : Method) (cs : ServerCallbacks). set_rpc_callback (name_of m) (callback J m) cs in
      add send_ice_msg
        (add join_game (add leave_game (add host_game (add reconnect (add Method.login [])))))

  -- What a new socket of the server has.
  abbrev pub socket_callbacks : ServerCallbacks
  unfolding copy_callbacks server_callbacks
  socket_callbacks = copy_callbacks J (Testserver J) K server_callbacks []

  callback_found : (m : Method) → find_callback (name_of m) socket_callbacks ≡ some (callback J m)
  unfolding find_callback set_rpc_callback copy_callbacks server_callbacks str_eq
  callback_found Method.login = refl
  callback_found reconnect = refl
  callback_found host_game = refl
  callback_found leave_game = refl
  callback_found join_game = refl
  callback_found send_ice_msg = refl

if_lem : {A : Type 0} (b : Bool) (x y : A) → b ≡ true → (if b then x else y) ≡ x
if_lem true x y e = refl
if_lem false x y e = cc

unless_lem : {A : Type 0} (b : Bool) (x y : A) → b ≡ true → (if not b then x else y) ≡ y
unless_lem true x y e = refl
unless_lem false x y e = cc

module _ (J : JsonLib) (laws : JsonLaws J) (K : Type 0) (k : ℕ) where
  open J use {Value, is_member, value_type, as_string}

  abbrev Client : Type 0
  Client = Endpoint J (Testserver J) K

  -- A message with the name of a method of the server, and with an array of parameters.
  abbrev pub IsCall : Value → Method → Value → Type 0
  IsCall v m params =
      (is_member v (codes "method") ≡ true)
      × (is_member v (codes "params") ≡ true)
      × (J.member v (codes "params") ≡ some params)
      × (is_array (value_type params) ≡ true)
      × (name : Value) × (J.member v (codes "method") ≡ some name)
      × (is_string_type (value_type name) ≡ true)
      × (as_string name ≡ some (name_of m))

  abbrev pub IsReady : Client → Type 0
  IsReady p = (p.callbacks ≡ socket_callbacks J K) × (p.has_ended ≡ false)

  -- The endpoint after the call, but for the response.
  abbrev called : Value → Method → Value → Client → Value × Client
  called v m params p = after_call J (Testserver J) K v p (callback J m params k p.service)

  field_lem :
      (v x : Value) (key : Bytes) → J.member v key ≡ some x → field J (Testserver J) K v key ≡ x
  unfolding field
  field_lem v x key e = rw e

  params_lem :
      (v : Value) (m : Method) (params : Value)
      → IsCall v m params
      → params_of J (Testserver J) K v ≡ params
  unfolding params_of
  params_lem v m params (_, member, e, array, _, _, _, _) =
      rw (member, field_lem v params (codes "params") e, array)

  call_processed :
      (v : Value) (m : Method) (params : Value) (p : Client)
      → IsCall v m params
      → p.callbacks ≡ socket_callbacks J K
      → on_message J (Testserver J) K k v p ≡ respond J (Testserver J) K v k (called v m params p)
  unfolding on_message process_request
  call_processed v m params p is_call known =
      let S : Type 0 = Testserver J in
      let (member, _, _, _, name, e, text, named) = is_call in
      let method = field_lem v name (codes "method") e in
      if_lem (is_member v (codes "method")) _ _ member
      ∙ ap (respond J S K v k) (
          unless_lem (is_member v (codes "method")) _ _ member
          ∙ unless_lem (is_string_type (value_type (field J S K v (codes "method")))) _ _
              (ap (λ x. is_string_type (value_type x)) method ∙ text)
          ∙ ap (λ r. call_named J S K v k r p) (ap as_string method ∙ named)
          ∙ ap
              (λ c. after_call J S K v p (call J S K (name_of m) c (params_of J S K v) k p.service))
              (ap (find_callback (name_of m)) known ∙ callback_found J K m)
          ∙ ap (λ x. after_call J S K v p (callback J m x k p.service))
              (params_lem v m params is_call))

  responded :
      (v : Value) (r : Value) (q : Client)
      → let t = respond J (Testserver J) K v k (r, q) in
        (t.callbacks ≡ q.callbacks) × (t.has_ended ≡ q.has_ended) × (t.service ≡ q.service)
  responded v r q = by_id (is_member v (codes "id"))
    where
      by_id :
          (b : Bool)
          → let t : Client =
              (if b then record q { sent = q.sent ++ ((k, J.write r) ∷ []) } else q) in
            (t.callbacks ≡ q.callbacks) × (t.has_ended ≡ q.has_ended) × (t.service ≡ q.service)
      by_id true = (refl, refl, refl)
      by_id false = (refl, refl, refl)

  call_steps :
      (v : Value) (m : Method) (params : Value) (p : Client)
      → IsCall v m params
      → IsReady p
      → let q = on_message J (Testserver J) K k v p in
        IsReady q × (q.service ≡ step J (calls k m params) p.service)
  unfolding step
  call_steps v m params p is_call (known, goes_on) =
      let q = called v m params p in
      let (same, ended, service) = responded v q.0 q.1 in
      subst (λ t. IsReady t × (t.service ≡ step J (calls k m params) p.service))
        (sym (call_processed v m params p is_call known)) ((same ∙ known, ended ∙ goes_on), service)

  -- The method, the parameters, the text behind the first brace, and the value of each request.
  abbrev pub Requests : Type 0
  Requests = List (Method × Value × Bytes × Value)

  abbrev pub messages_of : Requests → List (Bytes × Value)
  messages_of rs = map (λ r. (r.2, r.3)) rs

  abbrev pub AreCalls : Requests → Type 0
  AreCalls rs = All (λ r. IsCall r.3 r.0 r.1) rs

  abbrev pub events_of : Requests → List (Event J)
  events_of rs = map (λ r. calls k r.0 r.1) rs

  calls_step :
      (rs : Requests) (p : Client)
      → AreCalls rs
      → IsReady p
      → let q = on_all J laws (Testserver J) K k (messages_of rs) p in
        NeverEnds J laws (Testserver J) K k (messages_of rs) p
        × IsReady q
        × (q.service ≡ run J (events_of rs) p.service)
  unfolding run
  calls_step [] p are_calls ready = (tt, ready, refl)
  calls_step (r ∷ rs) p are_calls ready =
      let (ready', service) = call_steps r.3 r.0 r.1 p are_calls.0 ready in
      let (goes_on, still, later) =
        calls_step rs (on_message J (Testserver J) K k r.3 p) are_calls.1 ready' in
      ((ready'.1, goes_on), still, later ∙ ap (run J (events_of rs)) service)

  -- A client that has the callbacks of a new socket of the server sends requests, each one a JSON object
  -- with a method of the server and an array of parameters, with a newline behind each; the reader
  -- accepts each object as its value, which is not null, and the loop that counts braces and quotes
  -- finds its end, which an escaped quote can prevent. The first bytes may be in the client's buffer
  -- already when the other ones come. Then the server's state is that after these
  -- calls, one after the other, each with the parameters of its request; no byte is left, and the
  -- client is ready for the next requests.
  pub requests_run :
      (rs : Requests) (bytes : Bytes) (q : Processed J (Testserver J) K)
      → AreMessages J laws (messages_of rs)
      → AreCalls rs
      → IsReady q.endpoint
      → q.buffer ++ bytes ≡ stream J laws (messages_of rs)
      → let r = on_ready_read J (Testserver J) K k bytes q in
        (r.endpoint.service ≡ run J (events_of rs) q.endpoint.service)
        × (r.buffer ≡ [])
        × (r.finished ≡ true)
        × IsReady r.endpoint
  requests_run rs bytes q are_messages are_calls ready arrived =
      let (never, still, service) = calls_step rs q.endpoint are_calls ready in
      let e =
        all_processed J laws (Testserver J) K k (messages_of rs) bytes q are_messages never
          arrived in
      (
        ap (λ r. r.endpoint.service) e ∙ service,
        ap (λ r. r.buffer) e,
        ap (λ r. r.finished) e,
        subst (λ r. IsReady r.endpoint) (sym e) still,
      )
