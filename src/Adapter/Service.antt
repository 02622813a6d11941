-- ===== src/Adapter/Service.antt =====
-- IceAdapter.cpp: the adapter's handlers as the callbacks of its JSON-RPC server.
use ice_adapter.Base.{
  ℕ, ◌≡◌, ◌≢◌, subst, refl, ap, ◌⊎◌, inl, inr, Bytes, Bool, true, false, List, length, drop, Option,
  none, some, codes, if◌then◌else◌, str_eq,
}
use ice_adapter.Json.{JsonLib, JsonLaws, ObjectLaws}
use ice_adapter.Relay.State.{Webrtc, Run, ok, exited, threw, null_pointer}
use ice_adapter.Adapter.State.{IceAdapter, Moment, Exec}
use ice_adapter.Adapter.Status.{Listening}
use ice_adapter.Adapter.Handlers.{
  Reply, result, error, caught, answer, try_block, checked, callback_of, on_quit, on_host_game,
  on_join_game, on_connect_to_peer, on_disconnect_from_peer, on_set_lobby_init_mode, on_ice_msg,
  on_send_to_gpg_net, on_set_ice_servers, on_status,
}
use ice_adapter.Rpc.Node.{Link, Service, Called, returned, thrown, ended, Node}
use ice_adapter.Rpc.Dispatch.{params_of, process_json_message, send_all}
use ice_adapter.Rpc.Responses.{CarriesId, Replies}
use ice_adapter.Rpc.Answers.{IsCall, replied, request_answered}

module _ (J : JsonLib) (W : Webrtc) where
  open J use {Value, null, of_string}

  -- How a handler ends: `result` and `error` start as null. `what` is the text of the exception that a
  -- handler catches.
  abbrev pub called_of : Bytes → Run (Reply Value) → Called Value
  called_of what (ok (result v)) = returned v null
  called_of what (ok (error text)) = returned null (of_string text)
  called_of what (ok caught) = returned null (of_string what)
  called_of what exited = ended
  called_of what threw = thrown
  called_of what null_pointer = ended

  -- The requests that a handler has sent to the client.
  abbrev pub sent_since : IceAdapter J → IceAdapter J → List (Bytes × Value)
  sent_since a b = drop (length a.requests) b.requests

  abbrev pub run_handler :
      Bytes
      → (Value → Exec J (Reply Value))
      → Value
      → IceAdapter J
      → Called Value × List (Bytes × Value) × IceAdapter J
  run_handler what m params a = let (r, b) = m params a in (called_of what r, sent_since a b, b)

  abbrev pub registered :
      Bytes
      → Option (Value → Exec J (Reply Value))
      → Option (Value → IceAdapter J → Called Value × List (Bytes × Value) × IceAdapter J)
  registered what none = none
  registered what (some m) = some (run_handler what m)

  -- `_connectRpcMethods` registers no asynchronous callback.
  abbrev pub adapter_service : Listening → Moment → Bytes → Service J
  adapter_service l t what = record {
    State = IceAdapter J;
    callback = λ method. registered what (callback_of J W l t method);
    callback_async = λ method. none;
  }

  unfoldable Catches : Exec J (Reply Value) → Type 0
  Catches m = (a : IceAdapter J) → (m a).0 ≢ threw

  abbrev RegisteredCatches : Option (Value → Exec J (Reply Value)) → Type 0
  RegisteredCatches none = Unit {0}
  RegisteredCatches (some m) = (params : Value) → Catches (m params)

  RegisteredCatches-if :
      (b : Bool) (o p : Option (Value → Exec J (Reply Value)))
      → RegisteredCatches o
      → RegisteredCatches p
      → RegisteredCatches (if b then o else p)
  RegisteredCatches-if true o p h k = h
  RegisteredCatches-if false o p h k = k

  answer-catches : (r : Run (Unit {0})) (a : IceAdapter J) → (answer J W r a).0 ≢ threw
  answer-catches (ok tt) a e = cc
  answer-catches exited a e = cc
  answer-catches threw a e = cc
  answer-catches null_pointer a e = cc

  checked-Catches :
      (b : Bool) (text : Bytes) (m : Exec J (Unit {0})) → Catches (checked J W b text m)
  unfolding Catches checked try_block
  checked-Catches true text m a e = answer-catches (m a).0 (m a).1 e
  checked-Catches false text m a e = cc

  host_game-Catches : (params : Value) → Catches (on_host_game J W params)
  unfolding on_host_game
  host_game-Catches params = search checked-Catches

  join_game-Catches : (t : Moment) (params : Value) → Catches (on_join_game J W t params)
  unfolding on_join_game
  join_game-Catches t params = search checked-Catches

  connect_to_peer-Catches :
      (t : Moment) (params : Value) → Catches (on_connect_to_peer J W t params)
  unfolding on_connect_to_peer
  connect_to_peer-Catches t params = search checked-Catches

  disconnect_from_peer-Catches : (params : Value) → Catches (on_disconnect_from_peer J W params)
  unfolding on_disconnect_from_peer
  disconnect_from_peer-Catches params = search checked-Catches

  set_lobby_init_mode-Catches : (params : Value) → Catches (on_set_lobby_init_mode J W params)
  unfolding on_set_lobby_init_mode
  set_lobby_init_mode-Catches params = search checked-Catches

  ice_msg-Catches : (t : Moment) (params : Value) → Catches (on_ice_msg J W t params)
  unfolding on_ice_msg
  ice_msg-Catches t params = search checked-Catches

  send_to_gpg_net-Catches : (params : Value) → Catches (on_send_to_gpg_net J W params)
  unfolding on_send_to_gpg_net
  send_to_gpg_net-Catches params = search checked-Catches

  set_ice_servers-Catches : (params : Value) → Catches (on_set_ice_servers J W params)
  unfolding on_set_ice_servers
  set_ice_servers-Catches params = search checked-Catches

  quit-Catches : Catches (on_quit J W)
  unfolding Catches on_quit
  quit-Catches a e = cc

  status-Catches : (l : Listening) → Catches (on_status J W l)
  unfolding Catches on_status
  status-Catches l a e = cc

  callback_of-Catches :
      (l : Listening) (t : Moment) (method : Bytes) → RegisteredCatches (callback_of J W l t method)
  unfolding callback_of
  callback_of-Catches l t method =
      RegisteredCatches-if (str_eq method (codes "quit")) _ _ (λ params. quit-Catches)
        (RegisteredCatches-if (str_eq method (codes "hostGame")) _ _ host_game-Catches (
          RegisteredCatches-if (str_eq method (codes "joinGame")) _ _ (join_game-Catches t) (
            RegisteredCatches-if (str_eq method (codes "connectToPeer")) _ _
              (connect_to_peer-Catches t)
              (RegisteredCatches-if (str_eq method (codes "disconnectFromPeer")) _ _
                disconnect_from_peer-Catches
                (RegisteredCatches-if (str_eq method (codes "setLobbyInitMode")) _ _
                  set_lobby_init_mode-Catches
                  (RegisteredCatches-if (str_eq method (codes "iceMsg")) _ _ (ice_msg-Catches t) (
                    RegisteredCatches-if (str_eq method (codes "sendToGpgNet")) _ _
                      send_to_gpg_net-Catches
                      (RegisteredCatches-if (str_eq method (codes "setIceServers")) _ _
                        set_ice_servers-Catches
                        (RegisteredCatches-if (str_eq method (codes "status")) _ _
                          (λ params. status-Catches l) tt)))))))))

  called_of-cases :
      (what : Bytes) (r : Run (Reply Value))
      → r ≢ threw
      → (called_of what r ≡ ended) ⊎ ((v : Value) × (e : Value) × (called_of what r ≡ returned v e))
  called_of-cases what (ok (result v)) c = inr (v, null, refl)
  called_of-cases what (ok (error text)) c = inr (null, of_string text, refl)
  called_of-cases what (ok caught) c = inr (null, of_string what, refl)
  called_of-cases what exited c = inl refl
  called_of-cases what threw c = absurd (c refl)
  called_of-cases what null_pointer c = inl refl

  module _ (laws : JsonLaws J) (objects : ObjectLaws J) (L : Link) (K : Type 0) where
    -- A call with an id of a method of the adapter gets exactly one response, whatever its parameters
    -- are, unless it ends the program. The response comes after the requests that the handler sends;
    -- it carries the id of the call, and exactly one of the handler's result and its error. No
    -- handler lets an exception out.
    pub adapter_answers :
        (l : Listening) (t : Moment) (what : Bytes) (v x name : Value) (method : Bytes) (socket : ℕ)
        (n : Node J L (adapter_service l t what) K) (m : Value → Exec J (Reply Value))
        → IsCall J laws objects L (adapter_service l t what) K v x name method
        → callback_of J W l t method ≡ some m
        → let S = adapter_service l t what in
          let (called, sent, b) = run_handler what m (params_of J L S K v) n.service in
          (called ≡ ended)
          ⊎ ((r : Value) × (e : Value) × (called ≡ returned r e)
              × (response : Value) × CarriesId J laws objects response x
              × Replies J laws objects response r e
              × (process_json_message J L S K v socket n
                  ≡ replied J laws objects L S K response socket
                      (send_all J L S K sent (record n { service = b }))))
    unfolding Catches
    adapter_answers l t what v x name method socket n m call found =
        let S = adapter_service l t what in
        let params = params_of J L S K v in
        let catches =
          subst RegisteredCatches found (callback_of-Catches l t method) params n.service in
        elim (called_of-cases what (m params n.service).0 catches) [
          | inl e ↦ inl e
          | inr (r, e, c) ↦
              let (response, carries, replies, done) =
                request_answered J laws objects L S K v x name method socket n (run_handler what m)
                  r e (sent_since n.service (m params n.service).1) (m params n.service).1 call
                  (ap (registered what) found)
                  (ap
                    (λ k. (k, sent_since n.service (m params n.service).1, (m params n.service).1))
                    c) in
              inr (r, e, c, response, carries, replies, done)
        ]
