-- ===== src/Adapter/Handlers.antt =====
-- The JSON-RPC handlers that `IceAdapter::_connectRpcMethods` registers.
use ice_adapter.Base.{
  ℕ, zero, suc, ℤ, Bytes, Bool, true, false, not, ◌||◌, List, [], ◌∷◌, Option, none, some, codes,
  str_eq, if◌then◌else◌, ltb,
}
use ice_adapter.Json.{JsonLib, is_array, is_object, is_string_type}
use ice_adapter.Relay.State.{Webrtc, Run, ok, exited, threw, null_pointer}
use ice_adapter.Relay.Connection.{or_throw}
use ice_adapter.Adapter.State.{Moment, Exec, bind, pure, lift}
use ice_adapter.Adapter.Servers.{set_servers}
use ice_adapter.Adapter.Methods.{
  host, join, connect, disconnect, set_lobby_init_mode, ice_msg, send_to_gpg_net,
}
use ice_adapter.Adapter.Status.{Listening, status}

-- What a handler leaves in its arguments `result` and `error`: a result, an error with a text of the
-- handler's, or an error with the text of the exception that it caught.
pub data Reply {ℓ} (V : Type ℓ) : Type ℓ where
  result : V → Reply V
  error : Bytes → Reply V
  caught : Reply V

module _ (J : JsonLib) (W : Webrtc) where
  open J use {Value, of_string, as_string, as_int, as_bool, size, at, value_type}

  -- The `try` block of a handler.
  abbrev pub answer : Run (Unit {0}) → Exec J (Reply Value)
  answer (ok tt) a = (ok (result (of_string (codes "ok"))), a)
  answer threw a = (ok caught, a)
  answer exited a = (exited, a)
  answer null_pointer a = (null_pointer, a)

  unfoldable pub try_block : Exec J (Unit {0}) → Exec J (Reply Value)
  try_block m a = let (r, a') = m a in answer r a'

  -- The test on the parameters that precedes the `try` block.
  unfoldable pub checked : Bool → Bytes → Exec J (Unit {0}) → Exec J (Reply Value)
  unfolding try_block
  checked true text m = try_block m
  checked false text m = pure J (error text)

  abbrev with_string : Value → (Bytes → Exec J (Unit {0})) → Exec J (Unit {0})
  with_string v f = bind J (lift J (or_throw (as_string v))) f

  abbrev with_int : Value → (ℤ → Exec J (Unit {0})) → Exec J (Unit {0})
  with_int v f = bind J (lift J (or_throw (as_int v))) f

  abbrev with_bool : Value → (Bool → Exec J (Unit {0})) → Exec J (Unit {0})
  with_bool v f = bind J (lift J (or_throw (as_bool v))) f

  abbrev at_least : ℕ → Value → Bool
  at_least n params = not (ltb (size params) n)

  unfoldable pub on_quit : Exec J (Reply Value)
  on_quit a = (ok (result (of_string (codes "ok"))), record a { quitting = true })

  unfoldable pub on_host_game : Value → Exec J (Reply Value)
  unfolding checked
  on_host_game params =
      checked (at_least 1 params) (codes "Need 1 parameter: mapName (string)")
        (with_string (at params 0) (λ map_name. host J W map_name))

  unfoldable pub on_join_game : Moment → Value → Exec J (Reply Value)
  unfolding checked
  on_join_game t params =
      checked (at_least 2 params)
        (codes "Need 2 parameters: remotePlayerLogin (string), remotePlayerId (int)")
        (with_string (at params 0) (λ login. with_int (at params 1) (λ id. join J W t login id)))

  unfoldable pub on_connect_to_peer : Moment → Value → Exec J (Reply Value)
  unfolding checked
  on_connect_to_peer t params =
      checked (at_least 3 params)
        (codes
          "Need 3 parameters: remotePlayerLogin (string), remotePlayerId (int), createOffer (bool)")
        (with_string (at params 0) (λ login.
          with_int (at params 1)
            (λ id. with_bool (at params 2) (λ offer. connect J W t login id offer))))

  unfoldable pub on_disconnect_from_peer : Value → Exec J (Reply Value)
  unfolding checked
  on_disconnect_from_peer params =
      checked (at_least 1 params) (codes "Need 1 parameters: remotePlayerId (int)")
        (with_int (at params 0) (λ id. disconnect J W id))

  unfoldable pub on_set_lobby_init_mode : Value → Exec J (Reply Value)
  unfolding checked
  on_set_lobby_init_mode params =
      checked (not (ltb (size params) 1 || not (is_string_type (value_type (at params 0)))))
        (codes "Need 1 parameters: initMode (string)")
        (with_string (at params 0) (λ mode. set_lobby_init_mode J W mode))

  unfoldable pub on_ice_msg : Moment → Value → Exec J (Reply Value)
  unfolding checked
  on_ice_msg t params =
      checked (not (ltb (size params) 2 || not (is_object (value_type (at params 1)))))
        (codes "Need 2 parameters: remotePlayerId (int), msg (object)")
        (with_int (at params 0) (λ id. ice_msg J W t id (at params 1)))

  -- The elements of an array, from an index on.
  unfoldable pub chunks_from : ℕ → ℕ → Value → List Value
  chunks_from zero i v = []
  chunks_from (suc n) i v = at v i ∷ chunks_from n (suc i) v

  unfoldable pub on_send_to_gpg_net : Value → Exec J (Reply Value)
  unfolding checked chunks_from
  on_send_to_gpg_net params =
      checked (not (ltb (size params) 2 || not (is_array (value_type (at params 1)))))
        (codes "Need 2 parameters: header (string), chunks (array)")
        (with_string (at params 0) (λ header.
          send_to_gpg_net J W (record {
            header = header;
            chunks = chunks_from (size (at params 1)) 0 (at params 1);
          })))

  unfoldable pub on_set_ice_servers : Value → Exec J (Reply Value)
  unfolding checked
  on_set_ice_servers params =
      checked (not (ltb (size params) 1 || not (is_array (value_type (at params 0)))))
        (codes "Need 1 parameters: iceServers (array) ") (set_servers J (at params 0))

  unfoldable pub on_status : Listening → Exec J (Reply Value)
  on_status l a = (ok (result (status J l a)), a)

  -- The callback registered for a method, if there is one.
  unfoldable pub callback_of : Listening → Moment → Bytes → Option (Value → Exec J (Reply Value))
  callback_of l t method =
      if str_eq method (codes "quit")
      then some (λ params. on_quit)
      else if str_eq method (codes "hostGame")
      then some on_host_game
      else if str_eq method (codes "joinGame")
      then some (on_join_game t)
      else if str_eq method (codes "connectToPeer")
      then some (on_connect_to_peer t)
      else if str_eq method (codes "disconnectFromPeer")
      then some on_disconnect_from_peer
      else if str_eq method (codes "setLobbyInitMode")
      then some on_set_lobby_init_mode
      else if str_eq method (codes "iceMsg")
      then some (on_ice_msg t)
      else if str_eq method (codes "sendToGpgNet")
      then some on_send_to_gpg_net
      else if str_eq method (codes "setIceServers")
      then some on_set_ice_servers
      else if str_eq method (codes "status")
      then some (λ params. on_status l)
      else none
