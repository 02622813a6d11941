-- ===== src/Adapter/Reachable.antt =====
-- IceAdapter.cpp: the invariant of `Synced` over the handlers that `_connectRpcMethods` registers.
use ice_adapter.Base.{
  refl, ◌≢◌, Bytes, Bool, true, false, Option, none, some, codes, if◌then◌else◌, str_eq,
}
use ice_adapter.Json.{JsonLib}
use ice_adapter.GpgNet.Message.{GpgNetMessage}
use ice_adapter.Relay.State.{Webrtc, Run, ok, exited, threw, null_pointer}
use ice_adapter.Relay.Connection.{or_throw}
use ice_adapter.Adapter.State.{IceAdapter, Moment, Exec, bind, lift}
use ice_adapter.Adapter.Methods.{
  host, join, connect, disconnect, set_lobby_init_mode, ice_msg, send_to_gpg_net,
}
use ice_adapter.Adapter.Status.{Listening}
use ice_adapter.Adapter.Handlers.{
  Reply, caught, answer, try_block, checked, callback_of, chunks_from, on_quit, on_host_game,
  on_join_game, on_connect_to_peer, on_disconnect_from_peer, on_set_lobby_init_mode, on_ice_msg,
  on_send_to_gpg_net, on_set_ice_servers, on_status,
}
use ice_adapter.Adapter.Synced.{IsSynced, KeepsSync, KeepsSync-bind}
use ice_adapter.Adapter.Invariant.{
  host-KeepsSync, join-KeepsSync, connect-KeepsSync, disconnect-KeepsSync, ice_msg-KeepsSync,
  set_lobby_init_mode-KeepsSync, send_to_gpg_net-KeepsSync, set_servers-IsSynced,
}

module _ (J : JsonLib) (W : Webrtc) where
  -- A handler that does not answer with a caught exception keeps the relays in step.
  abbrev pub KeepsIfReplied : Exec J (Reply J.Value) → Type 0
  KeepsIfReplied m = (a : IceAdapter J) → IsSynced J a → (m a).0 ≢ ok caught → IsSynced J (m a).1

  lift-KeepsSync : {A : Type 0} (r : Run A) → KeepsSync J (lift J r)
  lift-KeepsSync r a h = h

  -- A call that may leave the invariant broken where it throws, and only there.
  abbrev KeepsUnlessThrown : Exec J (Unit {0}) → Type 0
  KeepsUnlessThrown m = (a : IceAdapter J) → IsSynced J a → (m a).0 ≢ threw → IsSynced J (m a).1

  try_block-keeps : (m : Exec J (Unit {0})) → KeepsUnlessThrown m → KeepsIfReplied (try_block J W m)
  unfolding try_block
  try_block-keeps m k a h n = answered (m a).0 (m a).1 (k a h) n
    where
      answered :
          (r : Run (Unit {0})) (b : IceAdapter J)
          → (r ≢ threw → IsSynced J b)
          → (answer J W r b).0 ≢ ok caught
          → IsSynced J (answer J W r b).1
      answered (ok tt) b s n = s (λ e. cc)
      answered exited b s n = s (λ e. cc)
      answered threw b s n = absurd (n refl)
      answered null_pointer b s n = s (λ e. cc)

  checked-keeps :
      (b : Bool) (text : Bytes) (m : Exec J (Unit {0}))
      → KeepsUnlessThrown m
      → KeepsIfReplied (checked J W b text m)
  unfolding checked
  checked-keeps true text m k a h n = try_block-keeps m k a h n
  checked-keeps false text m k a h n = h

  -- A handler that reads one parameter and goes on.
  with_value-keeps :
      {A : Type 0} (r : Run A) (f : A → Exec J (Unit {0}))
      → ((x : A) → KeepsSync J (f x))
      → KeepsSync J (bind J (lift J r) f)
  with_value-keeps r f k = KeepsSync-bind J (lift J r) f (lift-KeepsSync r) k

  host_game-keeps : (params : J.Value) → KeepsIfReplied (on_host_game J W params)
  unfolding on_host_game
  host_game-keeps params = checked-keeps _ _ _ (λ a h n.
      with_value-keeps (or_throw (J.as_string (J.at params 0))) (λ map_name. host J W map_name)
        (λ map_name. host-KeepsSync J W map_name) a h)

  join_game-keeps : (t : Moment) (params : J.Value) → KeepsIfReplied (on_join_game J W t params)
  unfolding on_join_game
  join_game-keeps t params = checked-keeps _ _ _ (λ a h n.
      with_value-keeps (or_throw (J.as_string (J.at params 0)))
        (λ login. bind J (lift J (or_throw (J.as_int (J.at params 1)))) (λ id. join J W t login id))
        (λ login.
          with_value-keeps (or_throw (J.as_int (J.at params 1))) (λ id. join J W t login id)
            (λ id. join-KeepsSync J W t login id))
        a h)

  connect_to_peer-keeps :
      (t : Moment) (params : J.Value) → KeepsIfReplied (on_connect_to_peer J W t params)
  unfolding on_connect_to_peer
  connect_to_peer-keeps t params = checked-keeps _ _ _ (λ a h n.
      with_value-keeps (or_throw (J.as_string (J.at params 0)))
        (λ login. bind J (lift J (or_throw (J.as_int (J.at params 1)))) (λ id.
          bind J (lift J (or_throw (J.as_bool (J.at params 2))))
            (λ offer. connect J W t login id offer)))
        (λ login.
          with_value-keeps (or_throw (J.as_int (J.at params 1)))
            (λ id.
              bind J (lift J (or_throw (J.as_bool (J.at params 2))))
                (λ offer. connect J W t login id offer))
            (λ id.
              with_value-keeps (or_throw (J.as_bool (J.at params 2)))
                (λ offer. connect J W t login id offer)
                (λ offer. connect-KeepsSync J W t login id offer)))
        a h)

  disconnect_from_peer-keeps :
      (params : J.Value) → KeepsIfReplied (on_disconnect_from_peer J W params)
  unfolding on_disconnect_from_peer
  disconnect_from_peer-keeps params = checked-keeps _ _ _ (λ a h n.
      with_value-keeps (or_throw (J.as_int (J.at params 0))) (λ id. disconnect J W id)
        (λ id. disconnect-KeepsSync J W id) a h)

  set_lobby_init_mode-keeps :
      (params : J.Value) → KeepsIfReplied (on_set_lobby_init_mode J W params)
  unfolding on_set_lobby_init_mode
  set_lobby_init_mode-keeps params = checked-keeps _ _ _ (λ a h n.
      with_value-keeps (or_throw (J.as_string (J.at params 0)))
        (λ mode. set_lobby_init_mode J W mode) (λ mode. set_lobby_init_mode-KeepsSync J W mode) a h)

  ice_msg-keeps : (t : Moment) (params : J.Value) → KeepsIfReplied (on_ice_msg J W t params)
  unfolding on_ice_msg
  ice_msg-keeps t params = checked-keeps _ _ _ (λ a h n.
      with_value-keeps (or_throw (J.as_int (J.at params 0)))
        (λ id. ice_msg J W t id (J.at params 1)) (λ id. ice_msg-KeepsSync J W t id (J.at params 1))
        a h)

  send_to_gpg_net-keeps : (params : J.Value) → KeepsIfReplied (on_send_to_gpg_net J W params)
  unfolding on_send_to_gpg_net
  send_to_gpg_net-keeps params =
      let sent_message : Bytes → GpgNetMessage J = λ header. record {
        header = header;
        chunks = chunks_from J W (J.size (J.at params 1)) 0 (J.at params 1);
      } in
      checked-keeps _ _ _ (λ a h n.
        with_value-keeps (or_throw (J.as_string (J.at params 0)))
          (λ header. send_to_gpg_net J W (sent_message header))
          (λ header. send_to_gpg_net-KeepsSync J W (sent_message header)) a h)

  set_ice_servers-keeps : (params : J.Value) → KeepsIfReplied (on_set_ice_servers J W params)
  unfolding on_set_ice_servers
  set_ice_servers-keeps params =
      checked-keeps _ _ _ (λ a h n. set_servers-IsSynced J W (J.at params 0) a h n)

  quit-keeps : KeepsIfReplied (on_quit J W)
  unfolding on_quit
  quit-keeps a h n = h

  status-keeps : (l : Listening) → KeepsIfReplied (on_status J W l)
  unfolding on_status
  status-keeps l a h n = h

  -- A registered callback, or none, keeps the relays in step unless it answers with an exception.
  abbrev pub RegisteredKeeps : Option (J.Value → Exec J (Reply J.Value)) → Type 0
  RegisteredKeeps none = Unit {0}
  RegisteredKeeps (some m) = (params : J.Value) → KeepsIfReplied (m params)

  RegisteredKeeps-if :
      (b : Bool) (o p : Option (J.Value → Exec J (Reply J.Value)))
      → RegisteredKeeps o
      → RegisteredKeeps p
      → RegisteredKeeps (if b then o else p)
  RegisteredKeeps-if true o p h k = h
  RegisteredKeeps-if false o p h k = k

  pub callback_of-keeps :
      (l : Listening) (t : Moment) (method : Bytes) → RegisteredKeeps (callback_of J W l t method)
  unfolding callback_of
  callback_of-keeps l t method =
      RegisteredKeeps-if (str_eq method (codes "quit")) _ _ (λ params. quit-keeps)
        (RegisteredKeeps-if (str_eq method (codes "hostGame")) _ _ host_game-keeps (
          RegisteredKeeps-if (str_eq method (codes "joinGame")) _ _ (join_game-keeps t) (
            RegisteredKeeps-if (str_eq method (codes "connectToPeer")) _ _ (connect_to_peer-keeps t)
              (RegisteredKeeps-if (str_eq method (codes "disconnectFromPeer")) _ _
                disconnect_from_peer-keeps
                (RegisteredKeeps-if (str_eq method (codes "setLobbyInitMode")) _ _
                  set_lobby_init_mode-keeps
                  (RegisteredKeeps-if (str_eq method (codes "iceMsg")) _ _ (ice_msg-keeps t) (
                    RegisteredKeeps-if (str_eq method (codes "sendToGpgNet")) _ _
                      send_to_gpg_net-keeps
                      (RegisteredKeeps-if (str_eq method (codes "setIceServers")) _ _
                        set_ice_servers-keeps
                        (RegisteredKeeps-if (str_eq method (codes "status")) _ _
                          (λ params. status-keeps l) tt)))))))))
