-- ===== src/Adapter/Methods.antt =====
-- IceAdapter.cpp: the methods that the client calls, and the handlers of `_connectRpcMethods`.
use ice_adapter.Base.{
  ℤ, pos, Bytes, Bool, false, not, [], ◌∷◌, ◌++◌, Option, none, some, codes, if◌then◌else◌,
}
use ice_adapter.Json.{JsonLib}
use ice_adapter.GpgNet.Message.{GpgNetMessage}
use ice_adapter.GpgNet.Server.{GpgNetServer, has_connected_client, send_message}
use ice_adapter.Relay.State.{
  RelayOptions, Webrtc, ok, threw, Call, ice_message, state_changed, connected_changed,
}
use ice_adapter.Relay.Close.{make}
use ice_adapter.Relay.Connection.{add_ice_message}
use ice_adapter.Adapter.State.{
  IceAdapter, IceAdapterGameTask, TaskKind, join_game, host_game, connect_to_peer,
  disconnect_from_peer, find, assign, erase, Moment, Exec, bind, then_do, lift, modify,
  send_request,
}
use ice_adapter.Adapter.Tasks.{queue_game_task}
use ice_adapter.Adapter.Game.{json_array}

module _ (J : JsonLib) (W : Webrtc) where
  open J use {Value, of_int, of_bool, of_string, as_string, as_int, as_bool, size, at, value_type}

  abbrev pub task_of : TaskKind → Bytes → Bytes → ℤ → IceAdapterGameTask
  task_of kind host_map remote_login remote_id = record {
    task = kind;
    host_map = host_map;
    remote_login = remote_login;
    remote_id = remote_id;
  }

  abbrev pub relay_options : IceAdapter J → ℤ → Bytes → Bool → RelayOptions
  relay_options a id login create_offer = record {
    remote_player_id = id;
    remote_player_login = login;
    is_offerer = create_offer;
    game_udp_port = a.lobby_port;
    ice_servers = a.ice_servers;
  }

  -- `_createPeerRelay`: an existing relay is kept.
  unfoldable pub create_peer_relay : Moment → ℤ → Bytes → Bool → Exec J (Unit {0})
  create_peer_relay t id login create_offer a = elim (find id a.relays) [
    | some r ↦ (ok tt, a)
    | none ↦
        bind J (lift J (make J W t.now t.port (relay_options a id login create_offer)))
          (λ r. modify J (λ b. record b { relays = assign id r b.relays })) a
  ]

  -- The callbacks that `_createPeerRelay` installs, for the calls that a relay makes.
  unfoldable pub on_relay_call : ℤ → Call J → IceAdapter J → IceAdapter J
  unfolding send_request
  on_relay_call id (ice_message msg) a =
      send_request J (codes "onIceMsg")
        (json_array J (of_int a.options.local_player_id ∷ of_int id ∷ msg ∷ [])) a
  on_relay_call id (state_changed state) a =
      send_request J (codes "onIceConnectionStateChanged")
        (json_array J (of_int a.options.local_player_id ∷ of_int id ∷ of_string state ∷ [])) a
  on_relay_call id (connected_changed b) a =
      send_request J (codes "onConnected")
        (json_array J (of_int a.options.local_player_id ∷ of_int id ∷ of_bool b ∷ [])) a
  on_relay_call id _ a = a

  abbrev set_task_string : Bytes → Exec J (Unit {0})
  set_task_string s = modify J (λ a. record a { gametask_string = s })

  unfoldable pub host : Bytes → Exec J (Unit {0})
  host map_name =
      then_do J (queue_game_task J (task_of host_game map_name [] (pos 0)))
        (set_task_string (codes "Hosting map " ++ (map_name ++ codes ".")))

  unfoldable pub join : Moment → Bytes → ℤ → Exec J (Unit {0})
  join t login id = then_do J (create_peer_relay t id login false) (
      then_do J (queue_game_task J (task_of join_game [] login id))
        (set_task_string (codes "Joining game from player " ++ (login ++ codes "."))))

  unfoldable pub connect : Moment → Bytes → ℤ → Bool → Exec J (Unit {0})
  connect t login id create_offer =
      then_do J (create_peer_relay t id login create_offer)
        (queue_game_task J (task_of connect_to_peer [] login id))

  unfoldable pub disconnect : ℤ → Exec J (Unit {0})
  disconnect id a = elim (find id a.relays) [
    | none ↦ (ok tt, a)
    | some r ↦
        queue_game_task J (task_of disconnect_from_peer [] [] id)
          (record a { relays = erase id a.relays })
  ]

  unfoldable pub set_lobby_init_mode : Bytes → Exec J (Unit {0})
  set_lobby_init_mode mode = modify J (λ a. record a { lobby_init_mode = mode })

  unfoldable pub ice_msg : Moment → ℤ → Value → Exec J (Unit {0})
  ice_msg t id msg a = elim (find id a.relays) [
    | none ↦ (ok tt, a)
    | some r ↦
        bind J (lift J (add_ice_message J W t.now msg r))
          (λ r'. modify J (λ b. record b { relays = assign id r' b.relays })) a
  ]

  abbrev pub sent_to_game : Option GpgNetServer → Exec J (Unit {0})
  sent_to_game none a = (threw, a)
  sent_to_game (some s) a = (ok tt, record a { gpgnet_server = s })

  unfoldable pub send_to_gpg_net : GpgNetMessage J → Exec J (Unit {0})
  send_to_gpg_net m a =
      if not (has_connected_client a.gpgnet_server)
      then (ok tt, a)
      else sent_to_game (send_message J a.gpgnet_server m) a
