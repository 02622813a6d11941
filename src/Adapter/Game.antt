-- ===== src/Adapter/Game.antt =====
-- IceAdapter.cpp: what the game does (`_onGameConnected`, `_onGameDisconnected`,
-- `_onGpgNetMessage`).
use ice_adapter.Base.{pos, Bytes, List, [], ◌∷◌, Option, none, some, codes, str_eq, if◌then◌else◌}
use ice_adapter.Json.{JsonLib}
use ice_adapter.GpgNet.Message.{GpgNetMessage}
use ice_adapter.GpgNet.Server.{GpgNetServer, InitMode, normal_lobby, auto_lobby, send_create_lobby}
use ice_adapter.Relay.State.{ok, threw}
use ice_adapter.Adapter.State.{IceAdapter, Exec, then_do, pure, modify, send_request}
use ice_adapter.Adapter.Tasks.{try_execute_game_tasks}

module _ (J : JsonLib) where
  open J use {Value, of_string, empty_array, append, as_string}

  json_array_from : Value → List Value → Value
  json_array_from v [] = v
  json_array_from v (x ∷ xs) = json_array_from (append v x) xs

  -- `Json::Value(Json::arrayValue)` and one `append` for each element.
  unfoldable pub json_array : List Value → Value
  unfolding json_array_from
  json_array vs = json_array_from empty_array vs

  unfoldable pub on_game_connected : IceAdapter J → IceAdapter J
  unfolding send_request
  on_game_connected a =
      send_request J (codes "onConnectionStateChanged")
        (json_array (of_string (codes "Connected") ∷ [])) a

  -- The queue of game tasks is not touched.
  unfoldable pub on_game_disconnected : IceAdapter J → IceAdapter J
  unfolding send_request
  on_game_disconnected a =
      record (send_request J (codes "onConnectionStateChanged")
        (json_array (of_string (codes "Disconnected") ∷ [])) a) {
          gametask_string = codes "Idle";
          gpgnet_game_state = codes "None";
          relays = [];
        }

  abbrev pub init_mode : Bytes → InitMode
  init_mode mode = if str_eq mode (codes "normal") then normal_lobby else auto_lobby

  abbrev pub stored : Option GpgNetServer → Exec J (Unit {0})
  stored none a = (threw, a)
  stored (some s) a = (ok tt, record a { gpgnet_server = s })

  -- In the state "Idle" the game is told to create its lobby.
  unfoldable pub create_lobby_if_idle : Exec J (Unit {0})
  create_lobby_if_idle a =
      if str_eq a.gpgnet_game_state (codes "Idle")
      then stored
          (send_create_lobby J a.gpgnet_server (init_mode a.lobby_init_mode) a.lobby_port
            a.options.local_player_login a.options.local_player_id (pos 1))
          a
      else (ok tt, a)

  -- The block for a message "GameState" with one chunk, whose text is the new state.
  unfoldable pub set_game_state : Option Bytes → Exec J (Unit {0})
  unfolding create_lobby_if_idle
  set_game_state none a = (threw, a)
  set_game_state (some state) a =
      then_do J create_lobby_if_idle (try_execute_game_tasks J)
        (record a { gpgnet_game_state = state })

  abbrev pub game_state_of : GpgNetMessage J → Exec J (Unit {0})
  game_state_of m = elim m.chunks [
    | [] ↦ pure J tt
    | v ∷ vs ↦ elim vs [ [] ↦ set_game_state (as_string v) | _ ∷ _ ↦ pure J tt ]
  ]

  unfoldable pub on_gpg_net_message : GpgNetMessage J → Exec J (Unit {0})
  unfolding send_request
  on_gpg_net_message m =
      then_do J (if str_eq m.header (codes "GameState") then game_state_of m else pure J tt) (
        modify J (
          send_request J (codes "onGpgNetMessageReceived")
            (json_array (of_string m.header ∷ json_array m.chunks ∷ []))))
