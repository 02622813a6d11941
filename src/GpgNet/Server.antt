-- ===== src/GpgNet/Server.antt =====
-- `GPGNetServer` of GPGNetServer.h and GPGNetServer.cpp: the connected games and what is sent to
-- them.
pub mod Sends
pub mod Refines
use ice_adapter.Base.{
  ℕ, ℤ, pos, Bytes, Bool, true, false, not, List, [], ◌∷◌, ◌++◌, map, Option, none, some, codes,
  ltb, ◌==◌, if◌then◌else◌,
}
use ice_adapter.Json.{JsonLib}
use ice_adapter.GpgNet.Message.{GpgNetMessage, to_binary, ◌>>?◌}

pub data InitMode : Type 0 where
  normal_lobby auto_lobby : InitMode

-- The `static_cast` to the underlying `unsigned int`.
abbrev pub underlying : InitMode → ℕ
underlying normal_lobby = 0
underlying auto_lobby = 1

-- A handler is known by its address. `written` is the trace of the sockets' `Send` calls, and
-- `posted` the trace of the handlers that are posted to the thread, which deletes them later.
pub record GpgNetServer : Type 0 where
  pub connected : List ℕ
  pub posted : List ℕ
  pub written : List (ℕ × Bytes)

-- `std::set::insert` and `std::set::erase`.
unfoldable pub insert : ℕ → List ℕ → List ℕ
insert h [] = h ∷ []
insert h (k ∷ ks) = if h == k then k ∷ ks else if ltb h k then h ∷ (k ∷ ks) else k ∷ insert h ks

unfoldable pub erase : ℕ → List ℕ → List ℕ
erase h [] = []
erase h (k ∷ ks) = if h == k then ks else k ∷ erase h ks

unfoldable pub has_connected_client : GpgNetServer → Bool
has_connected_client s = elim s.connected [ [] ↦ false | _ ∷ _ ↦ true ]

-- `_onNewClient`, for a handler that `Accept` made.
unfoldable pub on_new_client : GpgNetServer → ℕ → GpgNetServer
unfolding insert
on_new_client s handler = record s { connected = insert handler s.connected }

-- `_onClientDisconnect` only posts a message to the thread; `OnMessage` handles it later.
unfoldable pub on_client_disconnect : GpgNetServer → ℕ → GpgNetServer
on_client_disconnect s handler = record s { posted = s.posted ++ (handler ∷ []) }

unfoldable pub on_message : GpgNetServer → ℕ → GpgNetServer
unfolding erase
on_message s handler = record s { connected = erase handler s.connected }

module _ (J : JsonLib) where
  open J use {of_int, of_uint, of_string}

  -- `none`: `toBinary` throws, and nothing has been sent.
  unfoldable pub send_message : GpgNetServer → GpgNetMessage J → Option GpgNetServer
  send_message s m = to_binary J m >>? λ bytes.
      some (record s { written = s.written ++ map (λ h. (h, bytes)) s.connected })

  abbrev pub create_lobby_message : InitMode → ℤ → Bytes → ℤ → ℤ → GpgNetMessage J
  create_lobby_message init_mode port login player_id nat_traversal_provider = record {
    header = codes "CreateLobby";
    chunks =
        of_uint (underlying init_mode)
        ∷ of_int port
        ∷ of_string login
        ∷ of_int player_id
        ∷ of_int nat_traversal_provider
        ∷ [];
  }

  unfoldable pub send_create_lobby :
      GpgNetServer → InitMode → ℤ → Bytes → ℤ → ℤ → Option GpgNetServer
  send_create_lobby s init_mode port login player_id nat_traversal_provider =
      send_message s (create_lobby_message init_mode port login player_id nat_traversal_provider)

  abbrev pub connect_to_peer_message : Bytes → Bytes → ℤ → GpgNetMessage J
  connect_to_peer_message address_and_port player_name player_id = record {
    header = codes "ConnectToPeer";
    chunks = of_string address_and_port ∷ of_string player_name ∷ of_int player_id ∷ [];
  }

  unfoldable pub send_connect_to_peer : GpgNetServer → Bytes → Bytes → ℤ → Option GpgNetServer
  send_connect_to_peer s address_and_port player_name player_id =
      send_message s (connect_to_peer_message address_and_port player_name player_id)

  abbrev pub join_game_message : Bytes → Bytes → ℤ → GpgNetMessage J
  join_game_message address_and_port remote_player_name remote_player_id = record {
    header = codes "JoinGame";
    chunks =
        of_string address_and_port ∷ of_string remote_player_name ∷ of_int remote_player_id ∷ [];
  }

  unfoldable pub send_join_game : GpgNetServer → Bytes → Bytes → ℤ → Option GpgNetServer
  send_join_game s address_and_port remote_player_name remote_player_id =
      send_message s (join_game_message address_and_port remote_player_name remote_player_id)

  abbrev pub host_game_message : Bytes → GpgNetMessage J
  host_game_message map_name = record {
    header = codes "HostGame";
    chunks = of_string map_name ∷ [];
  }

  unfoldable pub send_host_game : GpgNetServer → Bytes → Option GpgNetServer
  send_host_game s map_name = send_message s (host_game_message map_name)

  abbrev pub send_nat_packet_message : Bytes → Bytes → GpgNetMessage J
  send_nat_packet_message address_and_port message = record {
    header = codes "SendNatPacket";
    chunks = of_string address_and_port ∷ of_string message ∷ [];
  }

  unfoldable pub send_send_nat_packet : GpgNetServer → Bytes → Bytes → Option GpgNetServer
  send_send_nat_packet s address_and_port message =
      send_message s (send_nat_packet_message address_and_port message)

  abbrev pub disconnect_from_peer_message : ℤ → GpgNetMessage J
  disconnect_from_peer_message remote_player_id = record {
    header = codes "DisconnectFromPeer";
    chunks = of_int remote_player_id ∷ [];
  }

  unfoldable pub send_disconnect_from_peer : GpgNetServer → ℤ → Option GpgNetServer
  send_disconnect_from_peer s remote_player_id =
      send_message s (disconnect_from_peer_message remote_player_id)

  abbrev pub ping_message : GpgNetMessage J
  ping_message = record { header = codes "ping"; chunks = [] }

  unfoldable pub send_ping : GpgNetServer → Option GpgNetServer
  send_ping s = send_message s ping_message
