-- ===== src/Relay/State.antt =====
-- The state of a `PeerRelay`, what it does to the outside, and what it asks of WebRTC.
use ice_adapter.Base.{ℕ, ℤ, Bytes, Bool, List, [], ◌∷◌, ◌++◌, Option}
use ice_adapter.Json.{JsonLib}
use ice_adapter.Checker.{PeerConnectivityChecker}

-- `webrtc::PeerConnectionInterface::IceServer`, the fields that the program sets.
pub record IceServer : Type 0 where
  pub uri : Bytes
  pub urls : List Bytes
  pub username : Bytes
  pub password : Bytes

-- `PeerRelay::Options`.
pub record RelayOptions : Type 0 where
  pub remote_player_id : ℤ
  pub remote_player_login : Bytes
  pub is_offerer : Bool
  pub game_udp_port : ℤ
  pub ice_servers : List IceServer

-- What WebRTC answers. It is not part of the repository.
pub record Webrtc : Type 0 where
  -- `CreatePeerConnection` returns a connection for these servers.
  pub creates_connection : List IceServer → Bool
  -- `CreateSessionDescription(type, sdp)` and `CreateIceCandidate(mid, index, candidate)` parse.
  pub parses_sdp : Bytes → Bytes → Bool
  pub parses_candidate : Bytes → ℤ → Bytes → Bool
  -- The connection states that `Close` reports to the observer before it returns.
  pub close_signals : List Bytes

-- A call of the program that ends otherwise than by a return: `std::exit(1)`, an exception, or a
-- method of a null pointer.
pub data Run {ℓ} (A : Type ℓ) : Type ℓ where
  ok : A → Run A
  exited threw null_pointer : Run A

infixl 5 ◌>>=◌
abbrev pub ◌>>=◌ {ℓ κ} : {A : Type ℓ} {B : Type κ} → Run A → (A → Run B) → Run B
ok a >>= f = f a
exited >>= f = exited
threw >>= f = threw
null_pointer >>= f = null_pointer

module _ (J : JsonLib) where
  open J use {Value}

  -- Calls that leave the relay: its callbacks, WebRTC, and the game's socket.
  pub data Call : Type 0 where
    -- `_callbacks.iceMessageCallback`, `stateCallback`, `connectedCallback`
    ice_message : Value → Call
    state_changed : Bytes → Call
    connected_changed : Bool → Call
    create_peer_connection : List IceServer → Call
    create_data_channel create_offer create_answer get_stats : Call
    close_peer_connection close_data_channel : Call
    set_local_description : Bytes → Call
    set_remote_description : Bytes → Bytes → Call
    add_ice_candidate : Bytes → ℤ → Bytes → Call
    -- `_dataChannel->Send` and `_localUdpSocket->SendTo(…, _gameUdpAddress)`
    send_to_peer : Bytes → Call
    send_to_game : Bytes → ℤ → Call

  -- `peer_connection` and `data_channel` say whether the pointer is set; `reinit_timer` is the delay
  -- with which `_reinitTimer` is armed. `calls` is the trace of what left the relay.
  pub record PeerRelay : Type 0 where
    pub ice_server_list : List IceServer
    pub peer_connection : Bool
    pub data_channel : Bool
    pub remote_player_id : ℤ
    pub remote_player_login : Bytes
    pub is_offerer : Bool
    pub game_udp_port : ℤ
    pub local_udp_socket_port : ℕ
    pub is_connected : Bool
    pub closing : Bool
    pub ice_state : Bytes
    pub local_cand_address : Bytes
    pub remote_cand_address : Bytes
    pub local_cand_type : Bytes
    pub remote_cand_type : Bytes
    pub local_sdp : Bytes
    pub ice_gathering_state : Bytes
    pub data_channel_state : Bytes
    pub connect_start_time : ℕ
    pub connect_duration : ℕ
    pub connection_checker : Option PeerConnectivityChecker
    pub reinit_timer : Option ℕ
    pub calls : List Call

  unfoldable pub emit : Call → PeerRelay → PeerRelay
  emit c r = record r { calls = r.calls ++ (c ∷ []) }
