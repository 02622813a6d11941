-- ===== src/Relay/Close.antt =====
-- PeerRelay.cpp: `_setConnected`, `_setIceState`, `_close`, `_reinitPeerconnection`, the constructor.
use ice_adapter.Base.{
  ℕ, ◌-◌, Bytes, Bool, true, false, not, ◌&&◌, ◌||◌, List, [], ◌∷◌, none, some, codes, str_eq,
  if◌then◌else◌,
}
use ice_adapter.Json.{JsonLib}
use ice_adapter.Checker.{create}
use ice_adapter.Relay.State.{
  IceServer, RelayOptions, Webrtc, PeerRelay, Run, ok, exited, null_pointer, ◌>>=◌, emit,
  state_changed, connected_changed, create_peer_connection, create_data_channel, create_offer,
  get_stats, close_peer_connection, close_data_channel,
}

abbrev pub bool_eq : Bool → Bool → Bool
bool_eq true b = b
bool_eq false b = not b

-- The two states that count as connected, and the three on which an offerer reconnects.
abbrev pub is_connected_state : Bytes → Bool
is_connected_state s = str_eq s (codes "connected") || str_eq s (codes "completed")

abbrev pub is_lost_state : Bytes → Bool
is_lost_state s =
    str_eq s (codes "failed") || (str_eq s (codes "disconnected") || str_eq s (codes "closed"))

module _ (J : JsonLib) where
  unfoldable pub note_connected : ℕ → Bool → PeerRelay J → PeerRelay J
  note_connected now true r = record r { connect_duration = now - r.connect_start_time }
  note_connected now false r = r

  unfoldable pub set_connected : ℕ → Bool → PeerRelay J → Run (PeerRelay J)
  unfolding note_connected emit
  set_connected now connected r =
      let r1 =
        if bool_eq connected r.is_connected
        then r
        else note_connected now connected
            (emit J (connected_changed connected) (record r { is_connected = connected })) in
      if connected
      then if r1.peer_connection then ok (emit J get_stats r1) else null_pointer
      else ok r1

  -- `_reinitPeerconnection` with a delay: the timer is armed unless it runs.
  unfoldable pub reinit_later : ℕ → PeerRelay J → PeerRelay J
  reinit_later delay r =
      if r.closing
      then r
      else elim r.reinit_timer [ none ↦ record r { reinit_timer = some delay } | some d ↦ r ]

  unfoldable pub set_ice_state : ℕ → Bytes → PeerRelay J → Run (PeerRelay J)
  unfolding set_connected reinit_later emit
  set_ice_state now state r0 =
      let r = record r0 { ice_state = state } in
      if r.closing then ok r else do
        r1 ← set_connected now (is_connected_state state) r
        let r2 = emit J (state_changed state) r1
        if r2.is_offerer && is_lost_state state
            then ok (reinit_later 100 (record r2 { connection_checker = none }))
            else ok r2

  -- What the connection reports while it is closed, one state after the other.
  unfoldable pub signal_all : ℕ → List Bytes → PeerRelay J → Run (PeerRelay J)
  signal_all now [] r = ok r
  signal_all now (s ∷ ss) r = set_ice_state now s r >>= λ r1. signal_all now ss r1

  unfoldable pub close_channel : PeerRelay J → PeerRelay J
  unfolding emit
  close_channel r =
      if r.data_channel then record (emit J close_data_channel r) { data_channel = false } else r

  unfoldable pub offer : ℕ → PeerRelay J → PeerRelay J
  unfolding emit
  offer now r =
      if r.is_offerer
      then record (emit J create_offer (emit J create_data_channel r)) {
        data_channel = true;
        connection_checker = some (create now);
      }
      else r

  unfoldable pub set_ice_servers : List IceServer → PeerRelay J → PeerRelay J
  set_ice_servers servers r = record r { ice_server_list = servers }

  -- What the constructor's initialisers and its body set before `_reinitPeerconnection`.
  abbrev pub initial : ℕ → ℕ → RelayOptions → PeerRelay J
  initial now port options = record {
    ice_server_list = options.ice_servers;
    peer_connection = false;
    data_channel = false;
    remote_player_id = options.remote_player_id;
    remote_player_login = options.remote_player_login;
    is_offerer = options.is_offerer;
    game_udp_port = options.game_udp_port;
    local_udp_socket_port = port;
    is_connected = false;
    closing = false;
    ice_state = codes "none";
    local_cand_address = [];
    remote_cand_address = [];
    local_cand_type = [];
    remote_cand_type = [];
    local_sdp = [];
    ice_gathering_state = codes "none";
    data_channel_state = codes "none";
    connect_start_time = now;
    connect_duration = 0;
    connection_checker = none;
    reinit_timer = none;
    calls = [];
  }

module _ (J : JsonLib) (W : Webrtc) where
  unfoldable pub close_connection : ℕ → PeerRelay J → Run (PeerRelay J)
  unfolding emit
  close_connection now r =
      if r.peer_connection
      then (do
        r1 ← signal_all J now W.close_signals (emit J close_peer_connection r)
        ok (record r1 { peer_connection = false }))
      else ok r

  unfoldable pub close : ℕ → PeerRelay J → Run (PeerRelay J)
  close now r = do
    r1 ←
        close_connection now
          (close_channel J (record r { closing = true; connection_checker = none }))
    ok (record r1 { closing = false })

  -- The function `reinitFunction`.
  unfoldable pub reinit : ℕ → PeerRelay J → Run (PeerRelay J)
  unfolding emit
  reinit now r = do
    r1 ← close now r
    if W.creates_connection r1.ice_server_list
        then ok (
            offer J now (record (emit J (create_peer_connection r1.ice_server_list) r1) {
              peer_connection = true;
            }))
        else exited

  -- `_reinitPeerconnection()` with its default delay 0.
  unfoldable pub reinit_now : ℕ → PeerRelay J → Run (PeerRelay J)
  reinit_now now r = if r.closing then ok r else reinit now r

  -- The timer calls the function, and is idle again afterwards.
  unfoldable pub on_reinit_timer : ℕ → PeerRelay J → Run (PeerRelay J)
  on_reinit_timer now r = elim r.reinit_timer [
    | none ↦ ok r
    | some d ↦ (do r1 ← reinit now r; ok (record r1 { reinit_timer = none }))
  ]

  -- The constructor, with the port that the socket was bound to.
  unfoldable pub make : ℕ → ℕ → RelayOptions → Run (PeerRelay J)
  make now port options =
      if options.is_offerer
      then reinit_now now (initial J now port options)
      else ok (initial J now port options)
