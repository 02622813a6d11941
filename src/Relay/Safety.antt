-- ===== src/Relay/Safety.antt =====
-- PeerRelay.cpp: no handler of a relay calls through a null pointer while there is a connection.
use ice_adapter.Base.{ℕ, ◌≡◌, refl, Bytes, true, false, Option, none, some, arith, codes}
use ice_adapter.Json.{JsonLib}
use ice_adapter.Relay.State.{Webrtc, PeerRelay, Run, ok, exited, threw, null_pointer, ◌>>=◌, emit}
use ice_adapter.Relay.Close.{
  set_ice_state, set_connected, note_connected, reinit_later, reinit, on_reinit_timer,
}
use ice_adapter.Relay.Connection.{
  IceConnectionState, checking, connected, completed, failed, disconnected, closed, max,
  IceGatheringState, gathering, complete, on_ice_connection_change, on_created,
  on_local_description, on_remote_description, on_ice_gathering_change, on_ice_candidate,
  on_data_channel, on_state_change,
}
use ice_adapter.Relay.Data.{on_peerdata_from_game, forward, on_remote_message}
use ice_adapter.Relay.Stats.{StatsReport, on_stats_delivered, set_local, set_remote}
use ice_adapter.Relay.Events.{
  RelayEvent, created, local_description_set, remote_description_set, data_channel_opened,
  ice_connection_changed, ice_gathering_changed, ice_candidate_found, data_state_changed,
  stats_delivered, game_data, remote_data, reinit_timer_fires, check_timer_fires, ping_delay_ends,
  ping_timer_fires, on_event, on_check_timer, on_ping_delay, on_ping_timer,
}
use ice_adapter.Relay.Closing.{reconnected, reinit_lem}

module _ (J : JsonLib) (W : Webrtc) where
  -- The relay has a connection and does not close.
  abbrev pub IsUsable : PeerRelay J → Type 0
  IsUsable r = (r.peer_connection ≡ true) × (r.closing ≡ false)

  abbrev StaysUsable : Run (PeerRelay J) → Type 0
  StaysUsable (ok s) = IsUsable s
  StaysUsable exited = ⊥
  StaysUsable threw = ⊥
  StaysUsable null_pointer = ⊥

  StaysUsable-ok :
      (o : Run (PeerRelay J)) → StaysUsable o → (s : PeerRelay J) × (o ≡ ok s) × IsUsable s
  StaysUsable-ok (ok s) h = (s, refl, h)
  StaysUsable-ok exited h = absurd h
  StaysUsable-ok threw h = absurd h
  StaysUsable-ok null_pointer h = absurd h

  set_ice_state-StaysUsable :
      (now : ℕ) (state : Bytes) (r : PeerRelay J)
      → IsUsable r
      → StaysUsable (set_ice_state J now state r)
  unfolding set_ice_state set_connected note_connected reinit_later emit
  set_ice_state-StaysUsable now state r h = ground arith

  ice_connection-StaysUsable :
      (now : ℕ) (s : IceConnectionState) (r : PeerRelay J)
      → IsUsable r
      → StaysUsable (on_ice_connection_change J now s r)
  unfolding on_ice_connection_change
  ice_connection-StaysUsable now IceConnectionState.new r h =
      set_ice_state-StaysUsable now (codes "new") r h
  ice_connection-StaysUsable now checking r h = set_ice_state-StaysUsable now (codes "checking") r h
  ice_connection-StaysUsable now connected r h =
      set_ice_state-StaysUsable now (codes "connected") r h
  ice_connection-StaysUsable now completed r h =
      set_ice_state-StaysUsable now (codes "completed") r h
  ice_connection-StaysUsable now failed r h = set_ice_state-StaysUsable now (codes "failed") r h
  ice_connection-StaysUsable now disconnected r h =
      set_ice_state-StaysUsable now (codes "disconnected") r h
  ice_connection-StaysUsable now closed r h = set_ice_state-StaysUsable now (codes "closed") r h
  ice_connection-StaysUsable now max r h = h

  reconnected-IsUsable :
      (now : ℕ) (last : Bytes) (r : PeerRelay J) → IsUsable (reconnected J W now last r)
  reconnected-IsUsable now last r = ground arith

  reinit-StaysUsable :
      (now : ℕ) (r : PeerRelay J)
      → W.creates_connection r.ice_server_list ≡ true
      → StaysUsable (reinit J W now r >>= λ s. ok (record s { reinit_timer = none }))
  reinit-StaysUsable now r h =
      let (last, e) = reinit_lem J W now r h in rw e (reconnected-IsUsable now last r)

  reinit_timer-StaysUsable :
      (now : ℕ) (r : PeerRelay J)
      → IsUsable r
      → W.creates_connection r.ice_server_list ≡ true
      → StaysUsable (on_reinit_timer J W now r)
  unfolding on_reinit_timer
  reinit_timer-StaysUsable now r u h = armed r.reinit_timer
    where
      armed :
          (t : Option ℕ)
          → StaysUsable (elim t [
            | none ↦ ok r
            | some d ↦ reinit J W now r >>= λ s. ok (record s { reinit_timer = none })
          ])
      armed none = u
      armed (some d) = reinit-StaysUsable now r h

  remote_message-IsUsable :
      (now : ℕ) (message : Bytes) (r : PeerRelay J)
      → IsUsable r
      → IsUsable (on_remote_message J now message r)
  unfolding on_remote_message forward emit
  remote_message-IsUsable now message r u = ground arith

  stats-IsUsable :
      (report : Option StatsReport) (r : PeerRelay J)
      → IsUsable r
      → IsUsable (on_stats_delivered J report r)
  unfolding on_stats_delivered set_local set_remote
  stats-IsUsable report r u = ground arith

  event-StaysUsable :
      (now : ℕ) (e : RelayEvent) (r : PeerRelay J)
      → IsUsable r
      → W.creates_connection r.ice_server_list ≡ true
      → StaysUsable (on_event J W now e r)
  unfolding on_event on_created on_local_description on_remote_description on_data_channel
      on_ice_gathering_change on_ice_candidate on_state_change on_peerdata_from_game on_check_timer
      on_ping_delay on_ping_timer reinit_later emit
  event-StaysUsable now (created sdp) r u h = ground arith
  event-StaysUsable now local_description_set r u h = ground arith
  event-StaysUsable now remote_description_set r u h = ground arith
  event-StaysUsable now data_channel_opened r u h = ground arith
  event-StaysUsable now (ice_connection_changed s) r u h = ice_connection-StaysUsable now s r u
  event-StaysUsable now (ice_gathering_changed IceGatheringState.new) r u h = ground arith
  event-StaysUsable now (ice_gathering_changed gathering) r u h = ground arith
  event-StaysUsable now (ice_gathering_changed complete) r u h = ground arith
  event-StaysUsable now (ice_candidate_found candidate mid index) r u h = ground arith
  event-StaysUsable now (data_state_changed s) r u h = ground arith
  event-StaysUsable now (stats_delivered report) r u h = stats-IsUsable report r u
  event-StaysUsable now (game_data message) r u h = ground arith
  event-StaysUsable now (remote_data message) r u h = remote_message-IsUsable now message r u
  event-StaysUsable now reinit_timer_fires r u h = reinit_timer-StaysUsable now r u h
  event-StaysUsable now check_timer_fires r u h = ground arith
  event-StaysUsable now ping_delay_ends r u h = ground arith
  event-StaysUsable now ping_timer_fires r u h = ground arith

  -- A relay that has a connection and does not close, and for whose servers WebRTC makes
  -- connections: whatever happens to it, the handler returns, without an exception, an exit or a call
  -- through a null pointer, and the relay has a connection and does not close afterwards.
  pub on_event_safe :
      (now : ℕ) (e : RelayEvent) (r : PeerRelay J)
      → IsUsable r
      → W.creates_connection r.ice_server_list ≡ true
      → (s : PeerRelay J) × (on_event J W now e r ≡ ok s) × IsUsable s
  on_event_safe now e r u h = StaysUsable-ok (on_event J W now e r) (event-StaysUsable now e r u h)
