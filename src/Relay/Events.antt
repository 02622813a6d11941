-- ===== src/Relay/Events.antt =====
-- What happens to a `PeerRelay`: WebRTC's observers of PeerRelayObservers.cpp, the data of both
-- sides, and the timers of the relay and of its checker.
use ice_adapter.Base.{if◌then◌else◌, ℕ, ℤ, Bytes, Option, none, some, arith, codes}
use ice_adapter.Json.{JsonLib}
use ice_adapter.Checker.{check_connectivity, start_ping, send_ping}
use ice_adapter.Relay.State.{Webrtc, PeerRelay, Run, ok, emit, ◌>>=◌, send_to_peer}
use ice_adapter.Relay.Close.{reinit_later, on_reinit_timer, reinit}
use ice_adapter.Relay.Connection.{
  IceConnectionState, checking, connected, completed, failed, disconnected, closed, max,
  IceGatheringState, DataState, on_created, on_local_description, on_remote_description,
  on_ice_connection_change, on_ice_gathering_change, on_ice_candidate, on_data_channel,
  on_state_change,
}
use ice_adapter.Relay.Data.{on_peerdata_from_game, forward, on_remote_message}
use ice_adapter.Relay.Stats.{StatsReport, on_stats_delivered, set_local, set_remote}
use ice_adapter.Relay.Identity.{
  SameIdentity, KeepsIdentity, set_ice_state-KeepsIdentity, KeepsIdentity-bind, SameIdentity-refl,
  reinit-KeepsIdentity,
}

-- `created` stands for both observers of a created description.
pub data RelayEvent : Type 0 where
  created : Bytes → RelayEvent
  local_description_set remote_description_set data_channel_opened : RelayEvent
  ice_connection_changed : IceConnectionState → RelayEvent
  ice_gathering_changed : IceGatheringState → RelayEvent
  ice_candidate_found : Bytes → Bytes → ℤ → RelayEvent
  data_state_changed : DataState → RelayEvent
  stats_delivered : Option StatsReport → RelayEvent
  game_data remote_data : Bytes → RelayEvent
  reinit_timer_fires check_timer_fires ping_delay_ends ping_timer_fires : RelayEvent

module _ (J : JsonLib) where
  -- The timer of `_checkConnectivity`, with the callback that the relay gives to its checker.
  unfoldable pub on_check_timer : ℕ → PeerRelay J → PeerRelay J
  on_check_timer now r = elim r.connection_checker [
    | none ↦ r
    | some c ↦ if check_connectivity now c then reinit_later J 1 r else r
  ]

  unfoldable pub on_ping_delay : PeerRelay J → PeerRelay J
  unfolding start_ping
  on_ping_delay r = elim r.connection_checker [
    | none ↦ r
    | some c ↦ record r { connection_checker = some (start_ping c) }
  ]

  -- The timer of `_sendPing`, which runs once the delay is over.
  unfoldable pub on_ping_timer : ℕ → PeerRelay J → PeerRelay J
  unfolding send_ping emit
  on_ping_timer now r = elim r.connection_checker [
    | none ↦ r
    | some c ↦
        let (c', ping) = send_ping now c in
        if c.pinging
        then emit J (send_to_peer ping) (record r { connection_checker = some c' })
        else r
  ]

module _ (J : JsonLib) (W : Webrtc) where
  unfoldable pub on_event : ℕ → RelayEvent → PeerRelay J → Run (PeerRelay J)
  on_event now (created sdp) r = on_created J sdp r
  on_event now local_description_set r = ok (on_local_description J r)
  on_event now remote_description_set r = on_remote_description J r
  on_event now data_channel_opened r = ok (on_data_channel J r)
  on_event now (ice_connection_changed s) r = on_ice_connection_change J now s r
  on_event now (ice_gathering_changed s) r = ok (on_ice_gathering_change J s r)
  on_event now (ice_candidate_found candidate mid index) r =
      ok (on_ice_candidate J candidate mid index r)
  on_event now (data_state_changed s) r = ok (on_state_change J s r)
  on_event now (stats_delivered report) r = ok (on_stats_delivered J report r)
  on_event now (game_data message) r = ok (on_peerdata_from_game J message r)
  on_event now (remote_data message) r = ok (on_remote_message J now message r)
  on_event now reinit_timer_fires r = on_reinit_timer J W now r
  on_event now check_timer_fires r = ok (on_check_timer J now r)
  on_event now ping_delay_ends r = ok (on_ping_delay J r)
  on_event now ping_timer_fires r = ok (on_ping_timer J now r)

  ice_connection-KeepsIdentity :
      (now : ℕ) (s : IceConnectionState) (r : PeerRelay J)
      → KeepsIdentity J r (on_ice_connection_change J now s r)
  unfolding on_ice_connection_change
  ice_connection-KeepsIdentity now IceConnectionState.new r =
      set_ice_state-KeepsIdentity J now (codes "new") r
  ice_connection-KeepsIdentity now checking r =
      set_ice_state-KeepsIdentity J now (codes "checking") r
  ice_connection-KeepsIdentity now connected r =
      set_ice_state-KeepsIdentity J now (codes "connected") r
  ice_connection-KeepsIdentity now completed r =
      set_ice_state-KeepsIdentity J now (codes "completed") r
  ice_connection-KeepsIdentity now failed r = set_ice_state-KeepsIdentity J now (codes "failed") r
  ice_connection-KeepsIdentity now disconnected r =
      set_ice_state-KeepsIdentity J now (codes "disconnected") r
  ice_connection-KeepsIdentity now closed r = set_ice_state-KeepsIdentity J now (codes "closed") r
  ice_connection-KeepsIdentity now max r = SameIdentity-refl J r

  remote_message-SameIdentity :
      (now : ℕ) (message : Bytes) (r : PeerRelay J)
      → SameIdentity J r (on_remote_message J now message r)
  unfolding on_remote_message forward
  remote_message-SameIdentity now message r = ground arith

  stats-SameIdentity :
      (report : Option StatsReport) (r : PeerRelay J)
      → SameIdentity J r (on_stats_delivered J report r)
  unfolding on_stats_delivered set_local set_remote
  stats-SameIdentity report r = ground arith

  reinit_timer-KeepsIdentity :
      (now : ℕ) (r : PeerRelay J) → KeepsIdentity J r (on_reinit_timer J W now r)
  unfolding on_reinit_timer
  reinit_timer-KeepsIdentity now r = armed r.reinit_timer
    where
      fired : KeepsIdentity J r (reinit J W now r >>= λ s. ok (record s { reinit_timer = none }))
      fired =
          KeepsIdentity-bind J r (reinit J W now r) _ (reinit-KeepsIdentity J W now r)
            (λ s. SameIdentity-refl J s)

      armed :
          (t : Option ℕ)
          → KeepsIdentity J r (elim t [
            | none ↦ ok r
            | some d ↦ reinit J W now r >>= λ s. ok (record s { reinit_timer = none })
          ])
      armed none = SameIdentity-refl J r
      armed (some d) = fired

  -- Whatever happens to a relay, if its handler returns, leaves the relay's ICE servers, ids, ports and
  -- role alone.
  pub on_event-KeepsIdentity :
      (now : ℕ) (e : RelayEvent) (r : PeerRelay J) → KeepsIdentity J r (on_event now e r)
  unfolding on_event on_created on_local_description on_remote_description on_data_channel
      on_ice_gathering_change on_ice_candidate on_state_change on_peerdata_from_game on_check_timer
      on_ping_delay on_ping_timer reinit_later
  on_event-KeepsIdentity now (created sdp) r = ground arith
  on_event-KeepsIdentity now local_description_set r = ground arith
  on_event-KeepsIdentity now remote_description_set r = ground arith
  on_event-KeepsIdentity now data_channel_opened r = ground arith
  on_event-KeepsIdentity now (ice_connection_changed s) r = ice_connection-KeepsIdentity now s r
  on_event-KeepsIdentity now (ice_gathering_changed s) r = ground arith
  on_event-KeepsIdentity now (ice_candidate_found candidate mid index) r = ground arith
  on_event-KeepsIdentity now (data_state_changed s) r = ground arith
  on_event-KeepsIdentity now (stats_delivered report) r = stats-SameIdentity report r
  on_event-KeepsIdentity now (game_data message) r = ground arith
  on_event-KeepsIdentity now (remote_data message) r = remote_message-SameIdentity now message r
  on_event-KeepsIdentity now reinit_timer_fires r = reinit_timer-KeepsIdentity now r
  on_event-KeepsIdentity now check_timer_fires r = ground arith
  on_event-KeepsIdentity now ping_delay_ends r = ground arith
  on_event-KeepsIdentity now ping_timer_fires r = ground arith
