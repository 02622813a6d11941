-- ===== src/Relay/Data.antt =====
-- PeerRelay.cpp: game data in both directions (`_onPeerdataFromGame`, `_onRemoteMessage`).
use ice_adapter.Base.{ℕ, Bytes, not, ◌&&◌, none, some, str_eq, if◌then◌else◌, length, ltb}
use ice_adapter.Json.{JsonLib}
use ice_adapter.Checker.{handle_message_from_peer, ping_message, pong_message}
use ice_adapter.Relay.State.{PeerRelay, emit, send_to_peer, send_to_game}

module _ (J : JsonLib) where
  -- `_onPeerdataFromGame`; an empty message stands for a result of `Recv` that is not positive.
  unfoldable pub on_peerdata_from_game : Bytes → PeerRelay J → PeerRelay J
  unfolding emit
  on_peerdata_from_game message r =
      if not r.is_connected
      then r
      else if ltb 0 (length message) && r.data_channel
      then emit J (send_to_peer message) r
      else r

  -- The part of `_onRemoteMessage` behind the checker's test.
  unfoldable pub forward : Bytes → PeerRelay J → PeerRelay J
  unfolding emit
  forward message r =
      if not r.is_offerer && (str_eq message ping_message && r.data_channel)
      then emit J (send_to_peer pong_message) r
      else emit J (send_to_game message r.game_udp_port) r

  unfoldable pub on_remote_message : ℕ → Bytes → PeerRelay J → PeerRelay J
  unfolding forward
  on_remote_message now message r = elim r.connection_checker [
    | none ↦ forward message r
    | some c ↦
        let (c', handled) = handle_message_from_peer now message c in
        let r' = record r { connection_checker = some c' } in
        if handled then r' else forward message r'
  ]
