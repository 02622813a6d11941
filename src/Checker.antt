-- ===== src/Checker.antt =====
-- PeerConnectivityChecker.h and PeerConnectivityChecker.cpp: has the remote peer been silent for
-- too long? Times are milliseconds of the steady clock, an argument of every call.
pub mod Silence
pub mod Tests
use ice_adapter.Base.{
  ℕ, ◌+◌, ◌-◌, Bytes, Bool, true, false, not, ◌&&◌, Option, none, some, List, [], ◌∷◌, ◌++◌, codes,
  str_eq, ltb, if◌then◌else◌,
}

abbrev pub connection_timeout_ms : ℕ
connection_timeout_ms = 10000

abbrev pub connection_check_interval_ms : ℕ
connection_check_interval_ms = 1000

abbrev pub connection_ping_start_delay_ms : ℕ
connection_ping_start_delay_ms = 5000

abbrev pub connection_ping_interval_ms : ℕ
connection_ping_interval_ms = 500

-- The arrays are string literals, so they end in a zero byte, which `sizeof` counts.
abbrev pub ping_message : Bytes
ping_message = codes "ICEADAPTERPING" ++ (0 ∷ [])

abbrev pub pong_message : Bytes
pong_message = codes "ICEADAPTERPONG" ++ (0 ∷ [])

-- `pinging`: the ping timer runs.
pub record PeerConnectivityChecker : Type 0 where
  pub timer_start_time : Option ℕ
  pub last_sent_ping_time : Option ℕ
  pub last_received_pong_time : Option ℕ
  pub last_received_data_time : Option ℕ
  pub pinging : Bool

-- The constructor; it also starts the check timer and the single shot that calls `_startPing`.
unfoldable pub create : ℕ → PeerConnectivityChecker
create now = record {
  timer_start_time = some now;
  last_sent_ping_time = none;
  last_received_pong_time = none;
  last_received_data_time = none;
  pinging = false;
}

-- The `bool` says that the message was a pong, which the caller does not pass on.
unfoldable pub handle_message_from_peer :
    ℕ → Bytes → PeerConnectivityChecker → PeerConnectivityChecker × Bool
handle_message_from_peer now message c =
    if str_eq message pong_message
    then (record c { last_received_pong_time = some now }, true)
    else (record c { last_received_data_time = some now }, false)

unfoldable pub start_ping : PeerConnectivityChecker → PeerConnectivityChecker
start_ping c = record c { pinging = true }

-- The message goes to the data channel.
unfoldable pub send_ping : ℕ → PeerConnectivityChecker → PeerConnectivityChecker × Bytes
send_ping now c = (record c { last_sent_ping_time = some now }, ping_message)

abbrev is_set : Option ℕ → Bool
is_set none = false
is_set (some t) = true

-- `time > now - timeout`, where an empty optional is below every time. The time point may lie before
-- the clock's epoch, so the timeout is added on the other side.
abbrev later_than_limit : ℕ → Option ℕ → Bool
later_than_limit now none = false
later_than_limit now (some t) = ltb now (t + connection_timeout_ms)

-- Whether the callback `_cb` is called.
unfoldable pub check_connectivity : ℕ → PeerConnectivityChecker → Bool
check_connectivity now c =
    let fresh =
      if not (is_set c.last_received_data_time)
        && (not (is_set c.last_received_pong_time) && later_than_limit now c.timer_start_time)
      then false
      else true in
    let after_data =
      if is_set c.last_received_data_time && later_than_limit now c.last_received_data_time
      then false
      else fresh in
    if is_set c.last_received_pong_time && later_than_limit now c.last_received_pong_time
    then false
    else after_data
