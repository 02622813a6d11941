-- ===== src/Testclient/Pingtracker.antt =====
-- legacy_testclient/Pingtracker.h and legacy_testclient/Pingtracker.cpp: pings to a peer over the
-- relays, and how many are answered or lost.
pub mod Waiting
pub mod Counts
pub mod Paced
use ice_adapter.Base.{
  ℕ, suc, ◌+◌, ℤ, pos, Bool, true, false, List, [], ◌∷◌, ◌++◌, Option, none, some, ltb, ◌==◌,
  if◌then◌else◌, length, pattern_of, int32_of,
}
use ice_adapter.Base.IntMap.{find, assign, erase}

-- The fields are `quint32`; the type is the value of the enumeration.
pub record PingPacket : Type 0 where
  pub type : ℕ
  pub sender_id : ℕ
  pub answerer_id : ℕ
  pub ping_id : ℕ

abbrev pub ping : ℕ
ping = 462

abbrev pub pong : ℕ
pong = 7392

-- The arguments of the signal `pingStats`, behind the peer's id: the average, and the pings that wait,
-- are lost and were answered.
abbrev pub Stats : Type 0 → Type 0
Stats F = F × ℕ × ℕ × ℕ

-- The `while` loop of `update`: the pings that it leaves, and how many it erases.
unfoldable pub expire : ℕ → List (ℤ × ℕ) → List (ℤ × ℕ) × ℕ
expire now [] = ([], 0)
expire now ((id, sent) ∷ m) =
    let (rest, lost) = expire now m in
    if ltb (sent + 5000) now then (rest, suc lost) else ((id, sent) ∷ m, 0)

-- `F` is the type `float`, and `average` is `(_currentPing * 9 + ping) / 10` with the time of the pong
-- and the time of the ping.
module _ (F : Type 0) (average : F → ℕ → ℕ → F) where
  -- `written` is the trace of the datagrams to the port and `emitted` that of the signal. Times are in
  -- milliseconds since the epoch. That the counters stay below 2 ^ 31 is assumed.
  pub record Pingtracker : Type 0 where
    pub local_peer_id : ℤ
    pub remote_peer_id : ℤ
    pub pending_pings : List (ℤ × ℕ)
    pub lost_pings : ℕ
    pub successful_pings : ℕ
    pub current_ping : F
    pub current_ping_id : ℕ
    pub is_active : Bool
    pub written : List PingPacket
    pub emitted : List (Stats F)

  abbrev pub create : F → ℤ → ℤ → Pingtracker
  create zero_ping local_peer_id remote_peer_id = record {
    local_peer_id = local_peer_id;
    remote_peer_id = remote_peer_id;
    pending_pings = [];
    lost_pings = 0;
    successful_pings = 0;
    current_ping = zero_ping;
    current_ping_id = 0;
    is_active = false;
    written = [];
    emitted = [];
  }

  unfoldable pub start : Pingtracker → Pingtracker
  start t = record t { is_active = true }

  -- What the ping timer calls.
  unfoldable pub on_ping_timer : ℕ → Pingtracker → Pingtracker
  on_ping_timer now t =
      let p : PingPacket = record {
        type = ping;
        sender_id = pattern_of t.local_peer_id;
        answerer_id = pattern_of t.remote_peer_id;
        ping_id = pattern_of (pos t.current_ping_id);
      } in
      record t {
        written = t.written ++ (p ∷ []);
        pending_pings = assign (pos t.current_ping_id) now t.pending_pings;
        current_ping_id = suc t.current_ping_id;
      }

  -- A pong for a ping that waits, or for none.
  abbrev pub answered : ℕ → ℤ → Option ℕ → Pingtracker → Pingtracker
  answered now id none t = t
  answered now id (some sent) t = record t {
    pending_pings = erase id t.pending_pings;
    successful_pings = suc t.successful_pings;
    current_ping = average t.current_ping now sent;
  }

  unfoldable pub on_ping_packet : ℕ → PingPacket → Pingtracker → Pingtracker
  on_ping_packet now p t =
      if p.type == ping
      then record t { written = t.written ++ (record p { type = pong } ∷ []) }
      else if p.type == pong
      then answered now (int32_of p.ping_id) (find (int32_of p.ping_id) t.pending_pings) t
      else t

  unfoldable pub update : ℕ → Pingtracker → Pingtracker
  unfolding expire
  update now t =
      let (rest, lost) = expire now t.pending_pings in
      record t {
        pending_pings = rest;
        lost_pings = t.lost_pings + lost;
        emitted =
            t.emitted
            ++ ((t.current_ping, length rest, t.lost_pings + lost, t.successful_pings) ∷ []);
      }
