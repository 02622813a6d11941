-- ===== src/Testclient/Pingtracker/Counts.antt =====
-- legacy_testclient/Pingtracker.cpp: every ping is counted once.
use ice_adapter.Base.{
  ℕ, suc, ◌+◌, ◌≤◌, ◌≡◌, refl, inl, inr, ℤ, pos, Bool, true, false, List, [], ◌∷◌, ◌++◌, Option,
  none, some, All-append, if◌then◌else◌, length, length-append, arith, Bool-cases, ◌==◌, int32_of,
}
use ice_adapter.Base.IntMap.{ℤ_ltb, find}
use ice_adapter.Base.IntMap.Laws.{All-erase}
use ice_adapter.Testclient.Pingtracker.{
  PingPacket, Pingtracker, create, start, on_ping_timer, on_ping_packet, answered, update, ping,
  pong,
}
use ice_adapter.Testclient.Pingtracker.Waiting.{
  AllBelow, AllBelow-suc, assign-AllBelow, length-erase, AllUntil, IsTimely, length-expire,
  All-expire, expire-IsTimely, AllRecent, expire-AllRecent, erase-IsTimely, append-IsTimely,
  AllUntil-later,
}

module _ (F : Type 0) (average : F → ℕ → ℕ → F) where
  -- What happens to a tracker: time passes, and in no time it is started, its ping timer fires, a packet
  -- comes, and it updates its numbers.
  pub data Event : Type 0 where
    passes : ℕ → Event
    starts pings updates : Event
    receives : PingPacket → Event

  pub record Clocked : Type 0 where
    pub now : ℕ
    pub tracker : Pingtracker F average

  -- The ping timer fires only while it is active.
  abbrev pub step : Event → Clocked → Clocked
  step (passes d) c = record c { now = c.now + d }
  step starts c = record c { tracker = start F average c.tracker }
  step pings c = record c {
    tracker = if c.tracker.is_active then on_ping_timer F average c.now c.tracker else c.tracker;
  }
  step updates c = record c { tracker = update F average c.now c.tracker }
  step (receives p) c = record c { tracker = on_ping_packet F average c.now p c.tracker }

  abbrev pub run : List Event → Clocked → Clocked
  run [] c = c
  run (e ∷ es) c = run es (step e c)

  -- Every ping that was sent waits, is lost or was answered.
  abbrev pub IsCounted : Pingtracker F average → Type 0
  IsCounted t = length t.pending_pings + (t.lost_pings + t.successful_pings) ≡ t.current_ping_id

  abbrev pub IsInOrder : ℕ → Pingtracker F average → Type 0
  IsInOrder now t =
      IsCounted t
      × AllBelow t.current_ping_id t.pending_pings
      × IsTimely t.pending_pings
      × AllUntil now t.pending_pings

  ping-IsInOrder :
      (now : ℕ) (t : Pingtracker F average)
      → IsInOrder now t
      → IsInOrder now (on_ping_timer F average now t)
  unfolding on_ping_timer
  ping-IsInOrder now t (counted, below, timely, until) =
      let next : List (ℤ × ℕ) = (pos t.current_ping_id, now) ∷ [] in
      let counts : length (t.pending_pings ++ next) ≡ suc (length t.pending_pings) =
        omega (arith, length-append t.pending_pings next) in
      rw (assign-AllBelow t.current_ping_id now t.pending_pings below) (
        omega (arith, counted, counts),
        All-append (λ e. ℤ_ltb e.0 (pos (suc t.current_ping_id)) ≡ true) t.pending_pings next
            (AllBelow-suc t.current_ping_id t.pending_pings below) (ground arith, tt),
        append-IsTimely (pos t.current_ping_id) now t.pending_pings timely until,
        All-append (λ e. e.1 ≤ now) t.pending_pings next until (omega arith, tt),
      )

  answered-IsInOrder :
      (now : ℕ) (id : ℤ) (o : Option ℕ) (t : Pingtracker F average)
      → find id t.pending_pings ≡ o
      → IsInOrder now t
      → IsInOrder now (answered F average now id o t)
  answered-IsInOrder now id none t e h = h
  answered-IsInOrder now id (some sent) t e (counted, below, timely, until) = (
    omega (arith, counted, length-erase id sent t.pending_pings e),
    All-erase (λ e. ℤ_ltb e.0 (pos t.current_ping_id) ≡ true) id t.pending_pings below,
    erase-IsTimely id t.pending_pings timely,
    All-erase (λ e. e.1 ≤ now) id t.pending_pings until,
  )

  packet-IsInOrder :
      (now : ℕ) (p : PingPacket) (t : Pingtracker F average)
      → IsInOrder now t
      → IsInOrder now (on_ping_packet F average now p t)
  unfolding on_ping_packet
  packet-IsInOrder now p t h = elim (Bool-cases (p.type == ping)) [
    | inl e ↦ rw (e, on_ping_packet) h
    | inr e ↦ elim (Bool-cases (p.type == pong)) [
      | inl k ↦
          rw (e, k, on_ping_packet)
            (answered-IsInOrder now (int32_of p.ping_id) (find (int32_of p.ping_id) t.pending_pings)
              t refl h)
      | inr k ↦ rw (e, k, on_ping_packet) h
    ]
  ]

  update-IsInOrder :
      (now : ℕ) (t : Pingtracker F average)
      → IsInOrder now t
      → IsInOrder now (update F average now t)
  unfolding update
  update-IsInOrder now t (counted, below, timely, until) =
      let m = t.pending_pings in
      (
        omega (arith, counted, length-expire now m),
        All-expire (λ e. ℤ_ltb e.0 (pos t.current_ping_id) ≡ true) now m below,
        expire-IsTimely now m timely,
        All-expire (λ e. e.1 ≤ now) now m until,
      )

  IsInOrder-if :
      (now : ℕ) (b : Bool) (t u : Pingtracker F average)
      → IsInOrder now t
      → IsInOrder now u
      → IsInOrder now (if b then t else u)
  IsInOrder-if now true t u h k = h
  IsInOrder-if now false t u h k = k

  pub step-IsInOrder :
      (e : Event) (c : Clocked)
      → IsInOrder c.now c.tracker
      → IsInOrder (step e c).now (step e c).tracker
  unfolding start
  step-IsInOrder (passes d) c (counted, below, timely, until) =
      (counted, below, timely, AllUntil-later c.now d c.tracker.pending_pings until)
  step-IsInOrder starts c h = h
  step-IsInOrder pings c h =
      IsInOrder-if c.now c.tracker.is_active (on_ping_timer F average c.now c.tracker) c.tracker
        (ping-IsInOrder c.now c.tracker h) h
  step-IsInOrder updates c h = update-IsInOrder c.now c.tracker h
  step-IsInOrder (receives p) c h = packet-IsInOrder c.now p c.tracker h

  pub run-IsInOrder :
      (es : List Event) (c : Clocked)
      → IsInOrder c.now c.tracker
      → IsInOrder (run es c).now (run es c).tracker
  run-IsInOrder [] c h = h
  run-IsInOrder (e ∷ es) c h = run-IsInOrder es (step e c) (step-IsInOrder e c h)

  -- In any history of a new tracker, with a clock that does not go back: each ping that was sent waits,
  -- is lost or was answered, and is counted as one of these once. After an update, no ping that waits is
  -- older than five seconds.
  pub pings-IsCounted :
      (es : List Event) (now : ℕ) (zero_ping : F) (local_peer_id remote_peer_id : ℤ)
      → let c = run es (record {
        now = now;
        tracker = create F average zero_ping local_peer_id remote_peer_id;
      }) in
        IsCounted c.tracker × AllRecent c.now (update F average c.now c.tracker).pending_pings
  unfolding update
  pings-IsCounted es now zero_ping local_peer_id remote_peer_id =
      let start_clock : Clocked = record {
        now = now;
        tracker = create F average zero_ping local_peer_id remote_peer_id;
      } in
      let c = run es start_clock in
      let (counted, below, timely, until) = run-IsInOrder es start_clock (refl, tt, tt, tt) in
      (counted, expire-AllRecent c.now c.tracker.pending_pings timely)
