-- ===== src/Checker/Silence.antt =====
-- When `_checkConnectivity` of PeerConnectivityChecker.cpp reports a lost connection.
use Prim.Native.Nat.{max}
use ice_adapter.Base.{
  ℕ, ◌+◌, ◌≤◌, ◌<◌, ◌≡◌, ◌↔◌, refl, Bytes, true, false, Option, none, some, List, [], ◌∷◌, arith,
  str_eq, Bool-cases, inl, inr,
}
use ice_adapter.Checker.{
  PeerConnectivityChecker, create, handle_message_from_peer, check_connectivity, pong_message,
  connection_timeout_ms, start_ping, send_ping,
}

-- The last sign of life: the latest message of either kind, or the start while there was none.
abbrev pub last_sign : ℕ → Option ℕ → Option ℕ → ℕ
last_sign start none none = start
last_sign start none (some p) = p
last_sign start (some d) none = d
last_sign start (some d) (some p) = max d p

-- Set by the constructor and never reset.
abbrev pub StartedAt : ℕ → PeerConnectivityChecker → Type 0
StartedAt start c = c.timer_start_time ≡ some start

lost_by :
    (now start : ℕ) (c : PeerConnectivityChecker) (d p : Option ℕ)
    → c.last_received_data_time ≡ d
    → c.last_received_pong_time ≡ p
    → StartedAt start c
    → (check_connectivity now c ≡ true) ↔ (last_sign start d p + 10000 ≤ now)
unfolding check_connectivity
lost_by now start c none none ed ep es = ground arith
lost_by now start c none (some p) ed ep es = ground arith
lost_by now start c (some d) none ed ep es = ground arith
lost_by now start c (some d) (some p) ed ep es = ground arith

-- For a checker that was started at `start`, the check calls its callback exactly when ten seconds
-- have passed since the last message or pong, or since the start while there was none.
pub check_connectivity_exact :
    (now start : ℕ) (c : PeerConnectivityChecker)
    → StartedAt start c
    → (check_connectivity now c ≡ true) ↔ (
        last_sign start c.last_received_data_time c.last_received_pong_time + connection_timeout_ms
        ≤ now)
check_connectivity_exact now start c s =
    lost_by now start c c.last_received_data_time c.last_received_pong_time refl refl s

-- What happens to a checker between two checks.
pub data Event : Type 0 where
  message : Bytes → Event
  ping_starts ping_fires : Event

unfoldable pub react : ℕ → Event → PeerConnectivityChecker → PeerConnectivityChecker
react now (message bytes) c = (handle_message_from_peer now bytes c).0
react now ping_starts c = start_ping c
react now ping_fires c = (send_ping now c).0

-- A timed history of events, oldest first.
unfoldable pub run : List (ℕ × Event) → PeerConnectivityChecker → PeerConnectivityChecker
run [] c = c
run ((now, e) ∷ es) c = run es (react now e c)

-- The peer was heard at `t` at the latest; pings that are sent do not count.
abbrev pub HeardBy : ℕ → List (ℕ × Event) → Type 0
HeardBy t [] = Unit {0}
HeardBy t ((now, message bytes) ∷ es) = (now ≤ t) × HeardBy t es
HeardBy t ((now, ping_starts) ∷ es) = HeardBy t es
HeardBy t ((now, ping_fires) ∷ es) = HeardBy t es

record QuietSince (start t : ℕ) (c : PeerConnectivityChecker) : Type 0 where
  started : StartedAt start c
  sign : last_sign start c.last_received_data_time c.last_received_pong_time ≤ t

sign_after :
    (start t now : ℕ) (c : PeerConnectivityChecker) (d p : Option ℕ)
    → c.last_received_data_time ≡ d
    → c.last_received_pong_time ≡ p
    → now ≤ t
    → last_sign start d p ≤ t
    → (last_sign start (some now) p ≤ t) × (last_sign start d (some now) ≤ t)
sign_after start t now c none none ed ep h k = omega arith
sign_after start t now c none (some p) ed ep h k = omega arith
sign_after start t now c (some d) none ed ep h k = omega arith
sign_after start t now c (some d) (some p) ed ep h k = omega arith

message-QuietSince :
    (start t now : ℕ) (bytes : Bytes) (c : PeerConnectivityChecker)
    → now ≤ t
    → QuietSince start t c
    → QuietSince start t (react now (message bytes) c)
unfolding react handle_message_from_peer
message-QuietSince start t now bytes c h q =
    let after =
      sign_after start t now c c.last_received_data_time c.last_received_pong_time refl refl h
        q.sign in
    elim (Bool-cases (str_eq bytes pong_message)) [
      | inl e ↦
          rw (react, handle_message_from_peer, e) (record { started = q.started; sign = after.1 })
      | inr e ↦
          rw (react, handle_message_from_peer, e) (record { started = q.started; sign = after.0 })
    ]

run-QuietSince :
    (start t : ℕ) (es : List (ℕ × Event)) (c : PeerConnectivityChecker)
    → HeardBy t es
    → QuietSince start t c
    → QuietSince start t (run es c)
unfolding run react start_ping send_ping
run-QuietSince start t [] c h q = q
run-QuietSince start t ((now, message bytes) ∷ es) c h q =
    run-QuietSince start t es (react now (message bytes) c) h.1
      (message-QuietSince start t now bytes c h.0 q)
run-QuietSince start t ((now, ping_starts) ∷ es) c h q =
    run-QuietSince start t es (react now ping_starts c) h
      (record { started = q.started; sign = q.sign })
run-QuietSince start t ((now, ping_fires) ∷ es) c h q =
    run-QuietSince start t es (react now ping_fires c) h
      (record { started = q.started; sign = q.sign })

-- A peer from which nothing is received after time `t`, whatever pings are sent to it, is reported
-- as lost by every check from `t` plus ten seconds on.
pub silence_detected :
    (start t now : ℕ) (es : List (ℕ × Event))
    → start ≤ t
    → HeardBy t es
    → t + connection_timeout_ms ≤ now
    → check_connectivity now (run es (create start)) ≡ true
unfolding create
silence_detected start t now es h heard late =
    let q = run-QuietSince start t es (create start) heard (record { started = refl; sign = h }) in
    (check_connectivity_exact now start (run es (create start)) q.started).1 (omega (arith, q.sign))

-- For a checker that was started, a message, pong or not, keeps every check of the next ten seconds
-- quiet.
pub message_keeps_alive :
    (start heard now : ℕ) (bytes : Bytes) (c : PeerConnectivityChecker)
    → StartedAt start c
    → now < heard + connection_timeout_ms
    → check_connectivity now (react heard (message bytes) c) ≡ false
unfolding react handle_message_from_peer check_connectivity
message_keeps_alive start heard now bytes c s h = ground arith
