-- ===== src/Checker/Tests.antt =====
-- The theorems on the connectivity checker at concrete histories.
use ice_adapter.Base.{◌+◌, ◌≤◌, ◌≡◌, ◌↔◌, refl, true, some, [], ◌∷◌, codes, arith}
use ice_adapter.Checker.{
  PeerConnectivityChecker, create, check_connectivity, pong_message, connection_timeout_ms,
}
use ice_adapter.Checker.Silence.{
  last_sign, check_connectivity_exact, message, ping_starts, ping_fires, run, silence_detected,
}

-- Started at 100, with a message at 900 and a pong at 5200.
abbrev heard_checker : PeerConnectivityChecker
heard_checker = record {
  timer_start_time = some 100;
  last_sent_ping_time = some 5100;
  last_received_pong_time = some 5200;
  last_received_data_time = some 900;
  pinging = true;
}

check_connectivity_exact_example : (check_connectivity 15200 heard_checker ≡ true) ↔ (
    last_sign 100 heard_checker.last_received_data_time heard_checker.last_received_pong_time
      + connection_timeout_ms
    ≤ 15200)
check_connectivity_exact_example = check_connectivity_exact 15200 100 heard_checker refl

silence_detected_example :
    check_connectivity 15200 (
      run
        ((900, message (codes "data"))
          ∷ (5000, ping_starts)
          ∷ (5100, ping_fires)
          ∷ (5200, message pong_message)
          ∷ (5600, ping_fires)
          ∷ [])
        (create 100))
    ≡ true
silence_detected_example =
    silence_detected 100 5200 15200
      ((900, message (codes "data"))
        ∷ (5000, ping_starts)
        ∷ (5100, ping_fires)
        ∷ (5200, message pong_message)
        ∷ (5600, ping_fires)
        ∷ [])
      (omega arith) (omega arith, (omega arith, tt)) (omega arith)
