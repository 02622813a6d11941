-- ===== src/Testclient/Tests.antt =====
-- The theorems on the test client at concrete histories.
use ice_adapter.Base.{
  ℕ, pos, ◌≡◌, refl, List, [], ◌∷◌, drop, length, ◌≤◌, arith, put_int32, pattern_of, int32_of,
}
use ice_adapter.Json.Sample.{sample_lib, sample_laws}
use ice_adapter.GpgNet.Message.{to_binary, put_chunks, put_chunk}
use ice_adapter.GpgNet.Server.{send_message}
use ice_adapter.GpgNet.Server.Refines.{serve}
use ice_adapter.GpgNet.Tests.{numbers_message, numbers_bytes, two_games, numbers_message-wire}
use ice_adapter.Testclient.GpgNetClient.{new_client}
use ice_adapter.Testclient.GpgNetClient.Meets.{read_each, server_reaches_client}
use ice_adapter.Testclient.Pingtracker.{PingPacket, create, update, pong}
use ice_adapter.Testclient.Pingtracker.Paced.{few_pings_wait}
use ice_adapter.Testclient.Pingtracker.Waiting.{AllRecent}
use ice_adapter.Testclient.Pingtracker.Counts.{
  Event, Clocked, passes, starts, pings, updates, receives, run, IsCounted, pings-IsCounted,
}

abbrev average : ℕ → ℕ → ℕ → ℕ
average before now sent = before

abbrev late_pong : PingPacket
late_pong = record { type = pong; sender_id = 1; answerer_id = 2; ping_id = 1 }

-- Three pings; the second one is answered twice, and the first one is lost.
abbrev ping_history : List (Event ℕ average)
ping_history =
    starts
    ∷ (pings
        ∷ (passes 100
            ∷ (pings
                ∷ (passes 4950
                    ∷ (pings ∷ (receives late_pong ∷ (receives late_pong ∷ (updates ∷ []))))))))

abbrev at_end : Clocked ℕ average
at_end =
    run ℕ average ping_history (record { now = 0; tracker = create ℕ average 0 (pos 1) (pos 2) })

pings-IsCounted_example :
    IsCounted ℕ average at_end.tracker
    × AllRecent at_end.now (update ℕ average at_end.now at_end.tracker).pending_pings
pings-IsCounted_example = pings-IsCounted ℕ average ping_history 0 0 (pos 1) (pos 2)

few_pings_wait_example : length (update ℕ average at_end.now at_end.tracker).pending_pings ≤ 53
few_pings_wait_example =
    few_pings_wait ℕ average ping_history 95 0 0 (pos 1) (pos 2)
      (omega arith, (omega arith, (omega arith, tt)))

server_reaches_client_example :
    let c =
      read_each sample_lib sample_laws
        ((1 ∷ 0 ∷ []) ∷ (drop 2 numbers_bytes ∷ []))
        (new_client sample_lib) in
    (c.received ≡ numbers_message ∷ []) × (c.message ≡ [])
unfolding serve send_message to_binary put_chunks put_chunk put_int32 pattern_of int32_of
server_reaches_client_example =
    server_reaches_client sample_lib sample_laws 8 (numbers_message ∷ []) two_games (1 ∷ 0 ∷ [])
      (drop 2 numbers_bytes ∷ []) (numbers_message-wire, tt) (refl, tt) refl refl (omega arith)
      (omega arith, tt) refl
