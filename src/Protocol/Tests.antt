-- ===== src/Protocol/Tests.antt =====
-- The theorems on the JSON-RPC of the test programs at concrete texts.
use ice_adapter.Base.{ℕ, ◌≡◌, refl, some, none, false, [], ◌∷◌, codes}
use ice_adapter.Json.Sample.{sample_lib, sample_laws, no_items}
use ice_adapter.Protocol.{Endpoint, send_request}
use ice_adapter.Protocol.Reading.{on_ready_read, stop, on_message}
use ice_adapter.Protocol.Sockets.{server_send_json}
use ice_adapter.Protocol.Streams.{on_all, all_processed}
use ice_adapter.Rpc.Stream.{stream}
use ice_adapter.Rpc.Tests.{two_messages, two_messages-AreMessages}

abbrev idle : Endpoint sample_lib ℕ ℕ
idle = record {
  callbacks = [];
  service = 0;
  current_requests = [];
  current_id = 0;
  answered = [];
  sent = [];
  has_ended = false;
}

two_processed :
    on_ready_read sample_lib ℕ ℕ 5
      (stream sample_lib sample_laws two_messages)
      (stop sample_lib ℕ ℕ [] idle)
    ≡ stop sample_lib ℕ ℕ [] (on_all sample_lib sample_laws ℕ ℕ 5 two_messages idle)
unfolding on_message
two_processed =
    all_processed sample_lib sample_laws ℕ ℕ 5 two_messages
      (stream sample_lib sample_laws two_messages) (stop sample_lib ℕ ℕ [] idle)
      two_messages-AreMessages (refl, (refl, tt)) refl

-- A server without the socket that is named sends to all.
sends_to_all :
    (send_request sample_lib ℕ ℕ
      (server_send_json sample_lib ℕ ℕ (1 ∷ (2 ∷ [])))
      (codes "onGamelist")
      no_items
      (some 3)
      none
      idle).sent
    ≡ (1, []) ∷ ((2, []) ∷ [])
unfolding send_request server_send_json
sends_to_all = refl
