-- ===== src/Rpc/Examples.antt =====
-- The theorems on requests, responses and the server at concrete clients.
use ice_adapter.Base.{
  ℕ, suc, pos, ◌≡◌, refl, ◌⊎◌, inl, Bytes, true, false, List, [], ◌∷◌, ◌++◌, none, some, ◌==◌,
  if◌then◌else◌, codes, str_eq, ℤ_eq,
}
use ice_adapter.Base.IntMap.{find, assign}
use ice_adapter.Base.IntMap as IntMap
use ice_adapter.GpgNet.Server.{erase}
use ice_adapter.GpgNet.Members.{received_by}
use ice_adapter.Json.Sample.{
  Sample, sample_lib, sample_laws, sample_objects, text, nothing, no_items, entry, int, text_of,
}
use ice_adapter.Rpc.Node.{Service, Called, returned, thrown, Node, send_request}
use ice_adapter.Rpc.Dispatch.{send_all, not_found, params_of, process_json_message}
use ice_adapter.Rpc.Server.{JsonRpcServer, Net, visit, send_message, server_link}
use ice_adapter.Rpc.Responses.{CarriesId, Replies, HasOnly}
use ice_adapter.Rpc.Answers.{IsCall, replied, unknown_method_answered, call_unanswered}
use ice_adapter.Rpc.Pending.{Event, sends, run, response_once}
use ice_adapter.Rpc.Awaits.{Carries, request_awaits}
use ice_adapter.Rpc.Sends.{AlwaysZero, failed_send_skips_next, failed_send_undefined}
use ice_adapter.Rpc.Copies.{IsReliable}
use ice_adapter.Rpc.Delivered.{call_delivered}
use ice_adapter.Rpc.Read.{on_read}
use ice_adapter.Rpc.Processed.{in_turn, emptied, stream_processed}
use ice_adapter.Rpc.Tests.{first_text, second_text, two_messages, two_messages-AreMessages}

-- A service with two methods: "echo" answers with its parameters after it has sent a request, and
-- counts its calls; "fail" throws.
abbrev echo : Sample → ℕ → Called Sample × List (Bytes × Sample) × ℕ
echo params n = (returned params nothing, (codes "note", no_items) ∷ [], suc n)

abbrev fail : Sample → ℕ → Called Sample × List (Bytes × Sample) × ℕ
fail params n = (thrown, [], suc n)

abbrev sample_service : Service sample_lib
sample_service = record {
  State = ℕ;
  callback = λ method.
      if str_eq method (codes "echo")
      then some echo
      else if str_eq method (codes "fail")
      then some fail
      else none;
  callback_async = λ method. none;
}

-- Every `Send` to the socket 9 returns 0.
abbrev sample_net : Net
sample_net w h = if h == 9 then pos 0 else pos 1

abbrev SampleNode : Type 0
SampleNode = Node sample_lib (server_link sample_net) sample_service ℕ

abbrev server_of : List ℕ → JsonRpcServer
server_of hs = record { connected_sockets = hs; current_msgs = []; written = []; undefined = false }

abbrev sample_node : SampleNode
sample_node = record {
  service = 0;
  link = server_of (3 ∷ (5 ∷ []));
  current_id = 4;
  current_requests = [];
  answered = [];
  has_ended = false;
}

abbrev call_of : Bytes → Sample
call_of method = entry (entry nothing (codes "method") (text method)) (codes "id") (int (pos 8))

call_of-IsCall :
    (method : Bytes)
    → IsCall sample_lib sample_laws sample_objects
        (server_link sample_net)
        sample_service
        ℕ
        (call_of method)
        (int (pos 8))
        (text method)
        method
unfolding str_eq
call_of-IsCall method = (refl, refl, refl, refl, refl, refl)

clients_good : IsReliable sample_net (server_of (3 ∷ (5 ∷ [])))
clients_good = ((refl, tt), ((λ w. refl), ((λ w. refl), tt)))

call_delivered_example :
    (response : Sample) × CarriesId sample_lib sample_laws sample_objects response (int (pos 8))
    × Replies sample_lib sample_laws sample_objects response no_items nothing
    × (received_by 3
          (process_json_message sample_lib
            (server_link sample_net)
            sample_service
            ℕ
            (call_of (codes "echo"))
            3
            sample_node).link.written
        ≡ [] ++ (([] ∷ []) ++ (text_of response ∷ [])))
unfolding str_eq params_of
call_delivered_example =
    call_delivered sample_lib sample_net sample_service ℕ sample_laws sample_objects 3
      (call_of (codes "echo")) (int (pos 8)) (text (codes "echo")) (codes "echo") 3 sample_node echo
      no_items nothing ((codes "note", no_items) ∷ []) 1 (call_of-IsCall (codes "echo")) refl refl
      clients_good

unknown_method_answered_example :
    (response : Sample) × CarriesId sample_lib sample_laws sample_objects response (int (pos 8))
    × HasOnly sample_lib sample_laws sample_objects
        (codes "error")
        (codes "result")
        response
        (text (not_found sample_lib (server_link sample_net) sample_service ℕ (codes "none")))
    × (process_json_message sample_lib
          (server_link sample_net)
          sample_service
          ℕ
          (call_of (codes "none"))
          3
          sample_node
        ≡ replied sample_lib sample_laws sample_objects
            (server_link sample_net)
            sample_service
            ℕ
            response
            3
            sample_node)
unfolding str_eq
unknown_method_answered_example =
    unknown_method_answered sample_lib sample_laws sample_objects (server_link sample_net)
      sample_service ℕ (call_of (codes "none")) (int (pos 8)) (text (codes "none")) (codes "none") 3
      sample_node (call_of-IsCall (codes "none")) refl refl

call_unanswered_example :
    process_json_message sample_lib
      (server_link sample_net)
      sample_service
      ℕ
      (call_of (codes "fail"))
      3
      sample_node
    ≡ record sample_node { service = 1 }
unfolding str_eq send_all
call_unanswered_example =
    call_unanswered sample_lib sample_laws sample_objects (server_link sample_net) sample_service ℕ
      (call_of (codes "fail")) (text (codes "fail")) (codes "fail") 3 sample_node fail thrown
      nothing nothing [] 1 refl refl refl refl refl refl (inl refl)

-- One request has been sent, with the callback 21.
abbrev one_request : List (Event sample_lib (server_link sample_net) sample_service ℕ)
one_request = sends (codes "ask") no_items none (some 21) ∷ []

abbrev waiting_node : SampleNode
waiting_node = run sample_lib (server_link sample_net) sample_service ℕ one_request sample_node

request_awaits_example :
    let n1 =
      send_request sample_lib
        (server_link sample_net)
        sample_service
        ℕ
        (codes "ask")
        no_items
        none
        (some 22)
        waiting_node in
    (find (pos 5) waiting_node.current_requests ≡ none)
    × (find (pos 4) n1.current_requests ≡ some 21)
    × (request : Sample) × Carries sample_lib sample_laws sample_objects
        (codes "ask")
        no_items
        (pos 5)
        request
    × (n1.link ≡ (send_message sample_net (text_of request) none waiting_node.link).1)
unfolding run send_request send_message visit assign find ℤ_eq
request_awaits_example =
    request_awaits sample_lib sample_laws sample_objects (server_link sample_net) sample_service ℕ
      one_request sample_node (codes "ask") no_items none 22 (pos 4) refl refl refl

abbrev response_to_ask : Sample
response_to_ask =
    entry (entry nothing (codes "id") (int (pos 4))) (codes "result") (text (codes "yes"))

response_once_example :
    let n1 =
      process_json_message sample_lib
        (server_link sample_net)
        sample_service
        ℕ
        response_to_ask
        3
        waiting_node in
    (n1.answered ≡ [] ++ ((21, text (codes "yes"), nothing) ∷ []))
    × (find (pos 4) n1.current_requests ≡ none)
    × (process_json_message sample_lib
          (server_link sample_net)
          sample_service
          ℕ
          response_to_ask
          3
          n1
        ≡ n1)
unfolding run send_request send_message visit assign find ℤ_eq str_eq
response_once_example =
    response_once sample_lib (server_link sample_net) sample_service ℕ one_request sample_node
      response_to_ask 3 (pos 4) 21 refl (refl, refl, refl, refl, refl) refl

zero_to_nine : AlwaysZero sample_net 9
zero_to_nine w = refl

failed_send_skips_next_example :
    (send_message sample_net (1 ∷ []) none (server_of (3 ∷ (9 ∷ (11 ∷ (12 ∷ [])))))).1
    ≡ record (server_of (3 ∷ (11 ∷ (12 ∷ [])))) {
      written = (3, 1 ∷ []) ∷ ((9, 1 ∷ []) ∷ ((12, 1 ∷ []) ∷ []));
    }
unfolding erase IntMap.erase
failed_send_skips_next_example =
    failed_send_skips_next sample_net (1 ∷ []) (3 ∷ []) 9 11 (12 ∷ [])
      (server_of (3 ∷ (9 ∷ (11 ∷ (12 ∷ []))))) refl ((λ w. refl), tt) zero_to_nine ((λ w. refl), tt)

failed_send_undefined_example :
    (send_message sample_net (1 ∷ []) (some 9) (server_of (3 ∷ (9 ∷ [])))).1.undefined ≡ true
failed_send_undefined_example =
    failed_send_undefined sample_net (1 ∷ []) (some 9) (3 ∷ []) 9 (server_of (3 ∷ (9 ∷ []))) refl
      refl ((λ w. refl), tt) zero_to_nine

-- A byte of the first message has come before the others.
abbrev reading_node : SampleNode
reading_node = record sample_node {
  link = record sample_node.link { current_msgs = (pos 3, 123 ∷ []) ∷ [] };
}

stream_processed_example :
    let m =
      in_turn sample_lib sample_laws sample_net sample_service ℕ 3 two_messages
        (emptied sample_lib sample_laws sample_net sample_service ℕ 3 reading_node) in
    let r =
      on_read sample_lib sample_net sample_service ℕ 3
        (first_text ∷ ((10 ∷ 123 ∷ second_text) ∷ ((10 ∷ []) ∷ [])))
        reading_node in
    ((find (pos 3) m.link.current_msgs ≡ some []) × (r ≡ m))
    ⊎ ((find (pos 3) m.link.current_msgs ≡ none)
        × (r ≡ record m { link = record m.link { undefined = true } }))
unfolding find ℤ_eq
stream_processed_example =
    stream_processed sample_lib sample_laws sample_net sample_service ℕ two_messages 3 (123 ∷ [])
      (first_text ∷ ((10 ∷ 123 ∷ second_text) ∷ ((10 ∷ []) ∷ []))) reading_node
      two_messages-AreMessages refl (tt, tt) (inl refl) ((λ e. cc), ((λ e. cc), ((λ e. cc), tt)))
      refl
