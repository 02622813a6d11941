-- ===== src/Adapter/Tests.antt =====
-- The theorems on the adapter at concrete states.
use ice_adapter.Base.{
  ℕ, ◌≡◌, ◌≢◌, ◌⊎◌, List, refl, pos, ℤ_eq, Bytes, true, false, [], ◌∷◌, some, codes, arith, str_eq,
  int32_of, put_int32, pattern_of, ◌++◌,
}
use ice_adapter.Json.Sample.{
  Sample, sample_lib, sample_laws, sample_objects, int, text, flag, nothing, no_items, items, entry,
}
use ice_adapter.GpgNet.Message.{to_binary, put_chunks, put_chunk}
use ice_adapter.GpgNet.Server.{GpgNetServer, has_connected_client, send_message}
use ice_adapter.Relay.State.{IceServer, ok, threw}
use ice_adapter.Relay.Close.{make as make_relay}
use ice_adapter.Relay.Connection.{text_of}
use ice_adapter.Adapter.State.{
  IceAdapter, IceAdapterGameTask, IceAdapterOptions, connect_to_peer, disconnect_from_peer, find,
  assign, make, Moment, Exec,
}
use ice_adapter.Adapter.Tasks.{try_execute_game_tasks, queue_game_task}
use ice_adapter.Adapter.Servers.{set_servers, collect, ice_server_of, urls_of, strings}
use ice_adapter.Adapter.Status.{Listening}
use ice_adapter.Adapter.Handlers.{
  Reply, caught, callback_of, on_quit, on_connect_to_peer, checked, try_block,
}
use ice_adapter.Adapter.TaskOrder.{ready_front, waiting_rest, messages_of, send_all, with_server}
use ice_adapter.Adapter.Delivered.{IsSane, Broadcasts, try_execute_delivers}
use ice_adapter.Adapter.Synced.{IsSynced}
use ice_adapter.Adapter.PartialList.{
  FirstServers, no_elements, read_element, IsUnreadable, set_servers_throws,
}
use ice_adapter.Adapter.Methods.{create_peer_relay, connect}
use ice_adapter.Adapter.Steps.{requested, Reach, here, after, reachable_relay_in_sync}
use ice_adapter.Adapter.Service.{adapter_service, run_handler, adapter_answers}
use ice_adapter.Rpc.Node.{Link, Service, Called, returned, ended, Node}
use ice_adapter.Rpc.Dispatch.{params_of, process_json_message}
use ice_adapter.Rpc.Dispatch
use ice_adapter.Rpc.Responses.{CarriesId, Replies}
use ice_adapter.Rpc.Answers.{replied}
use ice_adapter.Relay.Tests.{sample_webrtc, peer_relay}

abbrev connect_task : IceAdapterGameTask
connect_task = record {
  task = connect_to_peer;
  host_map = [];
  remote_login = codes "Rhiza";
  remote_id = pos 7;
}

abbrev leave_task : IceAdapterGameTask
leave_task = record {
  task = disconnect_from_peer;
  host_map = [];
  remote_login = [];
  remote_id = pos 9;
}

abbrev game_server : GpgNetServer
game_server = record { connected = 3 ∷ []; posted = []; written = [] }

abbrev adapter_options : IceAdapterOptions
adapter_options = record {
  local_player_id = pos 1;
  local_player_login = codes "Me";
  rpc_port = pos 7236;
  gpg_net_port = pos 0;
  game_udp_port = pos 6112;
  log_directory = [];
  log_level = codes "info";
}

-- A game is in its lobby state, and two tasks are queued.
abbrev busy_adapter : IceAdapter sample_lib
busy_adapter = record {
  options = adapter_options;
  gpgnet_server = game_server;
  game_tasks = connect_task ∷ leave_task ∷ [];
  gpgnet_game_state = codes "Lobby";
  relays = (pos 7, peer_relay) ∷ [];
  gametask_string = codes "Idle";
  ice_servers = [];
  lobby_init_mode = codes "normal";
  lobby_port = pos 6112;
  requests = [];
  quitting = false;
}

-- The game is not in its lobby yet: only a task that drops a peer runs.
abbrev waiting_adapter : IceAdapter sample_lib
waiting_adapter = record busy_adapter {
  game_tasks = leave_task ∷ connect_task ∷ [];
  gpgnet_game_state = codes "Idle";
}

has_game : has_connected_client game_server ≡ true
unfolding has_connected_client
has_game = refl

leave_task-IsSane : IsSane leave_task
leave_task-IsSane = record {
  map_fits = omega arith;
  login_fits = omega arith;
  id_fits = omega arith;
}

connect_task-IsSane : IsSane connect_task
connect_task-IsSane = record {
  map_fits = omega arith;
  login_fits = omega arith;
  id_fits = omega arith;
}

try_execute_delivers_example :
    (s' : GpgNetServer) × (try_execute_game_tasks sample_lib busy_adapter ≡ (
      ok tt,
      with_server sample_lib busy_adapter s'
          (waiting_rest sample_lib busy_adapter busy_adapter.game_tasks),
    ))
    × Broadcasts sample_lib sample_laws game_server
        (messages_of sample_lib busy_adapter.relays
          (ready_front sample_lib busy_adapter busy_adapter.game_tasks))
        s'
try_execute_delivers_example =
    try_execute_delivers sample_lib sample_laws busy_adapter has_game
      (connect_task-IsSane, (leave_task-IsSane, tt)) (omega arith, tt)

-- What the game receives for `leave_task`.
abbrev leave_bytes : Bytes
leave_bytes =
    (18 ∷ 0 ∷ 0 ∷ 0 ∷ []) ++ codes "DisconnectFromPeer" ++ (1 ∷ 0 ∷ 0 ∷ 0 ∷ 0 ∷ 9 ∷ 0 ∷ 0 ∷ 0 ∷ [])

abbrev told_server : GpgNetServer
told_server = record game_server { written = (3, leave_bytes) ∷ [] }

leave_sent :
    send_all sample_lib
      (messages_of sample_lib waiting_adapter.relays
        (ready_front sample_lib waiting_adapter waiting_adapter.game_tasks))
      game_server
    ≡ some told_server
unfolding send_message to_binary put_chunks put_chunk put_int32 int32_of pattern_of str_eq
leave_sent = refl

-- Two elements, the second without a `url` that is a string.
abbrev good_server : Sample
good_server =
    entry
      (entry (entry (entry nothing (codes "url") (text (codes "stun:a"))) (codes "urls") no_items)
        (codes "credential") (text (codes "pw")))
      (codes "username") (text (codes "me"))

abbrev sample_server : IceServer
sample_server = record {
  uri = codes "stun:a";
  urls = [];
  password = codes "pw";
  username = codes "me";
}

abbrev bad_server : Sample
bad_server = entry good_server (codes "url") no_items

busy-IsSynced : IsSynced sample_lib busy_adapter
busy-IsSynced = ((refl, refl, refl), tt)

returns_on_good : (set_servers sample_lib (items no_items good_server) busy_adapter).0 ≢ threw
unfolding set_servers collect ice_server_of urls_of strings text_of str_eq
returns_on_good e = cc

-- The second of three elements cannot be read.
abbrev mixed_servers : Sample
mixed_servers = items (items (items no_items good_server) bad_server) good_server

good_first : FirstServers sample_lib mixed_servers 1 ([] ++ (sample_server ∷ []))
unfolding ice_server_of urls_of strings text_of str_eq
good_first = read_element 0 [] sample_server no_elements refl refl

bad_second : IsUnreadable sample_lib mixed_servers 1
unfolding ice_server_of urls_of strings text_of str_eq
bad_second = (refl, refl)

set_servers_throws_example :
    set_servers sample_lib mixed_servers busy_adapter
    ≡ (threw, record busy_adapter { ice_servers = sample_server ∷ [] })
set_servers_throws_example =
    set_servers_throws sample_lib mixed_servers 1 ([] ++ (sample_server ∷ [])) busy_adapter
      (omega arith) good_first bad_second

abbrev connect_params : Sample
connect_params = items (items (items no_items (text (codes "Rhiza"))) (int (pos 7))) (flag false)

abbrev connect_moment : Moment
connect_moment = record { now = 50; port = 5000 }

abbrev sample_listening : Listening
sample_listening = record { version = codes "1"; rpc_port = pos 7236; gpgnet_port = pos 7237 }

abbrev connect_call : Exec sample_lib (Reply Sample)
connect_call = on_connect_to_peer sample_lib sample_webrtc connect_moment connect_params

abbrev first_state : IceAdapter sample_lib
first_state = make sample_lib adapter_options 6113

-- The state after `connectToPeer`, called before a game has connected.
abbrev second_state : IceAdapter sample_lib
second_state = (connect_call first_state).1

connect_is_registered :
    callback_of sample_lib sample_webrtc sample_listening connect_moment (codes "connectToPeer")
    ≡ some (on_connect_to_peer sample_lib sample_webrtc connect_moment)
unfolding callback_of str_eq
connect_is_registered = refl

connect_returns : (connect_call first_state).0 ≢ ok caught
unfolding on_connect_to_peer checked try_block connect create_peer_relay queue_game_task
    try_execute_game_tasks has_connected_client make_relay make find assign ℤ_eq
connect_returns e = ground arith

relay_is_registered : find (pos 7) second_state.relays ≡ some peer_relay
unfolding on_connect_to_peer checked try_block connect create_peer_relay queue_game_task
    try_execute_game_tasks has_connected_client make_relay make find assign ℤ_eq
relay_is_registered = refl

second_reached : Reach sample_lib sample_webrtc first_state second_state
second_reached = after first_state second_state here (
    requested sample_listening connect_moment (codes "connectToPeer") connect_params
      (on_connect_to_peer sample_lib sample_webrtc connect_moment) connect_is_registered
      connect_returns)

reachable_relay_in_sync_example :
    (peer_relay.ice_server_list ≡ second_state.ice_servers)
    × (peer_relay.remote_player_id ≡ pos 7)
    × (peer_relay.game_udp_port ≡ second_state.lobby_port)
reachable_relay_in_sync_example =
    reachable_relay_in_sync sample_lib sample_webrtc adapter_options 6113 second_state (pos 7)
      peer_relay second_reached relay_is_registered

-- A client of which every message is kept.
abbrev sample_link : Link
sample_link = record {
  State = List Bytes;
  send_message = λ message socket log. (true, log ++ (message ∷ []));
}

abbrev sample_adapter : Service sample_lib
sample_adapter =
    adapter_service sample_lib sample_webrtc sample_listening connect_moment (codes "what")

abbrev adapter_node : Node sample_lib sample_link sample_adapter ℕ
adapter_node = record {
  service = first_state;
  link = [];
  current_id = 0;
  current_requests = [];
  answered = [];
  has_ended = false;
}

abbrev quit_call : Sample
quit_call = entry (entry nothing (codes "method") (text (codes "quit"))) (codes "id") (int (pos 8))

abbrev quit_handler : Sample → Exec sample_lib (Reply Sample)
quit_handler params = on_quit sample_lib sample_webrtc

abbrev quit_run : Called Sample × List (Bytes × Sample) × IceAdapter sample_lib
quit_run =
    run_handler sample_lib sample_webrtc (codes "what") quit_handler
      (params_of sample_lib sample_link sample_adapter ℕ quit_call) first_state

adapter_answers_example :
    (quit_run.0 ≡ ended)
    ⊎ ((r : Sample) × (e : Sample) × (quit_run.0 ≡ returned r e)
        × (response : Sample) × CarriesId sample_lib sample_laws sample_objects response
            (int (pos 8))
        × Replies sample_lib sample_laws sample_objects response r e
        × (process_json_message sample_lib sample_link sample_adapter ℕ quit_call 3 adapter_node
            ≡ replied sample_lib sample_laws sample_objects sample_link sample_adapter ℕ response 3
                (Dispatch.send_all sample_lib sample_link sample_adapter ℕ quit_run.1
                  (record adapter_node { service = quit_run.2 }))))
unfolding str_eq callback_of
adapter_answers_example =
    adapter_answers sample_lib sample_webrtc sample_laws sample_objects sample_link ℕ
      sample_listening connect_moment (codes "what") quit_call (int (pos 8)) (text (codes "quit"))
      (codes "quit") 3 adapter_node quit_handler (refl, refl, refl, refl, refl, refl) refl
