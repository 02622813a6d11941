-- ===== src/Testclient/Client/Tests.antt =====
-- The theorems on the test client's messages at concrete histories.
use ice_adapter.Base.{
  ℕ, ◌≡◌, refl, ℤ, ℤ_eq, pos, Bytes, Bool, true, false, List, [], ◌∷◌, ◌++◌, Option, none, some,
  codes, str_eq,
}
use ice_adapter.Base.IntMap.{find, assign}
use ice_adapter.Json.Sample.{sample_lib, sample_arrays, text, int, flag, items, no_items}
use ice_adapter.Testclient.Client.{Testclient, Boxes}
use ice_adapter.Testclient.Client.Callbacks.{send_to_ice_adapter}
use ice_adapter.Testclient.Client.Candidates.{from_string, is_omitted}
use ice_adapter.Testclient.Client.Hosting.{host_game_refused}
use ice_adapter.Testclient.Client.Lives.{Event, calls, game_message, run, connected_peer_pinged}
use ice_adapter.Testclient.Client.Keeping.{connected}
use ice_adapter.Testclient.Pingtracker.{Pingtracker, create}
use ice_adapter.Testserver.{Testserver, Sent, new_server}
use ice_adapter.Testserver.Callbacks.{refuse, on_host_game}
use ice_adapter.Testserver.Histories as Server
use ice_adapter.Testserver.Logins.{choose_login, login_exists}

abbrev average : ℕ → ℕ → ℕ → ℕ
average before now sent = before

abbrev Client : Type 0
Client = Testclient sample_lib ℕ average

abbrev all_boxes : Boxes
all_boxes = record {
  udp_host = true;
  udp_srflx = true;
  udp_relay = false;
  tcp_host = true;
  tcp_srflx = true;
  tcp_relay = true;
}

abbrev new_client : Client
new_client = record {
  player_id = pos 1;
  game_id = pos 0;
  pingtrackers = [];
  peers_ready = [];
  omitted_candidates = [];
  kept_candidates = [];
  boxes = all_boxes;
  ice_connected = true;
  game_connected = true;
  to_adapter = [];
  to_server = [];
  written = [];
}

abbrev stoi : Bytes → Option ℤ
stoi s = some (pos 6112)

-- The peer 2 is connected before the game is told of it.
abbrev evening : List (Event sample_lib ℕ average 0 stoi)
evening =
    calls connected (items (items (items no_items (int (pos 1))) (int (pos 2))) (flag true))
    ∷ (game_message (record {
      header = codes "ConnectToPeer";
      chunks = text (codes "127.0.0.1:6112") ∷ (text (codes "ab") ∷ (int (pos 2) ∷ []));
    })
        ∷ [])

abbrev tracker : Pingtracker ℕ average
tracker = record (create ℕ average 0 (pos 1) (pos 2)) { is_active = true }

connected_peer_pinged_example : tracker.is_active ≡ true
unfolding run find assign ℤ_eq str_eq
connected_peer_pinged_example =
    connected_peer_pinged sample_lib ℕ average 0 stoi evening new_client (pos 2) tracker refl refl
      refl refl

abbrev host_login : List (Server.Event sample_lib)
host_login = Server.calls 11 Server.Method.login (items no_items (text (codes "ab"))) ∷ []

abbrev one_player : Testserver sample_lib
one_player = Server.run sample_lib host_login (new_server sample_lib)

host_game_refused_example :
    let t = (on_host_game sample_lib no_items 11 one_player).1 in
    (find (pos 0) t.players_games ≡ some (pos 0))
    × ((before after : List (Sent sample_lib)) × (m : Sent sample_lib) × (t.sent
          ≡ before ++ (m ∷ after))
        × (m.socket ≡ some 11)
        × (m.method ≡ codes "sendToIceAdapter")
        × ((c : Client)
            → send_to_ice_adapter sample_lib ℕ average m.params c
              ≡ (refuse sample_lib (codes "Need 1 parameter: method (string), params (array)"), c)))
unfolding Server.run find assign ℤ_eq choose_login login_exists
host_game_refused_example =
    host_game_refused sample_lib sample_arrays ℕ average one_player no_items 11 (pos 0)
      (Server.run-IsValid sample_lib host_login (tt, tt)) refl

-- A relayed candidate is omitted where its box is not checked.
abbrev relayed : Bytes
relayed = codes "candidate:1 1 udp 9 10.0.0.1 5000 typ relay"

omitted : Option Bool
omitted = elim (from_string relayed) [ none ↦ none | some c ↦ some (is_omitted all_boxes c) ]

relayed_omitted : omitted ≡ some true
unfolding omitted from_string is_omitted str_eq
relayed_omitted = refl
