-- ===== src/Testserver/Tests.antt =====
-- The theorems on the test server at concrete histories.
use ice_adapter.Base.{
  ℕ, ◌≡◌, refl, pos, ℤ_eq, Bytes, true, false, List, [], ◌∷◌, ◌++◌, some, codes, str_eq, to_string,
  ◌≤◌, ◌⊎◌, take, drop,
}
use ice_adapter.Base.IntMap.{find, assign, erase}
use ice_adapter.Json.{JsonLib, JsonLaws}
use ice_adapter.Json.Sample.{
  Sample, sample_lib, sample_laws, text, int, items, no_items, nothing, entry,
}
use ice_adapter.Protocol.{Endpoint}
use ice_adapter.Protocol.Reading.{on_ready_read, stop}
use ice_adapter.Rpc.Framing.{scan, see, is_null}
use ice_adapter.Rpc.Stream.{stream}
use ice_adapter.Rpc.Tests.{first_text, second_text}
use ice_adapter.Testserver.{
  Testserver, Sent, log, new_server, for_each, send_gamelist, gamelist_json, add_games,
}
use ice_adapter.Testserver.Callbacks.{refuse, on_login, on_join_game, on_send_ice_msg}
use ice_adapter.Testserver.Histories.{
  Method, login, host_game, join_game, send_ice_msg, Event, calls, disconnects, run_from-IsValid,
  new_server-IsValid, step, run, run-IsValid,
}
use ice_adapter.Testserver.Inviting.{invitations}
use ice_adapter.Testserver.Joining.{joined, join_connects_all}
use ice_adapter.Testserver.Logins.{choose_login, login_exists, login_found}
use ice_adapter.Testserver.Strangers.{stranger_is_player_zero}
use ice_adapter.Testserver.Valid.{IsValid}
use ice_adapter.Testserver.Wire.{
  socket_callbacks, messages_of, Requests, IsCall, IsReady, requests_run,
}

abbrev name : Bytes
name = codes "ab"

login_found_example :
    (free : Bytes) × (choose_login name ((pos 0, name) ∷ []) ≡ some free)
    × (login_exists free ((pos 0, name) ∷ []) ≡ false)
    × ((free ≡ name) ⊎ ((j : ℕ) × (1 ≤ j) × (free ≡ name ++ to_string j)))
login_found_example = login_found name ((pos 0, name) ∷ [])

abbrev one : Sample → Sample
one v = items no_items v

abbrev ice_params : Sample
ice_params = items (items (one (int (pos 1))) (int (pos 0))) (text name)

-- Two clients with one name; the first one hosts, the second one joins and sends; the first one goes.
abbrev evening : List (Event sample_lib)
evening =
    calls 11 login (one (text name))
    ∷ (calls 12 login (one (text name))
        ∷ (calls 11 host_game no_items
            ∷ (calls 12 join_game (one (int (pos 0)))
                ∷ (calls 12 send_ice_msg ice_params ∷ (disconnects 11 ∷ [])))))

run-IsValid_example : IsValid sample_lib (run sample_lib evening (new_server sample_lib))
unfolding step find assign erase ℤ_eq str_eq choose_login login_exists for_each send_gamelist
    gamelist_json add_games to_string
run-IsValid_example =
    run-IsValid sample_lib evening (tt, (tt, (tt, (tt, ((pos 1, refl), (tt, tt))))))

-- A player in a game; the socket 13 is not logged in.
abbrev lobby : Testserver sample_lib
lobby = record {
  current_player_id = 1;
  player_sockets = (pos 0, some 11) ∷ [];
  socket_players = (pos 11, pos 0) ∷ [];
  players_logins = (pos 0, name) ∷ [];
  players_games = [];
  games = [];
  sent = [];
}

stranger_is_player_zero_example :
    let t = (on_send_ice_msg sample_lib ice_params 13 lobby).1 in
    (find (pos 13) t.socket_players ≡ some (pos 0))
    × (t.player_sockets ≡ lobby.player_sockets)
    × (t.players_logins ≡ lobby.players_logins)
    × ((wanted : Sample)
        → on_login sample_lib wanted 13 t ≡ (refuse sample_lib (codes "Already logged in"), t))
unfolding find ℤ_eq
stranger_is_player_zero_example =
    stranger_is_player_zero sample_lib ice_params 13 lobby (pos 0) (some 11) refl refl refl refl

-- A library whose reader finds a request in every text.
abbrev login_request : Sample
login_request =
    entry (entry nothing (codes "method") (text (codes "login"))) (codes "params") (one (text name))

abbrev calling_lib : JsonLib
calling_lib = record sample_lib { read = λ s. (true, login_request) }

abbrev calling_laws : JsonLaws calling_lib
calling_laws = record {
  type-null = refl;
  type-of_int = λ z. refl;
  type-of_uint = λ n. refl;
  type-of_string = λ s. refl;
  as_int-of_int = sample_laws.as_int-of_int;
  as_int-of_uint = sample_laws.as_int-of_uint;
  as_string-of_string = λ s. refl;
}

abbrev new_client : Endpoint calling_lib (Testserver calling_lib) ℕ
new_client = record {
  callbacks = socket_callbacks calling_lib ℕ;
  service = new_server calling_lib;
  current_requests = [];
  current_id = 0;
  answered = [];
  sent = [];
  has_ended = false;
}

abbrev two_logins : Requests calling_lib calling_laws ℕ 11
two_logins =
    (Method.login, one (text name), first_text, login_request)
    ∷ ((Method.login, one (text name), second_text, login_request) ∷ [])

-- Two bytes have come before the others.
abbrev late_bytes : Bytes
late_bytes =
    drop 2 (stream calling_lib calling_laws (messages_of calling_lib calling_laws ℕ 11 two_logins))

login_request-IsCall :
    IsCall calling_lib calling_laws ℕ 11 login_request Method.login (one (text name))
unfolding str_eq
login_request-IsCall = (refl, refl, refl, refl, text (codes "login"), refl, refl, refl)

requests_run_example :
    let r =
      on_ready_read calling_lib
        (Testserver calling_lib)
        ℕ
        11
        late_bytes
        (stop calling_lib (Testserver calling_lib) ℕ (take 2 (123 ∷ first_text)) new_client) in
    (r.endpoint.service
      ≡ run calling_lib
          (calls 11 login (one (text name)) ∷ (calls 11 login (one (text name)) ∷ []))
          (new_server calling_lib))
    × (r.buffer ≡ [])
    × (r.finished ≡ true)
    × IsReady calling_lib calling_laws ℕ 11 r.endpoint
unfolding scan see is_null str_eq
requests_run_example =
    requests_run calling_lib calling_laws ℕ 11 two_logins late_bytes
      (stop calling_lib (Testserver calling_lib) ℕ (take 2 (123 ∷ first_text)) new_client)
      (((refl, refl), refl), (((refl, refl), refl), tt))
      (login_request-IsCall, (login_request-IsCall, tt)) (refl, refl) refl

-- The first of two players hosts, and the second one joins.
abbrev hosting_events : List (Event sample_lib)
hosting_events =
    calls 11 login (one (text name))
    ∷ (calls 12 login (one (text (codes "cd"))) ∷ (calls 11 host_game no_items ∷ []))

abbrev hosted_server : Testserver sample_lib
hosted_server = run sample_lib hosting_events (new_server sample_lib)

hosted_server-IsValid : IsValid sample_lib hosted_server
hosted_server-IsValid =
    run_from-IsValid sample_lib hosting_events (new_server sample_lib)
      (new_server-IsValid sample_lib) (tt, (tt, (tt, tt)))

join_connects_all_example :
    (farewells : List (Sent sample_lib)) × (on_join_game sample_lib
        (one (int (pos 0)))
        12
        hosted_server
      ≡ (
        (nothing, nothing),
        log sample_lib
            (invitations sample_lib 12
              (pos 1)
              (pos 0)
              (joined sample_lib (pos 1) (pos 0) hosted_server farewells)
              (assign (pos 1) tt ((pos 0, tt) ∷ [])))
            (joined sample_lib (pos 1) (pos 0) hosted_server farewells),
      ))
unfolding step find assign erase ℤ_eq str_eq choose_login login_exists for_each send_gamelist
    gamelist_json add_games to_string run
join_connects_all_example =
    join_connects_all sample_lib hosted_server hosted_server-IsValid (one (int (pos 0))) 12 (pos 1)
      (pos 0) ((pos 0, tt) ∷ []) refl refl refl refl
