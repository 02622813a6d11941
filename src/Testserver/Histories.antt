-- ===== src/Testserver/Histories.antt =====
-- legacy_testclient/Testserver.cpp: the server over its whole life.
use ice_adapter.Base.{ℕ, ◌≡◌, refl, ℤ, pos, List, [], ◌∷◌, some}
use ice_adapter.Base.IntMap.{find}
use ice_adapter.Json.{JsonLib}
use ice_adapter.Testserver.{Testserver, new_server}
use ice_adapter.Testserver.Callbacks.{
  Callback, on_login, on_reconnect, on_host_game, on_leave_game, on_join_game, on_send_ice_msg,
  on_disconnected,
}
use ice_adapter.Testserver.Coming.{on_login-IsValid, on_reconnect-IsValid, on_disconnected-IsValid}
use ice_adapter.Testserver.Turns.{
  on_host_game-IsValid, on_leave_game-IsValid, on_join_game-IsValid, on_send_ice_msg-IsValid,
}
use ice_adapter.Testserver.Valid.{IsValid}

pub data Method : Type 0 where
  login : Method
  reconnect : Method
  host_game : Method
  leave_game : Method
  join_game : Method
  send_ice_msg : Method

module _ (J : JsonLib) where
  -- `setRpcCallback` in the constructor.
  unfoldable pub callback : Method → Callback J
  unfolding on_login on_reconnect on_host_game on_leave_game on_join_game on_send_ice_msg
  callback Method.login = on_login J
  callback reconnect = on_reconnect J
  callback host_game = on_host_game J
  callback leave_game = on_leave_game J
  callback join_game = on_join_game J
  callback send_ice_msg = on_send_ice_msg J

  -- What a client does: a request with its parameters, or the end of the connection.
  pub data Event : Type 0 where
    calls : ℕ → Method → J.Value → Event
    disconnects : ℕ → Event

  unfoldable pub step : Event → Testserver J → Testserver J
  unfolding callback on_disconnected
  step (calls socket method params) s = (callback method params socket s).1
  step (disconnects socket) s = (on_disconnected J socket s).1

  unfoldable pub run : List Event → Testserver J → Testserver J
  unfolding step
  run [] s = s
  run (e ∷ es) s = run es (step e s)

  -- No `sendIceMsg` comes from a client that is not logged in.
  abbrev pub IsKnown : Event → Testserver J → Type 0
  IsKnown (calls socket send_ice_msg params) s =
      (p : ℤ) × (find (pos socket) s.socket_players ≡ some p)
  IsKnown (calls socket login params) s = Unit {0}
  IsKnown (calls socket reconnect params) s = Unit {0}
  IsKnown (calls socket host_game params) s = Unit {0}
  IsKnown (calls socket leave_game params) s = Unit {0}
  IsKnown (calls socket join_game params) s = Unit {0}
  IsKnown (disconnects socket) s = Unit {0}

  abbrev pub IsOrderly : List Event → Testserver J → Type 0
  IsOrderly [] s = Unit {0}
  IsOrderly (e ∷ es) s = IsKnown e s × IsOrderly es (step e s)

  pub new_server-IsValid : IsValid J (new_server J)
  unfolding find
  new_server-IsValid = record {
    sockets_ordered = tt;
    players_ordered = tt;
    logins_ordered = tt;
    players_games_ordered = tt;
    games_ordered = tt;
    has_socket = λ p o e. cc;
    has_player = λ k p e. cc;
    has_login = λ p o e. cc;
    login_connected = λ p name e. cc;
    logins_differ = λ p q name e f. cc;
    next_free = λ n h. refl;
    in_one_game = λ game p players e inside. cc;
    player_connected = λ game p players e inside. cc;
    host_inside = λ game players e. cc;
    players_sorted = λ game players e. cc;
  }

  step-IsValid : (e : Event) (s : Testserver J) → IsValid J s → IsKnown e s → IsValid J (step e s)
  unfolding step
  step-IsValid (calls k login params) s valid known = on_login-IsValid J s valid k params
  step-IsValid (calls k reconnect params) s valid known = on_reconnect-IsValid J s valid k params
  step-IsValid (calls k host_game params) s valid known = on_host_game-IsValid J s valid k params
  step-IsValid (calls k leave_game params) s valid known = on_leave_game-IsValid J s valid k params
  step-IsValid (calls k join_game params) s valid known = on_join_game-IsValid J s valid k params
  step-IsValid (calls k send_ice_msg params) s valid known =
      on_send_ice_msg-IsValid J s valid k known.0 known.1 params
  step-IsValid (disconnects k) s valid known = on_disconnected-IsValid J s valid k

  pub run_from-IsValid :
      (es : List Event) (s : Testserver J) → IsValid J s → IsOrderly es s → IsValid J (run es s)
  unfolding run
  run_from-IsValid [] s valid orderly = valid
  run_from-IsValid (e ∷ es) s valid orderly =
      run_from-IsValid es (step e s) (step-IsValid e s valid orderly.0) orderly.1

  -- Whatever clients ask of a new server and whenever they disconnect, as long as `sendIceMsg` comes
  -- only from clients that are logged in: each player that is logged in has one socket, and that socket
  -- belongs to no other player; no two players have the same login; the next id is not taken; everyone
  -- in a game is logged in, is in this game only and is recorded as such; and the host is in its game.
  pub run-IsValid :
      (es : List Event) → IsOrderly es (new_server J) → IsValid J (run es (new_server J))
  run-IsValid es orderly = run_from-IsValid es (new_server J) new_server-IsValid orderly
