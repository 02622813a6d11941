-- ===== src/Testserver/Games.antt =====
-- Testserver.cpp `disconnectPlayerFromGame`.
use ice_adapter.Base.{ℤ, ℤ_eq, Bool, true, false, [], ◌∷◌, Option, none, some, codes}
use ice_adapter.Base.IntMap.{find, assign, erase}
use ice_adapter.Json.{JsonLib}
use ice_adapter.Testserver.{
  Testserver, Players, Exec, ◌>>=◌, done, modify, send_request, socket_of, to_ice_adapter, for_each,
  send_gamelist,
}

module _ (J : JsonLib) where
  open J use {Value, of_int}

  abbrev pub host_left : ℤ → ℤ → Exec (Testserver J) (Unit {0})
  host_left leaving fellow = socket_of J fellow >>= λ socket.
      send_request J socket (codes "onHostLeft") (of_int leaving ∷ [])

  -- The game that the player hosts, if any.
  abbrev pub close_hosted : ℤ → Option Players → Exec (Testserver J) (Unit {0})
  close_hosted leaving none = done
  close_hosted leaving (some players) = for_each J players (host_left leaving) >>= λ _.
      modify (λ s. record s { games = erase leaving s.games }) >>= λ _. send_gamelist J

  abbrev pub disconnect_pair : ℤ → ℤ → Exec (Testserver J) (Unit {0})
  disconnect_pair leaving fellow = socket_of J fellow >>= λ socket.
      to_ice_adapter J socket (codes "disconnectFromPeer") (of_int leaving ∷ []) >>= λ _.
      socket_of J leaving >>= λ socket.
      to_ice_adapter J socket (codes "disconnectFromPeer") (of_int fellow ∷ [])

  abbrev pub unless_same : Bool → Exec (Testserver J) (Unit {0}) → Exec (Testserver J) (Unit {0})
  unless_same true m = done
  unless_same false m = m

  -- The game that the player has joined, if it is still there.
  abbrev pub leave_found : ℤ → ℤ → Option Players → Exec (Testserver J) (Unit {0})
  leave_found leaving game none = done
  leave_found leaving game (some players) =
      for_each J players
        (λ fellow. unless_same (ℤ_eq fellow leaving) (disconnect_pair leaving fellow))
      >>= λ _. modify (λ s. record s { games = assign game (erase leaving players) s.games })

  abbrev pub leave_joined : ℤ → Option ℤ → Exec (Testserver J) (Unit {0})
  leave_joined leaving none = done
  leave_joined leaving (some game) = (λ s. leave_found leaving game (find game s.games) s) >>= λ _.
      modify (λ s. record s { players_games = erase leaving s.players_games })

  unfoldable pub disconnect_player_from_game : ℤ → Exec (Testserver J) (Unit {0})
  unfolding for_each send_gamelist
  disconnect_player_from_game leaving =
      (λ s. close_hosted leaving (find leaving s.games) s) >>= λ _ s.
      leave_joined leaving (find leaving s.players_games) s
