-- ===== src/Testserver/Leaving.antt =====
-- Testserver.cpp `disconnectPlayerFromGame`: what it leaves of the games.
use ice_adapter.Base.{
  ℕ, ◌≡◌, refl, sym, ap, ℤ, ℤ_eq, Bool, true, false, List, [], ◌∷◌, Option, none, some, codes,
}
use ice_adapter.Base.IntMap.{find, erase, assign}
use ice_adapter.Base.IntMap.Keys.{erase_sub}
use ice_adapter.Base.IntMap.Laws.{erase_absent}
use ice_adapter.Json.{JsonLib}
use ice_adapter.Testserver.{
  Testserver, Players, Sent, Exec, ◌>>=◌, done, log, socket_of, to_ice_adapter, for_each, modify,
  send_gamelist,
}
use ice_adapter.Testserver.Games.{
  host_left, close_hosted, disconnect_pair, unless_same, leave_found, leave_joined,
  disconnect_player_from_game,
}
use ice_adapter.Testserver.Quiet.{
  All-members, Returns, IsQuiet, IsNamed, pure-Returns, bind-Returns, done-IsQuiet, adapter-IsQuiet,
  read-Returns, send-IsQuiet, socket-IsQuiet, for_each-IsQuiet, send_gamelist-IsQuiet,
}
use ice_adapter.Testserver.Valid.{IsValid}

-- A game without the player.
abbrev pub without : ℤ → ℤ → Option Players → List (ℤ × Players) → List (ℤ × Players)
without p game none m = m
without p game (some players) m = assign game (erase p players) m

abbrev pub left_games : ℤ → Option ℤ → List (ℤ × Players) → List (ℤ × Players)
left_games p none m = m
left_games p (some game) m = without p game (find game m) m

module _ (J : JsonLib) where
  -- What is left when a player has left its game: the one that it hosted is closed.
  abbrev pub left : ℤ → Testserver J → Testserver J
  left p s = record s {
    games = left_games p (find p s.players_games) (erase p s.games);
    players_games = erase p s.players_games;
  }

  abbrev closed : ℤ → Testserver J → Testserver J
  closed p s = record s { games = erase p s.games }

  pub unless-IsQuiet :
      (b : Bool) (m : Exec (Testserver J) (Unit {0})) (t : Testserver J)
      → IsQuiet J m t
      → IsQuiet J (unless_same J b m) t
  unless-IsQuiet true m t h = done-IsQuiet J t
  unless-IsQuiet false m t h = h

  pair-IsQuiet :
      (p fellow : ℤ) (o q : Option ℕ) (t : Testserver J)
      → find fellow t.player_sockets ≡ some o
      → find p t.player_sockets ≡ some q
      → IsQuiet J (unless_same J (ℤ_eq fellow p) (disconnect_pair J p fellow)) t
  pair-IsQuiet p fellow o q t e connected =
      let tell = λ (k : ℤ) (socket : Option ℕ).
        to_ice_adapter J socket (codes "disconnectFromPeer") (J.of_int k ∷ []) in
      unless-IsQuiet (ℤ_eq fellow p) (disconnect_pair J p fellow) t (
        socket-IsQuiet J fellow o (λ socket. tell p socket >>= λ _. socket_of J p >>= tell fellow) t
          e
          (bind-Returns J (tell p o) (λ _. socket_of J p >>= tell fellow) t t t
            (adapter-IsQuiet J o (codes "disconnectFromPeer") (J.of_int p ∷ []) t)
            (λ ns. socket-IsQuiet J p q (tell fellow) (log J ns t) connected (
              adapter-IsQuiet J q (codes "disconnectFromPeer") (J.of_int fellow ∷ [])
                (log J ns t)))))

  module _ (s : Testserver J) (valid : IsValid J s) where
    open valid use {
      games_ordered, players_games_ordered, players_sorted, has_login, player_connected,
      host_inside, in_one_game,
    }

    pub host-IsNamed : IsNamed J s.games s.players_logins
    host-IsNamed game players e =
        let (o, e') = player_connected game game players e (host_inside game players e) in
        has_login game o e'

    closed-IsNamed : (p : ℤ) → IsNamed J (erase p s.games) s.players_logins
    closed-IsNamed p game players e =
        host-IsNamed game players (erase_sub p game players s.games games_ordered e).1

    host_left-IsQuiet :
        (p fellow game : ℤ) (players : Players)
        → find game s.games ≡ some players
        → find fellow players ≡ some tt
        → (ms : List (Sent J)) → IsQuiet J (host_left J p fellow) (log J ms s)
    host_left-IsQuiet p fellow game players e inside ms =
        let (o, e') = player_connected game fellow players e inside in
        socket-IsQuiet J fellow o _ (log J ms s) e' (send-IsQuiet J o _ _ (log J ms s))

    close_found :
        (p : ℤ) (r : Option Players)
        → find p s.games ≡ r
        → Returns J (close_hosted J p r) s (closed p s)
    close_found p none e =
        pure-Returns J done s (closed p s)
          (ap (λ m. (some tt, record s { games = m })) (sym (erase_absent p s.games e)))
    close_found p (some players) e =
        bind-Returns J (for_each J players (host_left J p)) _ s s (closed p s)
          (for_each-IsQuiet J players (host_left J p) s (
            All-members (λ k. (ms : List (Sent J)) → IsQuiet J (host_left J p k) (log J ms s))
              players (λ k v inside. host_left-IsQuiet p k p players e inside)))
          (λ ms.
            bind-Returns J (modify (closed p)) (λ _. send_gamelist J) (log J ms s)
              (log J ms (closed p s)) (log J ms (closed p s))
              (pure-Returns J (modify (closed p)) (log J ms s) (log J ms (closed p s)) refl)
              (λ ns. send_gamelist-IsQuiet J (log J ns (log J ms (closed p s))) (closed-IsNamed p)))

    -- The game that the player has joined, when its own one is closed.
    abbrev without_p : ℤ → ℤ → Option Players → Testserver J → Testserver J
    without_p p game r t = record t { games = without p game r t.games }

    leave_game :
        (p game : ℤ) (q : Option ℕ) (r : Option Players) (ms : List (Sent J))
        → find p s.player_sockets ≡ some q
        → find game (erase p s.games) ≡ r
        → Returns J
            (leave_found J p game r)
            (log J ms (closed p s))
            (log J ms (without_p p game r (closed p s)))
    leave_game p game q none ms connected e = done-IsQuiet J (log J ms (closed p s))
    leave_game p game q (some players) ms connected e =
        let t = log J ms (closed p s) in
        bind-Returns J
          (for_each J players
            (λ fellow. unless_same J (ℤ_eq fellow p) (disconnect_pair J p fellow)))
          _ t t (log J ms (without_p p game (some players) (closed p s)))
          (for_each-IsQuiet J players
            (λ fellow. unless_same J (ℤ_eq fellow p) (disconnect_pair J p fellow)) t
            (All-members
              (λ k.
                (ns : List (Sent J))
                → IsQuiet J (unless_same J (ℤ_eq k p) (disconnect_pair J p k)) (log J ns t))
              players
              (λ k v inside ns.
                let (o, e') =
                  player_connected game k players
                    (erase_sub p game players s.games games_ordered e).1 inside in
                pair-IsQuiet p k o q (log J ns t) e' connected)))
          (λ ns. pure-Returns J _ _ _ refl)

    leave_was :
        (p : ℤ) (q : Option ℕ) (r : Option ℤ) (ms : List (Sent J))
        → find p s.player_sockets ≡ some q
        → find p s.players_games ≡ r
        → Returns J (leave_joined J p r) (log J ms (closed p s)) (
            log J ms (record s {
              games = left_games p r (erase p s.games);
              players_games = erase p s.players_games;
            }))
    leave_was p q none ms connected e = pure-Returns J done _ _ (
        ap (λ m. (some tt, log J ms (record s { games = erase p s.games; players_games = m })))
          (sym (erase_absent p s.players_games e)))
    leave_was p q (some game) ms connected e =
        bind-Returns J (λ t. leave_found J p game (find game t.games) t) _ (log J ms (closed p s))
          (log J ms (without_p p game (find game (erase p s.games)) (closed p s))) _
          (read-Returns J (λ t. leave_found J p game (find game t.games)) (log J ms (closed p s)) _
            (leave_game p game q (find game (erase p s.games)) ms connected refl))
          (λ ns.
            pure-Returns J (modify (λ t. record t { players_games = erase p t.players_games })) _ _
              refl)

    -- A player that is connected leaves its game.
    pub disconnect-Returns :
        (p : ℤ) (q : Option ℕ)
        → find p s.player_sockets ≡ some q
        → Returns J (disconnect_player_from_game J p) s (left p s)
    unfolding disconnect_player_from_game
    disconnect-Returns p q connected =
        bind-Returns J (λ t. close_hosted J p (find p t.games) t)
          (λ _ t. leave_joined J p (find p t.players_games) t) s (closed p s) (left p s)
          (read-Returns J (λ t. close_hosted J p (find p t.games)) s (closed p s)
            (close_found p (find p s.games) refl))
          (λ ms.
            read-Returns J (λ t. leave_joined J p (find p t.players_games)) (log J ms (closed p s))
              (log J ms (left p s)) (leave_was p q (find p s.players_games) ms connected refl))
