-- ===== src/Testserver/Valid.antt =====
-- Testserver.cpp: the invariant of the server's maps.
use ice_adapter.Base.{ℕ, ◌≤◌, ◌≡◌, ℤ, pos, Bytes, Option, none, some}
use ice_adapter.Base.IntMap.{find}
use ice_adapter.Base.IntMap.Laws.{IsAscending}
use ice_adapter.Json.{JsonLib}
use ice_adapter.Testserver.{Testserver, Players}

module _ (J : JsonLib) where
  -- Players and sockets belong together one to one, each player has a login of its own, the next id
  -- is free, and who stands in a game is connected and in this game only. A host stands in its game.
  pub record IsValid (s : Testserver J) : Type 0 where
    pub sockets_ordered : IsAscending s.player_sockets
    pub players_ordered : IsAscending s.socket_players
    pub logins_ordered : IsAscending s.players_logins
    pub players_games_ordered : IsAscending s.players_games
    pub games_ordered : IsAscending s.games
    pub has_socket :
        (p : ℤ) (o : Option ℕ)
        → find p s.player_sockets ≡ some o
        → (k : ℕ) × (o ≡ some k) × (find (pos k) s.socket_players ≡ some p)
    pub has_player :
        (k : ℕ) (p : ℤ)
        → find (pos k) s.socket_players ≡ some p
        → find p s.player_sockets ≡ some (some k)
    pub has_login :
        (p : ℤ) (o : Option ℕ)
        → find p s.player_sockets ≡ some o
        → (login : Bytes) × (find p s.players_logins ≡ some login)
    pub login_connected :
        (p : ℤ) (login : Bytes)
        → find p s.players_logins ≡ some login
        → (o : Option ℕ) × (find p s.player_sockets ≡ some o)
    pub logins_differ :
        (p q : ℤ) (login : Bytes)
        → find p s.players_logins ≡ some login
        → find q s.players_logins ≡ some login
        → p ≡ q
    pub next_free : (n : ℕ) → s.current_player_id ≤ n → find (pos n) s.player_sockets ≡ none
    pub in_one_game :
        (game p : ℤ) (players : Players)
        → find game s.games ≡ some players
        → find p players ≡ some tt
        → find p s.players_games ≡ some game
    pub player_connected :
        (game p : ℤ) (players : Players)
        → find game s.games ≡ some players
        → find p players ≡ some tt
        → (o : Option ℕ) × (find p s.player_sockets ≡ some o)
    pub host_inside :
        (game : ℤ) (players : Players)
        → find game s.games ≡ some players
        → find game players ≡ some tt
    pub players_sorted :
        (game : ℤ) (players : Players) → find game s.games ≡ some players → IsAscending players
