-- ===== src/Testserver/Left.antt =====
-- Testserver.cpp `disconnectPlayerFromGame`: the invariant of the maps.
use ice_adapter.Base.{
  ◌≡◌, ◌≢◌, refl, sym, ◌∙◌, subst, inl, inr, ℤ, ℤ_eq, ℤ_eq_refl, ℤ_eq_sound, true, false, List,
  Option, none, some, Bool-cases, Option-cases, arith,
}
use ice_adapter.Base.IntMap.{find, erase}
use ice_adapter.Base.IntMap.Keys.{erase_sub}
use ice_adapter.Base.IntMap.Laws.{
  IsAscending, find-erase_other, find-assign, erase_absent, erase-IsAscending, assign-IsAscending,
}
use ice_adapter.Json.{JsonLib}
use ice_adapter.Testserver.{Testserver, Players, Sent, log}
use ice_adapter.Testserver.Leaving.{left, left_games, without}
use ice_adapter.Testserver.Valid.{IsValid}

module _ (J : JsonLib) (s : Testserver J) (valid : IsValid J s) where
  open valid use {
    sockets_ordered, players_ordered, logins_ordered, players_games_ordered, games_ordered,
    has_socket, has_player, has_login, login_connected, logins_differ, next_free, in_one_game,
    player_connected, host_inside, players_sorted,
  }

  pub log-IsValid : (ms : List (Sent J)) → IsValid J (log J ms s)
  log-IsValid ms = record {
    sockets_ordered = sockets_ordered;
    players_ordered = players_ordered;
    logins_ordered = logins_ordered;
    players_games_ordered = players_games_ordered;
    games_ordered = games_ordered;
    has_socket = has_socket;
    has_player = has_player;
    has_login = has_login;
    login_connected = login_connected;
    logins_differ = logins_differ;
    next_free = next_free;
    in_one_game = in_one_game;
    player_connected = player_connected;
    host_inside = host_inside;
    players_sorted = players_sorted;
  }

  module _ (p : ℤ) where
    -- A game that the player is not in stays as it is without the player.
    outside :
        (game : ℤ) (players : Players)
        → find game s.games ≡ some players
        → find p s.players_games ≢ some game
        → players ≡ erase p players
    outside game players e out = elim (Option-cases (find p players)) [
      | inl absent ↦ sym (erase_absent p players absent)
      | inr (u, inside) ↦ absurd (out (in_one_game game p players e inside))
    ]

    -- The game was there, another player hosts it, and only the player is taken out.
    unfoldable pub WasGame : ℤ → Players → Type 0
    WasGame game later =
        (players : Players) × (find game s.games ≡ some players)
        × (ℤ_eq p game ≡ false)
        × (later ≡ erase p players)

    kept :
        (game : ℤ) (later : Players)
        → find p s.players_games ≢ some game
        → find game (erase p s.games) ≡ some later
        → WasGame game later
    unfolding WasGame
    kept game later out e =
        let (other, was) = erase_sub p game later s.games games_ordered e in
        (later, was, other, outside game later was out)

    without_was :
        (g game : ℤ) (later : Players) (r : Option Players)
        → find p s.players_games ≡ some g
        → find g (erase p s.games) ≡ r
        → find game (without p g r (erase p s.games)) ≡ some later
        → WasGame game later
    unfolding WasGame
    without_was g game later none at e found =
        kept game later (λ out. let same : g ≡ game = ground (arith, at, out) in cc) found
    without_was g game later (some players) at e found = elim (Bool-cases (ℤ_eq g game)) [
      | inl same ↦
          let (other, was) = erase_sub p g players s.games games_ordered e in
          let key = ℤ_eq_sound g game same in
          (
            players,
            subst (λ k. find k s.games ≡ some players) key was,
            subst (λ k. ℤ_eq p k ≡ false) key other,
            let f = find-assign g game (erase p players) (erase p s.games) in
                ground (arith, f, found, same),
          )
      | inr other ↦
          kept game later
            (λ out.
              let same : g ≡ game = ground (arith, at, out) in
              absurd (let f = ℤ_eq_refl g in let f' = subst (λ k. ℤ_eq g k ≡ true) same f in cc))
            (let f = find-assign g game (erase p players) (erase p s.games) in
              ground (arith, f, found, other))
    ]

    was :
        (game : ℤ) (later : Players) (r : Option ℤ)
        → find p s.players_games ≡ r
        → find game (left_games p r (erase p s.games)) ≡ some later
        → WasGame game later
    was game later none e found = kept game later (λ out. cc) found
    was game later (some g) e found =
        without_was g game later (find g (erase p s.games)) e refl found

    pub was_game :
        (game : ℤ) (later : Players)
        → find game (left J p s).games ≡ some later
        → WasGame game later
    was_game game later found = was game later (find p s.players_games) refl found

    without_ordered : (g : ℤ) (r : Option Players) → IsAscending (without p g r (erase p s.games))
    without_ordered g none = erase-IsAscending p s.games games_ordered
    without_ordered g (some players) =
        assign-IsAscending g (erase p players) _ (erase-IsAscending p s.games games_ordered)

    left_ordered : (r : Option ℤ) → IsAscending (left_games p r (erase p s.games))
    left_ordered none = erase-IsAscending p s.games games_ordered
    left_ordered (some g) = without_ordered g (find g (erase p s.games))

    still_inside :
        (q : ℤ) (later players : Players)
        → later ≡ erase p players
        → ℤ_eq p q ≡ false
        → find q players ≡ some tt
        → find q later ≡ some tt
    still_inside q later players e other inside = rw e (find-erase_other p q players other ∙ inside)

    pub left-IsValid : IsValid J (left J p s)
    unfolding WasGame
    left-IsValid = record {
      sockets_ordered = sockets_ordered;
      players_ordered = players_ordered;
      logins_ordered = logins_ordered;
      players_games_ordered = erase-IsAscending p s.players_games players_games_ordered;
      games_ordered = left_ordered (find p s.players_games);
      has_socket = has_socket;
      has_player = has_player;
      has_login = has_login;
      login_connected = login_connected;
      logins_differ = logins_differ;
      next_free = next_free;
      in_one_game = λ game q later found inside.
          let (players, was, other, e) = was_game game later found in
          let (differs, inside') =
            erase_sub p q tt players (players_sorted game players was)
              (subst (λ l. find q l ≡ some tt) e inside) in
          find-erase_other p q s.players_games differs ∙ in_one_game game q players was inside';
      player_connected = λ game q later found inside.
          let (players, was, other, e) = was_game game later found in
          let (differs, inside') =
            erase_sub p q tt players (players_sorted game players was)
              (subst (λ l. find q l ≡ some tt) e inside) in
          player_connected game q players was inside';
      host_inside = λ game later found.
          let (players, was, other, e) = was_game game later found in
          still_inside game later players e other (host_inside game players was);
      players_sorted = λ game later found.
          let (players, was, other, e) = was_game game later found in
          subst IsAscending (sym e) (erase-IsAscending p players (players_sorted game players was));
    }
