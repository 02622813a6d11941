-- ===== src/Testserver/Putting.antt =====
-- Testserver.cpp: a player is put into a game, and the invariant of the maps.
use ice_adapter.Base.{
  ℕ, ◌≡◌, refl, sym, ap, ◌∙◌, subst, ◌⊎◌, inl, inr, ℤ, ℤ_eq, ℤ_eq_sound, [], Option, none, some,
  Bool-cases,
}
use ice_adapter.Base.IntMap.{find, assign}
use ice_adapter.Base.IntMap.Keys.{find_put, find_put_self, find_put_other, find_kept}
use ice_adapter.Base.IntMap.Laws.{IsAscending, assign-IsAscending}
use ice_adapter.Json.{JsonLib}
use ice_adapter.Testserver.{Testserver, Players}
use ice_adapter.Testserver.Callbacks.{put_into, or_new}
use ice_adapter.Testserver.Valid.{IsValid}

module _ (J : JsonLib) (s : Testserver J) (valid : IsValid J s) (game id : ℤ) where
  open valid use {
    sockets_ordered, players_ordered, logins_ordered, players_games_ordered, games_ordered,
    has_socket, has_player, has_login, login_connected, logins_differ, next_free, in_one_game,
    player_connected, host_inside, players_sorted,
  }

  abbrev base : Players
  base = or_new [] (find game s.games)

  base_was :
      (q : ℤ) (r : Option Players)
      → find game s.games ≡ r
      → find q (or_new [] r) ≡ some tt
      → (players : Players) × (find game s.games ≡ some players) × (find q players ≡ some tt)
  unfolding find
  base_was q none e h = cc
  base_was q (some players) e h = (players, e, h)

  base_sorted : (r : Option Players) → find game s.games ≡ r → IsAscending (or_new [] r)
  base_sorted none e = tt
  base_sorted (some players) e = players_sorted game players e

  -- Who is in a game of the later server was in it, or is the player that is put into it.
  inside_was :
      (g q : ℤ) (later : Players)
      → find g (put_into J game id s).games ≡ some later
      → find q later ≡ some tt
      → ((game ≡ g) × (id ≡ q))
        ⊎ ((players : Players) × (find g s.games ≡ some players) × (find q players ≡ some tt))
  inside_was g q later found inside =
      elim (find_put game g (assign id tt base) later s.games found) [
        | inl (same, new) ↦
            elim (find_put id q tt tt base (subst (λ l. find q l ≡ some tt) (sym new) inside)) [
              | inl (here, u) ↦ inl (same, here)
              | inr (other, before) ↦ inr (
                  subst
                    (λ k.
                      (players : Players) × (find k s.games ≡ some players)
                      × (find q players ≡ some tt))
                    same (base_was q (find game s.games) refl before))
            ]
        | inr (other, before) ↦ inr (later, before, inside)
      ]

  put_into_one :
      (q g : ℤ)
      → (find id s.players_games ≡ none)
      → ((game ≡ g) × (id ≡ q))
        ⊎ ((players : Players) × (find g s.games ≡ some players) × (find q players ≡ some tt))
      → find q (assign id game s.players_games) ≡ some g
  put_into_one q g free (inl (same, here)) =
      subst (λ k. find k (assign id game s.players_games) ≡ some g) here
        (find_put_self id game s.players_games ∙ ap some same)
  put_into_one q g free (inr (players, was, inside)) =
      find_kept id q game g s.players_games free (in_one_game g q players was inside)

  put_into_connected :
      (q g : ℤ) (o : Option ℕ)
      → find id s.player_sockets ≡ some o
      → ((game ≡ g) × (id ≡ q))
        ⊎ ((players : Players) × (find g s.games ≡ some players) × (find q players ≡ some tt))
      → (r : Option ℕ) × (find q s.player_sockets ≡ some r)
  put_into_connected q g o e (inl (same, here)) =
      (o, subst (λ k. find k s.player_sockets ≡ some o) here e)
  put_into_connected q g o e (inr (players, was, inside)) = player_connected g q players was inside

  put_host :
      (game ≡ id) ⊎ ((players : Players) × (find game s.games ≡ some players))
      → find game (assign id tt base) ≡ some tt
  put_host (inl own) =
      subst (λ k. find k (assign id tt base) ≡ some tt) (sym own) (find_put_self id tt base)
  put_host (inr (players, was)) = elim (Bool-cases (ℤ_eq id game)) [
    | inl same ↦
        subst (λ k. find k (assign id tt base) ≡ some tt) (ℤ_eq_sound id game same)
          (find_put_self id tt base)
    | inr other ↦
        find_put_other id game tt base other
        ∙ subst (λ r. find game (or_new [] r) ≡ some tt) (sym was) (host_inside game players was)
  ]

  pub put_into-IsValid :
      (o : Option ℕ)
      → find id s.player_sockets ≡ some o
      → find id s.players_games ≡ none
      → (game ≡ id) ⊎ ((players : Players) × (find game s.games ≡ some players))
      → IsValid J (put_into J game id s)
  put_into-IsValid o connected free there = record {
    sockets_ordered = sockets_ordered;
    players_ordered = players_ordered;
    logins_ordered = logins_ordered;
    players_games_ordered = assign-IsAscending id game s.players_games players_games_ordered;
    games_ordered = assign-IsAscending game (assign id tt base) s.games games_ordered;
    has_socket = has_socket;
    has_player = has_player;
    has_login = has_login;
    login_connected = login_connected;
    logins_differ = logins_differ;
    next_free = next_free;
    in_one_game =
        λ g q later found inside. put_into_one q g free (inside_was g q later found inside);
    player_connected = λ g q later found inside.
        put_into_connected q g o connected (inside_was g q later found inside);
    host_inside = λ g later found. elim (find_put game g (assign id tt base) later s.games found) [
      | inl (same, new) ↦
          subst (λ l. find g l ≡ some tt) new
            (subst (λ k. find k (assign id tt base) ≡ some tt) same (put_host there))
      | inr (other, before) ↦ host_inside g later before
    ];
    players_sorted = λ g later found.
        elim (find_put game g (assign id tt base) later s.games found) [
          | inl (same, new) ↦
              subst IsAscending new
                (assign-IsAscending id tt base (base_sorted (find game s.games) refl))
          | inr (other, before) ↦ players_sorted g later before
        ];
  }
