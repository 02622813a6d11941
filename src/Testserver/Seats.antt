-- ===== src/Testserver/Seats.antt =====
-- Testserver.cpp: players that log in, come back and log out, and the invariant of the maps.
use ice_adapter.Base.{
  ℕ, suc, ◌≤◌, ◌≡◌, sym, ap, ◌∙◌, subst, inl, inr, ℤ, pos, ℤ_eq, Bytes, false, Option, none, some,
  Option-cases, arith,
}
use ice_adapter.Base.IntMap.{find, assign}
use ice_adapter.Base.IntMap.Keys.{find_put, find_put_self, find_put_other, find_kept}
use ice_adapter.Base.IntMap.Laws.{assign-IsAscending}
use ice_adapter.Json.{JsonLib}
use ice_adapter.Testserver.{Testserver}
use ice_adapter.Testserver.Logins.{login_exists, login_exists_found}
use ice_adapter.Testserver.Valid.{IsValid}

pub pos-injective : (m n : ℕ) → pos m ≡ pos n → m ≡ n
pos-injective m n e = cc

module _ (J : JsonLib) (s : Testserver J) (valid : IsValid J s) (k : ℕ) where
  open valid use {
    sockets_ordered, players_ordered, logins_ordered, players_games_ordered, games_ordered,
    has_socket, has_player, has_login, login_connected, logins_differ, next_free, in_one_game,
    player_connected, host_inside, players_sorted,
  }

  abbrev id : ℤ
  id = pos s.current_player_id

  -- A player that has logged in.
  abbrev pub seated : Bytes → Testserver J
  seated name = record s {
    current_player_id = suc s.current_player_id;
    player_sockets = assign id (some k) s.player_sockets;
    socket_players = assign (pos k) id s.socket_players;
    players_logins = assign id name s.players_logins;
  }

  free_id : find id s.player_sockets ≡ none
  free_id = next_free s.current_player_id (omega arith)

  pub free_login : find id s.players_logins ≡ none
  free_login = elim (Option-cases (find id s.players_logins)) [
    | inl e ↦ e
    | inr (name, e) ↦ absurd (let (o, f) = login_connected id name e in let g = free_id in cc)
  ]

  module _ (name : Bytes) (stranger : find (pos k) s.socket_players ≡ none)
      (fresh : login_exists name s.players_logins ≡ false) where
    seat_socket :
        (p : ℤ) (o : Option ℕ)
        → find p (seated name).player_sockets ≡ some o
        → (j : ℕ) × (o ≡ some j) × (find (pos j) (seated name).socket_players ≡ some p)
    seat_socket p o e = elim (find_put id p (some k) o s.player_sockets e) [
      | inl (same, new) ↦ (k, sym new, find_put_self (pos k) id s.socket_players ∙ ap some same)
      | inr (other, before) ↦
          let (j, is, back) = has_socket p o before in
          (j, is, find_kept (pos k) (pos j) id p s.socket_players stranger back)
    ]

    seat_player :
        (j : ℕ) (p : ℤ)
        → find (pos j) (seated name).socket_players ≡ some p
        → find p (seated name).player_sockets ≡ some (some j)
    seat_player j p e = elim (find_put (pos k) (pos j) id p s.socket_players e) [
      | inl (same, new) ↦
          subst (λ q. find q (seated name).player_sockets ≡ some (some j)) new
            (find_put_self id (some k) s.player_sockets
              ∙ ap some (ap some (pos-injective k j same)))
      | inr (other, before) ↦
          find_kept id p (some k) (some j) s.player_sockets free_id (has_player j p before)
    ]

    seat_login :
        (p : ℤ) (o : Option ℕ)
        → find p (seated name).player_sockets ≡ some o
        → (login : Bytes) × (find p (seated name).players_logins ≡ some login)
    seat_login p o e = elim (find_put id p (some k) o s.player_sockets e) [
      | inl (same, new) ↦ (
        name,
        subst (λ q. find q (seated name).players_logins ≡ some name) same
            (find_put_self id name s.players_logins),
      )
      | inr (other, before) ↦
          let (login, f) = has_login p o before in
          (login, find_kept id p name login s.players_logins free_login f)
    ]

    seat_connected :
        (p : ℤ) (login : Bytes)
        → find p (seated name).players_logins ≡ some login
        → (o : Option ℕ) × (find p (seated name).player_sockets ≡ some o)
    seat_connected p login e = elim (find_put id p name login s.players_logins e) [
      | inl (same, new) ↦ (
        some k,
        subst (λ q. find q (seated name).player_sockets ≡ some (some k)) same
            (find_put_self id (some k) s.player_sockets),
      )
      | inr (other, before) ↦
          let (o, f) = login_connected p login before in
          (o, find_kept id p (some k) o s.player_sockets free_id f)
    ]

    unseen : (q : ℤ) (login : Bytes) → name ≡ login → find q s.players_logins ≡ some login → ⊥
    unseen q login new e = let f = login_exists_found login q s.players_logins e in cc

    seat_differ :
        (p q : ℤ) (login : Bytes)
        → find p (seated name).players_logins ≡ some login
        → find q (seated name).players_logins ≡ some login
        → p ≡ q
    seat_differ p q login e f = elim (find_put id p name login s.players_logins e) [
      | inl (same, new) ↦ elim (find_put id q name login s.players_logins f) [
        | inl (same', new') ↦ sym same ∙ same'
        | inr (other, before) ↦ absurd (unseen q login new before)
      ]
      | inr (other, before) ↦ elim (find_put id q name login s.players_logins f) [
        | inl (same, new) ↦ absurd (unseen p login new before)
        | inr (other', before') ↦ logins_differ p q login before before'
      ]
    ]

    seat_free :
        (n : ℕ) → suc s.current_player_id ≤ n → find (pos n) (seated name).player_sockets ≡ none
    unfolding ℤ_eq
    seat_free n h =
        find_put_other id (pos n) (some k) s.player_sockets (ground (arith, h))
        ∙ next_free n (omega (arith, h))

    pub seated-IsValid : IsValid J (seated name)
    seated-IsValid = record {
      sockets_ordered = assign-IsAscending id (some k) s.player_sockets sockets_ordered;
      players_ordered = assign-IsAscending (pos k) id s.socket_players players_ordered;
      logins_ordered = assign-IsAscending id name s.players_logins logins_ordered;
      players_games_ordered = players_games_ordered;
      games_ordered = games_ordered;
      has_socket = seat_socket;
      has_player = seat_player;
      has_login = seat_login;
      login_connected = seat_connected;
      logins_differ = seat_differ;
      next_free = seat_free;
      in_one_game = in_one_game;
      player_connected = λ game p players e inside.
          let (o, f) = player_connected game p players e inside in
          (o, find_kept id p (some k) o s.player_sockets free_id f);
      host_inside = host_inside;
      players_sorted = players_sorted;
    }
