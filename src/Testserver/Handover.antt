-- ===== src/Testserver/Handover.antt =====
-- Testserver.cpp: players that come back or log out, and the invariant of the maps.
use ice_adapter.Base.{
  ℕ, ◌≡◌, ◌≢◌, sym, ap, ◌∙◌, subst, ◌⊎◌, inl, inr, ℤ, pos, ℤ_eq, ℤ_eq_refl, ℤ_eq_sound, Bytes,
  false, List, Option, none, some, Bool-cases,
}
use ice_adapter.Base.IntMap.{find, erase, assign}
use ice_adapter.Base.IntMap.Keys.{find_put, find_put_self, find_put_other, key_differs, erase_sub}
use ice_adapter.Base.IntMap.Laws.{
  IsAscending, assign-IsAscending, erase-IsAscending, find-erase_self, find-erase_other,
}
use ice_adapter.Json.{JsonLib}
use ice_adapter.Testserver.{Testserver}
use ice_adapter.Testserver.Seats.{pos-injective}
use ice_adapter.Testserver.Valid.{IsValid}

module _ {A : Type 0} where
  -- Where one value is found, and another, the keys differ.
  keys_differ :
      (k i : ℤ) (v w : A) (m : List (ℤ × A))
      → find k m ≡ some v
      → find i m ≡ some w
      → v ≢ w
      → ℤ_eq k i ≡ false
  keys_differ k i v w m e f differ = elim (Bool-cases (ℤ_eq k i)) [
    | inl same ↦ absurd (
        differ (
          let g = subst (λ j. find j m ≡ some v) (ℤ_eq_sound k i same) e in
          let h : v ≡ w = cc in h))
    | inr other ↦ other
  ]

  -- An entry that is taken out and put in again.
  find_again :
      (k i : ℤ) (v w : A) (m : List (ℤ × A))
      → IsAscending m
      → find i (assign k v (erase k m)) ≡ some w
      → ((k ≡ i) × (v ≡ w)) ⊎ ((ℤ_eq k i ≡ false) × (find i m ≡ some w))
  find_again k i v w m o e = elim (find_put k i v w (erase k m) e) [
    | inl new ↦ inl new
    | inr (other, before) ↦ inr (other, (erase_sub k i w m o before).1)
  ]

  kept_again :
      (k i : ℤ) (v : A) (m : List (ℤ × A))
      → ℤ_eq k i ≡ false
      → find i (assign k v (erase k m)) ≡ find i m
  kept_again k i v m other = find_put_other k i v (erase k m) other ∙ find-erase_other k i m other

module _ (J : JsonLib) (s : Testserver J) (valid : IsValid J s) (k : ℕ) (id : ℤ) where
  open valid use {
    sockets_ordered, players_ordered, logins_ordered, players_games_ordered, games_ordered,
    has_socket, has_player, has_login, login_connected, logins_differ, next_free, in_one_game,
    player_connected, host_inside, players_sorted,
  }

  -- A player that logs out, from no game.
  abbrev pub unseated : Testserver J
  unseated = record s {
    player_sockets = erase id s.player_sockets;
    socket_players = erase (pos k) s.socket_players;
    players_logins = erase id s.players_logins;
  }

  module _ (seat : find (pos k) s.socket_players ≡ some id)
      (out : find id s.players_games ≡ none) where
    unseat_player :
        (j : ℕ) (p : ℤ)
        → find (pos j) unseated.socket_players ≡ some p
        → find p unseated.player_sockets ≡ some (some j)
    unseat_player j p e =
        let (other, before) = erase_sub (pos k) (pos j) p s.socket_players players_ordered e in
        let e' = has_player j p before in
        let differ =
          keys_differ id p (some k) (some j) s.player_sockets (has_player k id seat) e' (λ same.
            let same' : k ≡ j = cc in
            absurd (
              let f = ℤ_eq_refl (pos k) in
              let g = subst (λ i. ℤ_eq (pos k) (pos i) ≡ false) (sym same') other in cc)) in
        find-erase_other id p s.player_sockets differ ∙ e'

    unseat_socket :
        (p : ℤ) (o : Option ℕ)
        → find p unseated.player_sockets ≡ some o
        → (j : ℕ) × (o ≡ some j) × (find (pos j) unseated.socket_players ≡ some p)
    unseat_socket p o e =
        let (other, before) = erase_sub id p o s.player_sockets sockets_ordered e in
        let (j, is, back) = has_socket p o before in
        let differ = keys_differ (pos k) (pos j) id p s.socket_players seat back (λ same.
          let f = ℤ_eq_refl id in let g = subst (λ i. ℤ_eq id i ≡ false) (sym same) other in cc) in
        (j, is, find-erase_other (pos k) (pos j) s.socket_players differ ∙ back)

    pub unseated-IsValid : IsValid J unseated
    unseated-IsValid = record {
      sockets_ordered = erase-IsAscending id s.player_sockets sockets_ordered;
      players_ordered = erase-IsAscending (pos k) s.socket_players players_ordered;
      logins_ordered = erase-IsAscending id s.players_logins logins_ordered;
      players_games_ordered = players_games_ordered;
      games_ordered = games_ordered;
      has_socket = unseat_socket;
      has_player = unseat_player;
      has_login = λ p o e.
          let (other, before) = erase_sub id p o s.player_sockets sockets_ordered e in
          let (login, f) = has_login p o before in
          (login, find-erase_other id p s.players_logins other ∙ f);
      login_connected = λ p login e.
          let (other, before) = erase_sub id p login s.players_logins logins_ordered e in
          let (o, f) = login_connected p login before in
          (o, find-erase_other id p s.player_sockets other ∙ f);
      logins_differ = λ p q login e f.
          logins_differ p q login (erase_sub id p login s.players_logins logins_ordered e).1
            (erase_sub id q login s.players_logins logins_ordered f).1;
      next_free = λ n h. elim (Bool-cases (ℤ_eq id (pos n))) [
        | inl same ↦
            subst (λ i. find i unseated.player_sockets ≡ none) (ℤ_eq_sound id (pos n) same)
              (find-erase_self id s.player_sockets sockets_ordered)
        | inr other ↦ find-erase_other id (pos n) s.player_sockets other ∙ next_free n h
      ];
      in_one_game = in_one_game;
      player_connected = λ game p players e inside.
          let (o, f) = player_connected game p players e inside in
          let g = in_one_game game p players e inside in
          (
            o,
            find-erase_other id p s.player_sockets (key_differs id p game s.players_games out g)
                ∙ f,
          );
      host_inside = host_inside;
      players_sorted = players_sorted;
    }

  -- A player that comes back with another socket.
  abbrev pub reseated : ℕ → Testserver J
  reseated old = record s {
    player_sockets = assign id (some k) (erase id s.player_sockets);
    socket_players = assign (pos k) id (erase (pos old) s.socket_players);
  }

  module _ (old : ℕ) (seat : find id s.player_sockets ≡ some (some old))
      (stranger : find (pos k) s.socket_players ≡ none) where
    reseat_socket :
        (p : ℤ) (o : Option ℕ)
        → find p (reseated old).player_sockets ≡ some o
        → (j : ℕ) × (o ≡ some j) × (find (pos j) (reseated old).socket_players ≡ some p)
    reseat_socket p o e = elim (find_again id p (some k) o s.player_sockets sockets_ordered e) [
      | inl (same, new) ↦
          (k, sym new, find_put_self (pos k) id (erase (pos old) s.socket_players) ∙ ap some same)
      | inr (other, before) ↦
          let (j, is, back) = has_socket p o before in
          let (old', is', back') = has_socket id (some old) seat in
          let at_old : find (pos old) s.socket_players ≡ some id =
            subst (λ i. find (pos i) s.socket_players ≡ some id) (let g : old' ≡ old = cc in g)
              back' in
          let differ = keys_differ (pos old) (pos j) id p s.socket_players at_old back (λ same.
            let f = ℤ_eq_refl id in
            let g = subst (λ i. ℤ_eq id i ≡ false) (sym same) other in cc) in
          (
            j,
            is,
            find_put_other (pos k) (pos j) id (erase (pos old) s.socket_players)
                  (key_differs (pos k) (pos j) p s.socket_players stranger back)
                ∙ find-erase_other (pos old) (pos j) s.socket_players differ
                ∙ back,
          )
    ]

    reseat_player :
        (j : ℕ) (p : ℤ)
        → find (pos j) (reseated old).socket_players ≡ some p
        → find p (reseated old).player_sockets ≡ some (some j)
    reseat_player j p e =
        elim (find_put (pos k) (pos j) id p (erase (pos old) s.socket_players) e) [
          | inl (same, new) ↦
              subst (λ q. find q (reseated old).player_sockets ≡ some (some j)) new
                (find_put_self id (some k) (erase id s.player_sockets)
                  ∙ ap some (ap some (pos-injective k j same)))
          | inr (other, later) ↦
              let (apart, before) =
                erase_sub (pos old) (pos j) p s.socket_players players_ordered later in
              let e' = has_player j p before in
              let differ = keys_differ id p (some old) (some j) s.player_sockets seat e' (λ same.
                let same' : old ≡ j = cc in
                absurd (
                  let f = ℤ_eq_refl (pos old) in
                  let g = subst (λ i. ℤ_eq (pos old) (pos i) ≡ false) (sym same') apart in cc)) in
              kept_again id p (some k) s.player_sockets differ ∙ e'
        ]

    -- Who was connected still is.
    reseat_connected :
        (p : ℤ) (o : Option ℕ)
        → find p s.player_sockets ≡ some o
        → (r : Option ℕ) × (find p (reseated old).player_sockets ≡ some r)
    reseat_connected p o e = elim (Bool-cases (ℤ_eq id p)) [
      | inl same ↦ (
        some k,
        subst (λ q. find q (reseated old).player_sockets ≡ some (some k)) (ℤ_eq_sound id p same)
            (find_put_self id (some k) (erase id s.player_sockets)),
      )
      | inr other ↦ (o, kept_again id p (some k) s.player_sockets other ∙ e)
    ]

    pub reseated-IsValid : IsValid J (reseated old)
    reseated-IsValid = record {
      sockets_ordered =
          assign-IsAscending id (some k) _ (erase-IsAscending id s.player_sockets sockets_ordered);
      players_ordered =
          assign-IsAscending (pos k) id _
            (erase-IsAscending (pos old) s.socket_players players_ordered);
      logins_ordered = logins_ordered;
      players_games_ordered = players_games_ordered;
      games_ordered = games_ordered;
      has_socket = reseat_socket;
      has_player = reseat_player;
      has_login = λ p o e. elim (find_again id p (some k) o s.player_sockets sockets_ordered e) [
        | inl (same, new) ↦
            subst (λ q. (login : Bytes) × (find q s.players_logins ≡ some login)) same
              (has_login id (some old) seat)
        | inr (other, before) ↦ has_login p o before
      ];
      login_connected =
          λ p login e. let (o, f) = login_connected p login e in reseat_connected p o f;
      logins_differ = logins_differ;
      next_free = λ n h.
          let none_there = next_free n h in
          kept_again id (pos n) (some k) s.player_sockets (elim (Bool-cases (ℤ_eq id (pos n))) [
            | inl same ↦ absurd (
                let f =
                  subst (λ q. find q s.player_sockets ≡ some (some old))
                    (ℤ_eq_sound id (pos n) same) seat in
                cc)
            | inr other ↦ other
          ])
          ∙ none_there;
      in_one_game = in_one_game;
      player_connected = λ game p players e inside.
          let (o, f) = player_connected game p players e inside in reseat_connected p o f;
      host_inside = host_inside;
      players_sorted = players_sorted;
    }
