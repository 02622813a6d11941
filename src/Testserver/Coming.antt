-- ===== src/Testserver/Coming.antt =====
-- Testserver.cpp: the callbacks of players that come and go keep the invariant of the maps.
use ice_adapter.Base.{
  ℕ, ◌≡◌, refl, sym, ap, ◌∙◌, subst, inl, inr, ℤ, pos, Bytes, Bool, true, false, Option, none, some,
  codes, Option-cases, arith, if◌then◌else◌, ltb,
}
use ice_adapter.Base.IntMap.{find, erase, assign}
use ice_adapter.Base.IntMap.Keys.{find_kept, erase_sub}
use ice_adapter.Base.IntMap.Laws.{find-erase_self}
use ice_adapter.Json.{JsonLib}
use ice_adapter.Testserver.{Testserver, continue, log, modify, gamelist_json}
use ice_adapter.Testserver.Callbacks.{
  insert_new, entered, log_in, enter, enter_as, on_login, take_over, take_over_id, is_some, refuse,
  on_reconnect, log_out, on_disconnected,
}
use ice_adapter.Testserver.Handover.{unseated-IsValid, reseated-IsValid}
use ice_adapter.Testserver.Leaving.{disconnect-Returns, host-IsNamed, left}
use ice_adapter.Testserver.Left.{left-IsValid, log-IsValid}
use ice_adapter.Testserver.Logins.{login_found}
use ice_adapter.Testserver.Quiet.{Returns, IsNamed, gamelist_returns}
use ice_adapter.Testserver.Seats.{seated, seated-IsValid, free_login}
use ice_adapter.Testserver.Valid.{IsValid}

module _ (J : JsonLib) (s : Testserver J) (valid : IsValid J s) (k : ℕ) where
  open valid use {sockets_ordered, players_ordered, next_free, has_socket}

  -- A request that is refused leaves the server as it is.
  abbrev Answer : Type 0
  Answer = (J.Value × J.Value) × Testserver J

  pub unless-IsValid :
      (b : Bool) (x : J.Value × J.Value) (r : Answer)
      → IsValid J r.1
      → IsValid J (if b then (x, s) else r).1
  unless-IsValid true x r h = valid
  unless-IsValid false x r h = h

  unless_known :
      (p : Option ℤ) (x : J.Value × J.Value) (r : Answer)
      → (p ≡ none → IsValid J r.1)
      → IsValid J (if is_some p then (x, s) else r).1
  unless_known none x r h = h refl
  unless_known (some p) x r h = valid

  abbrev id : ℤ
  id = pos s.current_player_id

  module _ (stranger : find (pos k) s.socket_players ≡ none) where
    abbrev added : Bytes → Testserver J
    added name = record s {
      player_sockets = assign id (some k) s.player_sockets;
      socket_players = assign (pos k) id s.socket_players;
      players_logins = assign id name s.players_logins;
    }

    entered_all : (name : Bytes) → entered J k name s ≡ added name
    entered_all name = λ i. record s {
      player_sockets =
          insert_new (next_free s.current_player_id (omega arith) i) id (some k) s.player_sockets;
      socket_players = insert_new (stranger i) (pos k) id s.socket_players;
      players_logins = insert_new (free_login J s valid k i) id name s.players_logins;
    }

    added-IsNamed : (name : Bytes) → IsNamed J s.games (added name).players_logins
    added-IsNamed name game players e =
        let (login, f) = host-IsNamed J s valid game players e in
        (login, find_kept id game name login s.players_logins (free_login J s valid k) f)

    enter_seats : (name : Bytes) → (enter J k (some name) s).1 ≡ seated J s valid k name
    enter_seats name =
        let (v, g) = gamelist_returns J (added name) (added-IsNamed name) in
        ap (λ t. (log_in J name (gamelist_json J t) t).1) (entered_all name)
        ∙ ap (λ r. (log_in J name r (added name)).1) g

    enter_as-IsValid : (login : Option Bytes) → IsValid J (enter_as J k login s).1
    enter_as-IsValid none = valid
    enter_as-IsValid (some login) =
        let (name, found, fresh, form) = login_found login s.players_logins in
        subst (λ r. IsValid J (enter J k r s).1) (sym found)
          (subst (IsValid J) (sym (enter_seats name))
            (seated-IsValid J s valid k name stranger fresh))

    no_longer : (old : ℕ) → find (pos k) (erase (pos old) s.socket_players) ≡ none
    no_longer old = elim (Option-cases (find (pos k) (erase (pos old) s.socket_players))) [
      | inl e ↦ e
      | inr (p, e) ↦
          absurd
            (let f = (erase_sub (pos old) (pos k) p s.socket_players players_ordered e).1 in cc)
    ]

    take_over-IsValid :
        (p : ℤ) (r : Option (Option ℕ))
        → find p s.player_sockets ≡ r
        → IsValid J (take_over J k p r s).1
    take_over-IsValid p none e = valid
    take_over-IsValid p (some o) e =
        let (old, is, back) = has_socket p o e in
        subst (λ x. IsValid J (take_over J k p (some x) s).1) (sym is)
          (subst (IsValid J)
            (λ i. record s {
              player_sockets =
                  insert_new (sym (find-erase_self p s.player_sockets sockets_ordered) i) p (some k)
                    (erase p s.player_sockets);
              socket_players =
                  insert_new (sym (no_longer old) i) (pos k) p (erase (pos old) s.socket_players);
            })
            (reseated-IsValid J s valid k p old (e ∙ ap some is) stranger))

    take_over_id-IsValid : (p : Option ℤ) → IsValid J (take_over_id J k p s).1
    take_over_id-IsValid none = valid
    take_over_id-IsValid (some p) = take_over-IsValid p (find p s.player_sockets) refl

  log_out-IsValid :
      (r : Option ℤ) → find (pos k) s.socket_players ≡ r → IsValid J (log_out J k r s).1
  unfolding Returns
  log_out-IsValid none e = valid
  log_out-IsValid (some p) e =
      let (ms, f) = disconnect-Returns J s valid p (some k) (valid.has_player k p e) in
      let t = log J ms (left J p s) in
      let t-IsValid = log-IsValid J (left J p s) (left-IsValid J s valid p) ms in
      subst (IsValid J)
        (ap
          (λ r.
            (continue r.0
              (λ _. modify (λ s. record s {
                player_sockets = erase p s.player_sockets;
                socket_players = erase (pos k) s.socket_players;
                players_logins = erase p s.players_logins;
              }))
              r.1).1)
          (sym f))
        (unseated-IsValid J t t-IsValid k p e
          (find-erase_self p s.players_games valid.players_games_ordered))

  pub on_login-IsValid : (params : J.Value) → IsValid J (on_login J params k s).1
  unfolding on_login
  on_login-IsValid params =
      unless_known (find (pos k) s.socket_players) (refuse J (codes "Already logged in")) _
        (λ stranger.
          unless-IsValid (ltb (J.size params) 1) _ _
            (enter_as-IsValid stranger (J.as_string (J.at params 0))))

  pub on_reconnect-IsValid : (params : J.Value) → IsValid J (on_reconnect J params k s).1
  unfolding on_reconnect
  on_reconnect-IsValid params =
      unless_known (find (pos k) s.socket_players) (refuse J (codes "Already logged in")) _
        (λ stranger.
          unless-IsValid (ltb (J.size params) 1) _ _
            (take_over_id-IsValid stranger (J.as_int (J.at params 0))))

  pub on_disconnected-IsValid : IsValid J (on_disconnected J k s).1
  unfolding on_disconnected
  on_disconnected-IsValid = log_out-IsValid (find (pos k) s.socket_players) refl
