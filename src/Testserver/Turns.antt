-- ===== src/Testserver/Turns.antt =====
-- Testserver.cpp: the callbacks of players that host, join and leave games keep the invariant of the maps.
use ice_adapter.Base.{
  ℕ, ◌≡◌, refl, sym, ap, ◌∙◌, subst, inl, inr, ℤ, pos, List, [], ◌∷◌, Option, none, some, codes,
  ltb,
}
use ice_adapter.Base.IntMap.{find, assign}
use ice_adapter.Base.IntMap.Keys.{find_put_self}
use ice_adapter.Base.IntMap.Laws.{find-erase_self}
use ice_adapter.Json.{JsonLib}
use ice_adapter.Adapter.Game.{json_array}
use ice_adapter.Testserver.{
  Testserver, Players, Sent, ◌>>=◌, continue, log, pure, lift, modify, request, send_request,
  send_gamelist,
}
use ice_adapter.Testserver.Callbacks.{
  finish, host, put_into, on_host_game, leave, on_leave_game, join_found, join, on_join_game,
  forward, on_send_ice_msg, insert_new, or_new,
}
use ice_adapter.Testserver.Coming.{unless-IsValid}
use ice_adapter.Testserver.Leaving.{disconnect-Returns, host-IsNamed, left}
use ice_adapter.Testserver.Left.{left-IsValid, log-IsValid}
use ice_adapter.Testserver.Playing.{announce-IsQuiet}
use ice_adapter.Testserver.Putting.{put_into-IsValid}
use ice_adapter.Testserver.Quiet.{Returns, send_gamelist-IsQuiet}
use ice_adapter.Testserver.Valid.{IsValid}

module _ (J : JsonLib) where
  open J use {Value, null}

  abbrev nothing : Value × Value
  nothing = (null, null)

  module _ (k : ℕ) (p h : ℤ) (t : Testserver J) (t-IsValid : IsValid J t) (q : Option ℕ)
      (connected : find p t.player_sockets ≡ some q) (free : find p t.players_games ≡ none) where
    join_found-IsValid :
        (r : Option Players) → find h t.games ≡ r → IsValid J (finish J (join_found J k p h r t)).1
    unfolding Returns
    join_found-IsValid none e = t-IsValid
    join_found-IsValid (some players) e =
        let u = put_into J h p t in
        let u-IsValid = put_into-IsValid J t t-IsValid h p q connected free (inr (players, e)) in
        let (ms, f) =
          announce-IsQuiet J u u-IsValid k p h (assign p tt players)
            (find_put_self h (assign p tt (or_new [] (find h t.games))) t.games
              ∙ ap (λ r. some (assign p tt (or_new [] r))) e)
            (find_put_self p tt players) in
        subst (IsValid J) (ap (λ r. (finish J (continue r.0 (λ _. pure nothing) r.1)).1) (sym f))
          (log-IsValid J u u-IsValid ms)

  module _ (s : Testserver J) (valid : IsValid J s) (k : ℕ) where
    abbrev pub ask : List (Sent J)
    ask = request J (some k) (codes "sendToIceAdapter") (J.of_string (codes "hostGame") ∷ []) ∷ []

    -- The server when a player hosts, with what was sent before and after the message to its adapter.
    abbrev pub hosted : ℤ → List (Sent J) → List (Sent J) → Testserver J
    hosted p ms ns = log J ns (log J ask (put_into J p p (log J ms (left J p s))))

    host_hosts :
        (p : ℤ)
        → find (pos k) s.socket_players ≡ some p
        → (ms ns : List (Sent J)) × ((finish J (host J k (some p) s)).1 ≡ hosted p ms ns)
          × IsValid J (hosted p ms ns)
    unfolding Returns
    host_hosts p e =
        let connected = valid.has_player k p e in
        let (ms, f) = disconnect-Returns J s valid p (some k) connected in
        let t = log J ms (left J p s) in
        let t-IsValid = log-IsValid J (left J p s) (left-IsValid J s valid p) ms in
        let u = put_into J p p t in
        let u-IsValid =
          put_into-IsValid J t t-IsValid p p (some k) connected
            (find-erase_self p s.players_games valid.players_games_ordered) (inl refl) in
        let (ns, g) = send_gamelist-IsQuiet J (log J ask u) (host-IsNamed J u u-IsValid) in
        (
          ms,
          ns,
          ap
                (λ r.
                  (finish J (
                    continue r.0
                      (λ _. modify (put_into J p p) >>= λ _.
                        send_request J (some k) (codes "sendToIceAdapter")
                          (J.of_string (codes "hostGame") ∷ [])
                        >>= λ _. send_gamelist J >>= λ _. pure nothing)
                      r.1)).1)
                f
              ∙ ap (λ r. (finish J (continue r.0 (λ _. pure nothing) r.1)).1) g,
          log-IsValid J (log J ask u) (log-IsValid J u u-IsValid ask) ns,
        )

    host-IsValid :
        (r : Option ℤ) → find (pos k) s.socket_players ≡ r → IsValid J (finish J (host J k r s)).1
    host-IsValid none e = valid
    host-IsValid (some p) e =
        let (ms, ns, f, hosted-IsValid) = host_hosts p e in subst (IsValid J) (sym f) hosted-IsValid

    -- What `hostGame` of a player leaves.
    pub host_game_hosts :
        (params : Value) (p : ℤ)
        → find (pos k) s.socket_players ≡ some p
        → (ms ns : List (Sent J)) × ((on_host_game J params k s).1 ≡ hosted p ms ns)
    unfolding on_host_game
    host_game_hosts params p e =
        let (ms, ns, f, hosted-IsValid) = host_hosts p e in
        (ms, ns, ap (λ r. (finish J (host J k r s)).1) e ∙ f)

    leave-IsValid :
        (r : Option ℤ) → find (pos k) s.socket_players ≡ r → IsValid J (finish J (leave J r s)).1
    unfolding Returns
    leave-IsValid none e = valid
    leave-IsValid (some p) e =
        let (ms, f) = disconnect-Returns J s valid p (some k) (valid.has_player k p e) in
        subst (IsValid J) (ap (λ r. (finish J (continue r.0 (λ _. pure nothing) r.1)).1) (sym f))
          (log-IsValid J (left J p s) (left-IsValid J s valid p) ms)

    join_as-IsValid :
        (p : ℤ) (t : Testserver J)
        → IsValid J t
        → find p t.player_sockets ≡ some (some k)
        → find p t.players_games ≡ none
        → (h : Option ℤ)
        → IsValid J
            (finish J
              ((lift h >>= λ hosting s. join_found J k p hosting (find hosting s.games) s) t)).1
    join_as-IsValid p t t-IsValid connected free none = t-IsValid
    join_as-IsValid p t t-IsValid connected free (some h) =
        join_found-IsValid k p h t t-IsValid (some k) connected free (find h t.games) refl

    join-IsValid :
        (params : Value) (r : Option ℤ)
        → find (pos k) s.socket_players ≡ r
        → IsValid J (finish J (join J k params r s)).1
    unfolding Returns
    join-IsValid params none e = valid
    join-IsValid params (some p) e =
        let connected = valid.has_player k p e in
        let (ms, f) = disconnect-Returns J s valid p (some k) connected in
        subst (IsValid J)
          (ap
            (λ r.
              (finish J (
                continue r.0
                  (λ _. lift (J.as_int (J.at params 0)) >>= λ hosting s.
                    join_found J k p hosting (find hosting s.games) s)
                  r.1)).1)
            (sym f))
          (join_as-IsValid p (log J ms (left J p s))
            (log-IsValid J (left J p s) (left-IsValid J s valid p) ms) connected
            (find-erase_self p s.players_games valid.players_games_ordered)
            (J.as_int (J.at params 0)))

    pub on_host_game-IsValid : (params : Value) → IsValid J (on_host_game J params k s).1
    unfolding on_host_game
    on_host_game-IsValid params = host-IsValid (find (pos k) s.socket_players) refl

    pub on_leave_game-IsValid : (params : Value) → IsValid J (on_leave_game J params k s).1
    unfolding on_leave_game
    on_leave_game-IsValid params = leave-IsValid (find (pos k) s.socket_players) refl

    pub on_join_game-IsValid : (params : Value) → IsValid J (on_join_game J params k s).1
    unfolding on_join_game
    on_join_game-IsValid params =
        unless-IsValid J s valid k (ltb (J.size params) 1) _ _
          (join-IsValid params (find (pos k) s.socket_players) refl)

    module _ (p : ℤ) (known : find (pos k) s.socket_players ≡ some p) where
      forward-IsValid :
          (msg : Value) (r : Option (Option ℕ)) → IsValid J (finish J (forward J k msg r s)).1
      forward-IsValid msg none = valid
      forward-IsValid msg (some remote) =
          subst
            (λ r. IsValid J (
              log J
                (request J remote (codes "sendToIceAdapter") (
                    J.of_string (codes "iceMsg")
                    ∷ (json_array J (J.of_int (or_new (pos 0) r) ∷ (msg ∷ [])) ∷ []))
                  ∷ [])
                (record s { socket_players = insert_new r (pos k) (pos 0) s.socket_players })))
            (sym known) (log-IsValid J s valid _)

      forward_to-IsValid :
          (msg : Value) (r : Option ℤ)
          → IsValid J
              (finish J
                ((lift r >>= λ remote t. forward J k msg (find remote t.player_sockets) t) s)).1
      forward_to-IsValid msg none = valid
      forward_to-IsValid msg (some remote) = forward-IsValid msg (find remote s.player_sockets)

      pub on_send_ice_msg-IsValid : (params : Value) → IsValid J (on_send_ice_msg J params k s).1
      unfolding on_send_ice_msg
      on_send_ice_msg-IsValid params =
          unless-IsValid J s valid k (ltb (J.size params) 3) _ _
            (forward_to-IsValid (J.at params 2) (J.as_int (J.at params 1)))
