-- ===== src/Testserver/Callbacks.antt =====
-- Testserver.cpp: the constructor's callbacks.
use ice_adapter.Base.{
  ℕ, suc, ℤ, pos, ℤ_eq, Bytes, Bool, true, false, ◌||◌, List, [], ◌∷◌, Option, none, some, codes,
  if◌then◌else◌, ltb,
}
use ice_adapter.Base.IntMap.{find, assign, erase}
use ice_adapter.Json.{JsonLib}
use ice_adapter.Testserver.{
  Testserver, Players, Exec, ◌>>=◌, done, pure, lift, modify, send_request, socket_of,
  to_ice_adapter, for_each, gamelist_json, send_gamelist,
}
use ice_adapter.Testserver.Games.{disconnect_player_from_game, unless_same}
use ice_adapter.Testserver.Logins.{choose_login}

-- `std::map::insert`, which keeps the value of a key that is there.
abbrev pub insert_new {ℓ} : {A : Type ℓ} → Option A → ℤ → A → List (ℤ × A) → List (ℤ × A)
insert_new none k v m = assign k v m
insert_new (some w) k v m = m

abbrev pub insert {ℓ} : {A : Type ℓ} → ℤ → A → List (ℤ × A) → List (ℤ × A)
insert k v m = insert_new (find k m) k v m

-- `m[key]` of a map, with the value that a missing key gets.
abbrev pub or_new {ℓ} : {A : Type ℓ} → A → Option A → A
or_new v none = v
or_new v (some w) = w

abbrev pub is_some {ℓ} : {A : Type ℓ} → Option A → Bool
is_some none = false
is_some (some x) = true

module _ (J : JsonLib) where
  open J use {Value, null, of_int, of_bool, of_string, set_member, size, at, as_int, as_string}

  -- What a callback leaves in `result` and `error`, which start as null, and the state.
  abbrev pub Callback : Type 0
  Callback = Value → ℕ → Testserver J → (Value × Value) × Testserver J

  abbrev pub refuse : Bytes → Value × Value
  refuse text = (null, of_string text)

  -- An exception leaves both as they are.
  abbrev pub finish : Option (Value × Value) × Testserver J → (Value × Value) × Testserver J
  finish (none, s) = ((null, null), s)
  finish (some r, s) = (r, s)

  abbrev pub entered : ℕ → Bytes → Testserver J → Testserver J
  entered socket login s = record s {
    player_sockets = insert (pos s.current_player_id) (some socket) s.player_sockets;
    socket_players = insert (pos socket) (pos s.current_player_id) s.socket_players;
    players_logins = insert (pos s.current_player_id) login s.players_logins;
  }

  -- `gamelistJson` comes when `result` has two members.
  abbrev pub log_in : Bytes → Option Value → Testserver J → (Value × Value) × Testserver J
  log_in login none s = (
    (
      set_member (set_member null (codes "id") (of_int (pos s.current_player_id))) (codes "login")
          (of_string login),
      null,
    ),
    s,
  )
  log_in login (some games) s = (
    (
      set_member
          (set_member (set_member null (codes "id") (of_int (pos s.current_player_id)))
            (codes "login") (of_string login))
          (codes "games") games,
      null,
    ),
    record s { current_player_id = suc s.current_player_id },
  )

  -- The search for a login does not run out of fuel.
  abbrev pub enter : ℕ → Option Bytes → Testserver J → (Value × Value) × Testserver J
  enter socket none s = ((null, null), s)
  enter socket (some login) s = let t = entered socket login s in log_in login (gamelist_json J t) t

  abbrev pub enter_as : ℕ → Option Bytes → Testserver J → (Value × Value) × Testserver J
  enter_as socket none s = ((null, null), s)
  enter_as socket (some login) s = enter socket (choose_login login s.players_logins) s

  unfoldable pub on_login : Callback
  unfolding gamelist_json choose_login
  on_login params socket s =
      if is_some (find (pos socket) s.socket_players)
      then (refuse (codes "Already logged in"), s)
      else if ltb (size params) 1
      then (refuse (codes "Need 1 parameters: login (string)"), s)
      else enter_as socket (as_string (at params 0)) s

  abbrev pub erase_socket : Option ℕ → List (ℤ × ℤ) → List (ℤ × ℤ)
  erase_socket none m = m
  erase_socket (some socket) m = erase (pos socket) m

  abbrev pub take_over : ℕ → ℤ → Option (Option ℕ) → Testserver J → (Value × Value) × Testserver J
  take_over socket id none s = (refuse (codes "id not found"), s)
  take_over socket id (some old) s = (
    (of_string (codes "ok"), null),
    record s {
      player_sockets = insert id (some socket) (erase id s.player_sockets);
      socket_players = insert (pos socket) id (erase_socket old s.socket_players);
    },
  )

  abbrev pub take_over_id : ℕ → Option ℤ → Testserver J → (Value × Value) × Testserver J
  take_over_id socket none s = ((null, null), s)
  take_over_id socket (some id) s = take_over socket id (find id s.player_sockets) s

  unfoldable pub on_reconnect : Callback
  on_reconnect params socket s =
      if is_some (find (pos socket) s.socket_players)
      then (refuse (codes "Already logged in"), s)
      else if ltb (size params) 1
      then (refuse (codes "Need 1 parameters: id (int)"), s)
      else take_over_id socket (as_int (at params 0)) s

  -- A player is put into a game, which is created if it is not there.
  abbrev pub put_into : ℤ → ℤ → Testserver J → Testserver J
  put_into game id s = record s {
    games = assign game (assign id tt (or_new [] (find game s.games))) s.games;
    players_games = assign id game s.players_games;
  }

  -- `hostGameParams` is built, and not sent.
  abbrev pub host : ℕ → Option ℤ → Exec (Testserver J) (Value × Value)
  host socket none = pure (null, null)
  host socket (some id) = disconnect_player_from_game J id >>= λ _. modify (put_into id id) >>= λ _.
      send_request J (some socket) (codes "sendToIceAdapter") (of_string (codes "hostGame") ∷ [])
      >>= λ _. send_gamelist J >>= λ _. pure (null, null)

  unfoldable pub on_host_game : Callback
  unfolding disconnect_player_from_game send_gamelist
  on_host_game params socket s = finish (host socket (find (pos socket) s.socket_players) s)

  abbrev pub leave : Option ℤ → Exec (Testserver J) (Value × Value)
  leave none = pure (null, null)
  leave (some id) = disconnect_player_from_game J id >>= λ _. pure (null, null)

  unfoldable pub on_leave_game : Callback
  unfolding disconnect_player_from_game
  on_leave_game params socket s = finish (leave (find (pos socket) s.socket_players) s)

  -- `mPlayersLogins.at(id)`, and `mPlayersLogins[id]`.
  abbrev pub login_at : ℤ → Exec (Testserver J) Bytes
  login_at id s = (find id s.players_logins, s)

  abbrev pub login_or_new : ℤ → Exec (Testserver J) Bytes
  login_or_new id s = (
    some (or_new [] (find id s.players_logins)),
    record s { players_logins = insert id [] s.players_logins },
  )

  abbrev pub connect_to_peer : Option ℕ → Bytes → ℤ → Bool → Exec (Testserver J) (Unit {0})
  connect_to_peer socket login id offer =
      to_ice_adapter J socket (codes "connectToPeer")
        (of_string login ∷ (of_int id ∷ (of_bool offer ∷ [])))

  -- The two messages that connect the joining player to a fellow.
  abbrev pub connect_fellow : ℕ → ℤ → ℤ → Exec (Testserver J) (Unit {0})
  connect_fellow socket joining fellow = login_at joining >>= λ login.
      socket_of J fellow >>= λ fellow_socket.
      connect_to_peer fellow_socket login joining true >>= λ _.
      login_at fellow >>= λ login. connect_to_peer (some socket) login fellow false

  -- What the players of the game are told.
  abbrev pub announce : ℕ → ℤ → ℤ → Players → Exec (Testserver J) (Unit {0})
  announce socket joining hosting players = login_at joining >>= λ login.
      socket_of J hosting >>= λ host_socket. connect_to_peer host_socket login joining true >>= λ _.
      login_or_new hosting >>= λ login.
      to_ice_adapter J (some socket) (codes "joinGame") (of_string login ∷ (of_int hosting ∷ []))
      >>= λ _. for_each J players (λ fellow.
        unless_same J (ℤ_eq fellow joining || ℤ_eq fellow hosting)
          (connect_fellow socket joining fellow))

  abbrev pub join_found : ℕ → ℤ → ℤ → Option Players → Exec (Testserver J) (Value × Value)
  join_found socket joining hosting none = pure (refuse (codes "game not found"))
  join_found socket joining hosting (some players) = modify (put_into hosting joining) >>= λ _.
      announce socket joining hosting (assign joining tt players) >>= λ _. pure (null, null)

  abbrev pub join : ℕ → Value → Option ℤ → Exec (Testserver J) (Value × Value)
  join socket params none = pure (refuse (codes "playerId not found"))
  join socket params (some joining) = disconnect_player_from_game J joining >>= λ _.
      lift (as_int (at params 0)) >>= λ hosting s.
      join_found socket joining hosting (find hosting s.games) s

  unfoldable pub on_join_game : Callback
  unfolding disconnect_player_from_game for_each
  on_join_game params socket s =
      if ltb (size params) 1
      then (refuse (codes "Need 1 parameters: remotePlayerId (int)"), s)
      else finish (join socket params (find (pos socket) s.socket_players) s)

  -- `mSocketPlayers[socket]`, which adds the player 0 for a socket that is not there.
  abbrev pub forward : ℕ → Value → Option (Option ℕ) → Exec (Testserver J) (Value × Value)
  forward socket msg none = pure (refuse (codes "remotePlayerId not found"))
  forward socket msg (some remote) =
      (λ s. (
        some (or_new (pos 0) (find (pos socket) s.socket_players)),
        record s { socket_players = insert (pos socket) (pos 0) s.socket_players },
      ))
      >>= λ id. to_ice_adapter J remote (codes "iceMsg") (of_int id ∷ (msg ∷ [])) >>= λ _.
          pure (null, null)

  unfoldable pub on_send_ice_msg : Callback
  on_send_ice_msg params socket s =
      if ltb (size params) 3
      then (
        refuse (codes "Need 3 parameters: playerId (int), remotePlayerId (int), sdp (string)"),
        s,
      )
      else finish (
          (lift (as_int (at params 1)) >>= λ remote t.
          forward socket (at params 2) (find remote t.player_sockets) t)
            s)

  -- The handler of `disconnected`.
  abbrev pub log_out : ℕ → Option ℤ → Exec (Testserver J) (Unit {0})
  log_out socket none = done
  log_out socket (some id) = disconnect_player_from_game J id >>= λ _. modify (λ s. record s {
    player_sockets = erase id s.player_sockets;
    socket_players = erase (pos socket) s.socket_players;
    players_logins = erase id s.players_logins;
  })

  unfoldable pub on_disconnected : ℕ → Exec (Testserver J) (Unit {0})
  unfolding disconnect_player_from_game
  on_disconnected socket s = log_out socket (find (pos socket) s.socket_players) s
