-- ===== src/Testserver/Strangers.antt =====
-- Testserver.cpp: clients that are not logged in.
use ice_adapter.Base.{
  ℕ, ◌≡◌, refl, sym, ap, ◌∙◌, subst, ℤ, pos, false, [], ◌∷◌, Option, none, some, codes,
  if◌then◌else◌, ltb,
}
use ice_adapter.Base.IntMap.{find}
use ice_adapter.Base.IntMap.Keys.{find_put_self}
use ice_adapter.Json.{JsonLib}
use ice_adapter.Adapter.Game.{json_array}
use ice_adapter.Testserver.{Testserver, ◌>>=◌, lift, log, request}
use ice_adapter.Testserver.Callbacks.{
  finish, refuse, insert_new, or_new, forward, on_login, on_send_ice_msg,
}

module _ (J : JsonLib) where
  open J use {Value, null, size, at, as_int}

  known_refused :
      (params : Value) (k : ℕ) (s : Testserver J) (p : ℤ)
      → find (pos k) s.socket_players ≡ some p
      → on_login J params k s ≡ (refuse J (codes "Already logged in"), s)
  unfolding on_login
  known_refused params k s p e = rw (e, on_login) refl

  -- The server when it has taken a client for the player 0.
  abbrev marked : Value → ℕ → Option ℕ → Option ℤ → Testserver J → Testserver J
  marked msg k o id s =
      log J
        (request J o (codes "sendToIceAdapter") (
            J.of_string (codes "iceMsg")
            ∷ (json_array J (J.of_int (or_new (pos 0) id) ∷ (msg ∷ [])) ∷ []))
          ∷ [])
        (record s { socket_players = insert_new id (pos k) (pos 0) s.socket_players })

  stranger_marked :
      (params : Value) (k : ℕ) (s : Testserver J) (remote : ℤ) (o : Option ℕ)
      → find (pos k) s.socket_players ≡ none
      → ltb (size params) 3 ≡ false
      → as_int (at params 1) ≡ some remote
      → find remote s.player_sockets ≡ some o
      → (on_send_ice_msg J params k s).1 ≡ marked (at params 2) k o none s
  unfolding on_send_ice_msg
  stranger_marked params k s remote o stranger enough to there =
      let msg = at params 2 in
      let send = λ (r : Option ℤ).
        (finish J ((lift r >>= λ remote t. forward J k msg (find remote t.player_sockets) t) s)) in
      ap
        (λ b.
          (if b
            then (
              refuse J
                  (codes "Need 3 parameters: playerId (int), remotePlayerId (int), sdp (string)"),
              s,
            )
            else send (as_int (at params 1))).1)
        enough
      ∙ ap (λ r. (send r).1) to
      ∙ ap (λ r. (finish J (forward J k msg r s)).1) there
      ∙ ap (λ id. marked msg k o id s) stranger

  -- A client that is not logged in sends `sendIceMsg` to a player that is connected: the server takes the
  -- client for the player 0 from then on. No player is given another socket or login by it, and each
  -- login of the client is refused, as it is logged in already.
  pub stranger_is_player_zero :
      (params : Value) (k : ℕ) (s : Testserver J) (remote : ℤ) (o : Option ℕ)
      → find (pos k) s.socket_players ≡ none
      → ltb (size params) 3 ≡ false
      → as_int (at params 1) ≡ some remote
      → find remote s.player_sockets ≡ some o
      → let t = (on_send_ice_msg J params k s).1 in
        (find (pos k) t.socket_players ≡ some (pos 0))
        × (t.player_sockets ≡ s.player_sockets)
        × (t.players_logins ≡ s.players_logins)
        × ((wanted : Value) → on_login J wanted k t ≡ (refuse J (codes "Already logged in"), t))
  stranger_is_player_zero params k s remote o stranger enough to there =
      let here = find_put_self (pos k) (pos 0) s.socket_players in
      subst
        (λ t.
          (find (pos k) t.socket_players ≡ some (pos 0))
          × (t.player_sockets ≡ s.player_sockets)
          × (t.players_logins ≡ s.players_logins)
          × ((wanted : Value) → on_login J wanted k t ≡ (refuse J (codes "Already logged in"), t)))
        (sym (stranger_marked params k s remote o stranger enough to there))
        (
          here,
          refl,
          refl,
          λ wanted. known_refused wanted k (marked (at params 2) k o none s) (pos 0) here,
        )
