-- ===== src/Testserver/Joining.antt =====
-- Testserver.cpp "joinGame": whom a player that joins is connected to.
use ice_adapter.Base.{
  ℕ, ◌≡◌, inr, ap, ◌∙◌, ℤ, pos, false, List, [], Option, some, codes, if◌then◌else◌, ltb,
}
use ice_adapter.Base.IntMap.{find, assign}
use ice_adapter.Base.IntMap.Keys.{find_put_self}
use ice_adapter.Base.IntMap.Laws.{find-erase_self}
use ice_adapter.Json.{JsonLib}
use ice_adapter.Testserver.{Testserver, Players, Sent, Exec, continue, ◌>>=◌, log, lift, pure}
use ice_adapter.Testserver.Callbacks.{
  finish, refuse, put_into, or_new, announce, join_found, join, on_join_game,
}
use ice_adapter.Testserver.Leaving.{disconnect-Returns, left}
use ice_adapter.Testserver.Left.{left-IsValid, log-IsValid}
use ice_adapter.Testserver.Putting.{put_into-IsValid}
use ice_adapter.Testserver.Quiet.{Returns}
use ice_adapter.Testserver.Valid.{IsValid}
use ice_adapter.Testserver.Inviting.{invitations, announce-Says}
use ice_adapter.Testserver.Games.{disconnect_player_from_game}

module _ (J : JsonLib) where
  -- The server when the player has left its game, and has then been put into the other one.
  abbrev pub joined : ℤ → ℤ → Testserver J → List (Sent J) → Testserver J
  joined joining hosting s ms = put_into J hosting joining (log J ms (left J joining s))

  module _ (s : Testserver J) (valid : IsValid J s) (params : J.Value) (k : ℕ) (joining hosting : ℤ)
      (players : Players) where
    open J use {Value, null}

    abbrev entry : Option ℤ → Exec (Testserver J) (Value × Value)
    entry h = lift h >>= λ hosting s. join_found J k joining hosting (find hosting s.games) s

    -- The way to the announcement, given what the steps before it make of the server.
    join_runs :
        (t u : Testserver J)
        → ltb (J.size params) 1 ≡ false
        → J.as_int (J.at params 0) ≡ some hosting
        → find (pos k) s.socket_players ≡ some joining
        → disconnect_player_from_game J joining s ≡ (some tt, t)
        → find hosting t.games ≡ some players
        → announce J k joining hosting (assign joining tt players) (put_into J hosting joining t)
          ≡ (some tt, u)
        → on_join_game J params k s ≡ ((null, null), u)
    unfolding on_join_game
    join_runs t u enough wanted known f there e =
        ap
          (λ b.
            if b
            then (refuse J (codes "Need 1 parameters: remotePlayerId (int)"), s)
            else finish J (join J k params (find (pos k) s.socket_players) s))
          enough
        ∙ ap (λ r. finish J (join J k params r s)) known
        ∙ ap (λ r. finish J (continue r.0 (λ _. entry (J.as_int (J.at params 0))) r.1)) f
        ∙ ap (λ h. finish J (entry h t)) wanted
        ∙ ap (λ r. finish J (join_found J k joining hosting r t)) there
        ∙ ap (λ r. finish J (continue r.0 (λ _. pure (null, null)) r.1)) e

    -- A player that is logged in asks a server with valid maps to join a game, and the game is still there
    -- when the player has left its own. After the farewells to its own game the server sends, in order: to the
    -- host, to connect to the player, with the offer; to the player, to join the host; and for each
    -- other player of the game, by ascending ids, to that one, to connect to the player with the offer, and
    -- to the player, to connect to that one without. So of each pair one side offers. The player has then
    -- left its own game and is in this one, nothing else changes, and there is no error.
    pub join_connects_all :
        ltb (J.size params) 1 ≡ false
        → J.as_int (J.at params 0) ≡ some hosting
        → find (pos k) s.socket_players ≡ some joining
        → find hosting (left J joining s).games ≡ some players
        → (farewells : List (Sent J)) × (on_join_game J params k s ≡ (
          (null, null),
          log J
              (invitations J k joining hosting
                (joined joining hosting s farewells)
                (assign joining tt players))
              (joined joining hosting s farewells),
        ))
    unfolding Returns
    join_connects_all enough wanted known there =
        let connected = valid.has_player k joining known in
        let (ms, f) = disconnect-Returns J s valid joining (some k) connected in
        let t = log J ms (left J joining s) in
        let t-IsValid = log-IsValid J (left J joining s) (left-IsValid J s valid joining) ms in
        let u = joined joining hosting s ms in
        let u-IsValid =
          put_into-IsValid J t t-IsValid hosting joining (some k) connected
            (find-erase_self joining s.players_games valid.players_games_ordered)
            (inr (players, there)) in
        let found =
          find_put_self hosting (assign joining tt (or_new [] (find hosting t.games))) t.games
          ∙ ap (λ r. some (assign joining tt (or_new [] r))) there in
        let e =
          announce-Says J u u-IsValid k joining hosting (assign joining tt players) found
            (find_put_self joining tt players) in
        (ms, join_runs t _ enough wanted known f there e)
