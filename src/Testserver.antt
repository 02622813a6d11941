-- ===== src/Testserver.antt =====
-- legacy_testclient/Testserver.h and legacy_testclient/Testserver.cpp: the lobby server for manual
-- tests, its state and what its methods share.
pub mod Logins
pub mod Games
pub mod Callbacks
pub mod Valid
pub mod Quiet
pub mod Leaving
pub mod Left
pub mod Seats
pub mod Handover
pub mod Coming
pub mod Playing
pub mod Turns
pub mod Histories
pub mod Strangers
pub mod Saying
pub mod Inviting
pub mod Joining
pub mod Wire
pub mod Tests
pub mod Putting
use ice_adapter.Base.{
  ℕ, ℤ, pos, Bytes, Bool, true, false, List, [], ◌∷◌, ◌++◌, Option, none, some, codes,
}
use ice_adapter.Base.IntMap.{find, assign, erase}
use ice_adapter.Json.{JsonLib}
use ice_adapter.Adapter.Game.{json_array}

-- `std::set<PlayerIdType>`, as a map to nothing.
abbrev pub Players : Type 0
Players = List (ℤ × Unit {0})

-- A method of an object returns, or an exception leaves it (`none`); what it changed before stays
-- changed.
abbrev pub Exec : Type 0 → Type 0 → Type 0
Exec S A = S → Option A × S

module _ {S A : Type 0} where
  abbrev pub continue : {B : Type 0} → Option A → (A → Exec S B) → Exec S B
  continue none f s = (none, s)
  continue (some x) f s = f x s

  infixl 5 ◌>>=◌
  abbrev pub ◌>>=◌ : {B : Type 0} → Exec S A → (A → Exec S B) → Exec S B
  ◌>>=◌ m f s = let (r, t) = m s in continue r f t

  abbrev pub pure : A → Exec S A
  pure x s = (some x, s)

  abbrev pub lift : Option A → Exec S A
  lift r s = (r, s)

module _ {S : Type 0} where
  abbrev pub done : Exec S (Unit {0})
  done s = (some tt, s)

  abbrev pub modify : (S → S) → Exec S (Unit {0})
  modify f s = (some tt, f s)

module _ (J : JsonLib) where
  open J use {Value, of_string, of_int, set_member, empty_object}

  -- One call of `sendRequest`: the socket, the method and the parameters. The null pointer stands for
  -- every client.
  pub record Sent : Type 0 where
    pub socket : Option ℕ
    pub method : Bytes
    pub params : Value

  -- A socket is known by its address, and `none` is the null pointer. `sent` is the trace of the
  -- requests. That `mCurrentPlayerId` stays below 2 ^ 31 is assumed.
  pub record Testserver : Type 0 where
    pub current_player_id : ℕ
    pub player_sockets : List (ℤ × Option ℕ)
    pub socket_players : List (ℤ × ℤ)
    pub players_logins : List (ℤ × Bytes)
    pub players_games : List (ℤ × ℤ)
    pub games : List (ℤ × Players)
    pub sent : List Sent

  abbrev pub new_server : Testserver
  new_server = record {
    current_player_id = 0;
    player_sockets = [];
    socket_players = [];
    players_logins = [];
    players_games = [];
    games = [];
    sent = [];
  }

  abbrev pub request : Option ℕ → Bytes → List Value → Sent
  request socket method params = record {
    socket = socket;
    method = method;
    params = json_array J params;
  }

  abbrev pub log : List Sent → Testserver → Testserver
  log ms s = record s { sent = s.sent ++ ms }

  abbrev pub send_request : Option ℕ → Bytes → List Value → Exec Testserver (Unit {0})
  send_request socket method params = modify (log (request socket method params ∷ []))

  -- `mPlayerSockets[id]`, which adds a null pointer for a missing id.
  abbrev pub socket_or_null : ℤ → Option (Option ℕ) → Exec Testserver (Option ℕ)
  socket_or_null id none s =
      (some none, record s { player_sockets = assign id none s.player_sockets })
  socket_or_null id (some socket) s = (some socket, s)

  abbrev pub socket_of : ℤ → Exec Testserver (Option ℕ)
  socket_of id s = socket_or_null id (find id s.player_sockets) s

  -- `sendToIceAdapter` with the name of a method of the adapter and the parameters for it.
  abbrev pub to_ice_adapter : Option ℕ → Bytes → List Value → Exec Testserver (Unit {0})
  to_ice_adapter socket method params =
      send_request socket (codes "sendToIceAdapter") (of_string method ∷ (json_array J params ∷ []))

  -- A loop over the players of a set.
  unfoldable pub for_each : Players → (ℤ → Exec Testserver (Unit {0})) → Exec Testserver (Unit {0})
  for_each [] body = done
  for_each ((id, u) ∷ ps) body = body id >>= λ _. for_each ps body

  -- `gamelistJson`; `at` throws for a host without a login.
  unfoldable pub add_games : List (ℤ × Players) → List (ℤ × Bytes) → Value → Option Value
  add_games [] logins v = some v
  add_games ((host, players) ∷ m) logins v = elim (find host logins) [
    | none ↦ none
    | some login ↦ add_games m logins (set_member v login (of_int host))
  ]

  unfoldable pub gamelist_json : Testserver → Option Value
  unfolding add_games
  gamelist_json s = add_games s.games s.players_logins empty_object

  unfoldable pub send_gamelist : Exec Testserver (Unit {0})
  unfolding gamelist_json
  send_gamelist s =
      (lift (gamelist_json s) >>= λ games. send_request none (codes "onGamelist") (games ∷ [])) s
