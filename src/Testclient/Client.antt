-- ===== src/Testclient/Client.antt =====
-- legacy_testclient/Testclient.h and legacy_testclient/Testclient.cpp: what the client does with the
-- messages of the lobby server, of the adapter and of its peers. The window is left out, but for the
-- boxes that choose the candidates.
pub mod Candidates
pub mod Callbacks
pub mod Game
pub mod Hosting
pub mod Pinging
pub mod Keeping
pub mod Lives
pub mod Tests
use ice_adapter.Base.{
  ℕ, ℤ, negsuc, Bytes, Bool, true, false, ◌&&◌, not, List, [], ◌∷◌, ◌++◌, Option, none, some, codes,
  if◌then◌else◌,
}
use ice_adapter.Json.{JsonLib, is_array}
use ice_adapter.Rpc.Node.{is_empty}
use ice_adapter.Testclient.Pingtracker.{Pingtracker}

-- The fields of `IceCandidate`.
pub record IceCandidate : Type 0 where
  pub component : Bytes
  pub type : Bytes
  pub foundation : Bytes
  pub protocol : Bytes
  pub address : Bytes
  pub port : Bytes
  pub priority : Bytes

-- The boxes `checkBox_c_udp_host` to `checkBox_c_tcp_relay`.
pub record Boxes : Type 0 where
  pub udp_host : Bool
  pub udp_srflx : Bool
  pub udp_relay : Bool
  pub tcp_host : Bool
  pub tcp_srflx : Bool
  pub tcp_relay : Bool

module _ (J : JsonLib) (F : Type 0) (average : F → ℕ → ℕ → F) where
  open J use {Value, empty_array, value_type}

  -- `ice_connected` and `game_connected` are the states of the sockets to the adapter. `to_adapter` and
  -- `to_server` are the traces of the requests that are sent, and `written` is that of the bytes that
  -- the game's side writes.
  pub record Testclient : Type 0 where
    pub player_id : ℤ
    pub game_id : ℤ
    pub pingtrackers : List (ℤ × Pingtracker F average)
    pub peers_ready : List (ℤ × Unit {0})
    pub omitted_candidates : List (ℤ × List IceCandidate)
    pub kept_candidates : List (ℤ × List IceCandidate)
    pub boxes : Boxes
    pub ice_connected : Bool
    pub game_connected : Bool
    pub to_adapter : List (Bytes × Value)
    pub to_server : List (Bytes × Value)
    pub written : Bytes

  -- `sendRequest` sends nothing for parameters that are no array or for an empty method.
  abbrev pub requests : Bytes → Value → List (Bytes × Value) → List (Bytes × Value)
  requests method params rs =
      if is_array (value_type params) && not (is_empty method)
      then rs ++ ((method, params) ∷ [])
      else rs

  abbrev pub request_adapter : Bytes → Value → Testclient → Testclient
  request_adapter method params c = record c { to_adapter = requests method params c.to_adapter }

  abbrev pub request_server : Bytes → Value → Testclient → Testclient
  request_server method params c = record c { to_server = requests method params c.to_server }

  -- `updateStatus`; what its callback shows is left out.
  abbrev pub update_status : Testclient → Testclient
  update_status c = if c.ice_connected then request_adapter (codes "status") empty_array c else c

  -- `on_pushButton_leave_clicked`
  unfoldable pub leave_clicked : Testclient → Testclient
  leave_clicked c =
      record (request_server (codes "leaveGame") empty_array
        (record c { game_connected = false })) {
          game_id = negsuc 0;
          pingtrackers = [];
          peers_ready = [];
          omitted_candidates = [];
          kept_candidates = [];
        }
