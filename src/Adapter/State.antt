-- ===== src/Adapter/State.antt =====
-- The state of `IceAdapter`, and how its methods end.
use ice_adapter.Base.{
  ℕ, ℤ, pos, ℤ_eq, Bytes, Bool, false, List, [], ◌∷◌, ◌++◌, codes, if◌then◌else◌,
}
use ice_adapter.Json.{JsonLib}
use ice_adapter.GpgNet.Server.{GpgNetServer}
unfoldable pub use ice_adapter.Base.IntMap.{ℤ_ltb, find, assign, erase}
use ice_adapter.Relay.State.{IceServer, PeerRelay, Run, ok, exited, threw, null_pointer}

-- IceAdapterOptions.h
pub record IceAdapterOptions : Type 0 where
  pub local_player_id : ℤ
  pub local_player_login : Bytes
  pub rpc_port : ℤ
  pub gpg_net_port : ℤ
  pub game_udp_port : ℤ
  pub log_directory : Bytes
  pub log_level : Bytes

-- The defaults of the constructor, with the two required arguments.
unfoldable pub init_options : ℤ → Bytes → IceAdapterOptions
init_options id login = record {
  local_player_id = id;
  local_player_login = login;
  rpc_port = pos 7236;
  gpg_net_port = pos 0;
  game_udp_port = pos 0;
  log_directory = [];
  log_level = codes "info";
}

pub data TaskKind : Type 0 where
  join_game host_game connect_to_peer disconnect_from_peer : TaskKind

pub record IceAdapterGameTask : Type 0 where
  pub task : TaskKind
  pub host_map : Bytes
  pub remote_login : Bytes
  pub remote_id : ℤ

-- What the system answers while a method runs: the time, and the port that a new relay's socket is
-- bound to.
pub record Moment : Type 0 where
  pub now : ℕ
  pub port : ℕ

module _ (J : JsonLib) where
  -- `requests` is the trace of the calls of `_jsonRpcServer.sendRequest(method, params)`, none of
  -- which passes a callback; `quitting` says that the thread was told to quit.
  pub record IceAdapter : Type 0 where
    pub options : IceAdapterOptions
    pub gpgnet_server : GpgNetServer
    pub game_tasks : List IceAdapterGameTask
    pub gpgnet_game_state : Bytes
    pub relays : List (ℤ × PeerRelay J)
    pub gametask_string : Bytes
    pub ice_servers : List IceServer
    pub lobby_init_mode : Bytes
    pub lobby_port : ℤ
    pub requests : List (Bytes × J.Value)
    pub quitting : Bool

  -- The constructor, with the port that is determined if the option is 0.
  unfoldable pub make : IceAdapterOptions → ℕ → IceAdapter
  make options free_port = record {
    options = options;
    gpgnet_server = record { connected = []; posted = []; written = [] };
    game_tasks = [];
    gpgnet_game_state = codes "None";
    relays = [];
    gametask_string = codes "Idle";
    ice_servers = [];
    lobby_init_mode = codes "normal";
    lobby_port =
        if ℤ_eq options.game_udp_port (pos 0) then pos free_port else options.game_udp_port;
    requests = [];
    quitting = false;
  }

  -- A method returns, or ends in one of the ways of `Run`; what it changed before stays changed.
  abbrev pub Exec {ℓ} : Type ℓ → Type ℓ
  Exec A = IceAdapter → Run A × IceAdapter

  abbrev pub continue {ℓ κ} : {A : Type ℓ} {B : Type κ} → Run A → (A → Exec B) → Exec B
  continue (ok x) f a = f x a
  continue exited f a = (exited, a)
  continue threw f a = (threw, a)
  continue null_pointer f a = (null_pointer, a)

  abbrev pub pure {ℓ} : {A : Type ℓ} → A → Exec A
  pure x a = (ok x, a)

  abbrev pub lift {ℓ} : {A : Type ℓ} → Run A → Exec A
  lift r a = (r, a)

  abbrev pub gets {ℓ} : {A : Type ℓ} → (IceAdapter → A) → Exec A
  gets f a = (ok (f a), a)

  abbrev pub modify : (IceAdapter → IceAdapter) → Exec (Unit {0})
  modify f a = (ok tt, f a)

  -- `bind m f` runs `m`, and goes on if it returns.
  abbrev pub bind {ℓ κ} : {A : Type ℓ} {B : Type κ} → Exec A → (A → Exec B) → Exec B
  bind m f a = let (r, a') = m a in continue r f a'

  abbrev pub then_do {κ} : {B : Type κ} → Exec (Unit {0}) → Exec B → Exec B
  then_do m n = bind m (λ _. n)

  unfoldable pub send_request : Bytes → J.Value → IceAdapter → IceAdapter
  send_request method params a = record a { requests = a.requests ++ ((method, params) ∷ []) }
