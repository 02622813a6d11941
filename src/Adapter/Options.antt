-- ===== src/Adapter/Options.antt =====
-- IceAdapterOptions.cpp `init` from the command line. What cxxopts makes of the arguments is a
-- parameter.
use ice_adapter.Base.{
  ℕ, ◌≡◌, refl, ℤ, pos, Bytes, false, List, [], Option, none, some, codes, if◌then◌else◌, ◌==◌, ap,
  ◌∙◌,
}
use ice_adapter.Adapter.State.{IceAdapterOptions, init_options}

-- `count`, and the values that the options hand to the variables that they name.
pub record Parsed : Type 0 where
  pub count : Bytes → ℕ
  pub int_value : Bytes → ℤ
  pub string_value : Bytes → Bytes

-- How `init` ends: by `std::exit` with a code, by an exception of `parse`, or with options.
pub data Started : Type 0 where
  exits : ℕ → Started
  threw : Started
  starts : IceAdapterOptions → Started

-- A variable keeps its default if its option is not given.
abbrev pub given : {A : Type 0} → ℕ → A → A → A
given n default x = if n == 0 then default else x

-- The player's id has no default, and is read only where the option is given.
abbrev pub options_of : Parsed → IceAdapterOptions
options_of p = record {
  local_player_id = p.int_value (codes "id");
  local_player_login = given (p.count (codes "login")) [] (p.string_value (codes "login"));
  rpc_port = given (p.count (codes "rpc-port")) (pos 7236) (p.int_value (codes "rpc-port"));
  gpg_net_port = given (p.count (codes "gpgnet-port")) (pos 0) (p.int_value (codes "gpgnet-port"));
  game_udp_port = given (p.count (codes "lobby-port")) (pos 0) (p.int_value (codes "lobby-port"));
  log_directory =
      given (p.count (codes "log-directory")) [] (p.string_value (codes "log-directory"));
  log_level =
      given (p.count (codes "log-level")) (codes "info") (p.string_value (codes "log-level"));
}

abbrev pub checked : Parsed → Started
checked p =
    if p.count (codes "help") == 0
    then (if p.count (codes "version") == 0
        then (if p.count (codes "id") == 0
            then exits 1
            else if p.count (codes "login") == 0
            then exits 1
            else starts (options_of p))
        else exits 0)
    else exits 0

abbrev pub checked_if : Option Parsed → Started
checked_if none = threw
checked_if (some p) = checked p

unfoldable pub init : (List Bytes → Option Parsed) → List Bytes → Started
init parse arguments = checked_if (parse arguments)

-- Of the options only the id and the login are given.
pub record IsPlain (p : Parsed) : Type 0 where
  pub no_help : p.count (codes "help") ≡ 0
  pub no_version : p.count (codes "version") ≡ 0
  pub id_given : (p.count (codes "id") == 0) ≡ false
  pub login_given : (p.count (codes "login") == 0) ≡ false
  pub no_rpc_port : p.count (codes "rpc-port") ≡ 0
  pub no_gpgnet_port : p.count (codes "gpgnet-port") ≡ 0
  pub no_lobby_port : p.count (codes "lobby-port") ≡ 0
  pub no_directory : p.count (codes "log-directory") ≡ 0
  pub no_level : p.count (codes "log-level") ≡ 0

-- With the id and the login alone, the command line gives the options of the other `init`.
pub init_plain :
    (parse : List Bytes → Option Parsed) (arguments : List Bytes) (p : Parsed)
    → parse arguments ≡ some p
    → IsPlain p
    → init parse arguments
      ≡ starts (init_options (p.int_value (codes "id")) (p.string_value (codes "login")))
unfolding init init_options
init_plain parse arguments p e plain =
    ap checked_if e
    ∙ rw
        (
          plain.no_help, plain.no_version, plain.id_given, plain.login_given, plain.no_rpc_port,
          plain.no_gpgnet_port, plain.no_lobby_port, plain.no_directory, plain.no_level,
        )
        refl
