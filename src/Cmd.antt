-- ===== src/Cmd.antt =====
-- cmd/main.go: the reference binary.
pub mod Options
pub mod Runs
use pgxporter.Prelude.{
  ℕ, ◌*◌, String, Option, none, some, List, [], ◌∷◌, ◌++◌, str_eq, if◌then◌else◌,
}
use pgxporter.Prelude.Int.{ℤ, pos}
use pgxporter.Prelude.Bytes.{Bytes, is_empty, codes}
use pgxporter.Vec.{lookup}
use pgxporter.Collectors.{Fetched, rows, failed}
use pgxporter.Db.Dsn.{DsnOpts}

-- The fields of pgconn.Config that parseDSN reads.
pub record Config : Type 0 where
  pub host : Bytes
  pub port : ℕ
  pub user : Bytes
  pub password : Bytes
  pub database : Bytes
  pub runtime_params : List (String × Bytes)

-- The db.Opts that parseDSN makes; the fields that it leaves out are zero.
pub record CmdOpts : Type 0 where
  pub dsn_opts : DsnOpts
  pub connect_timeout : ℤ
  pub statement_cache_mode : String
  pub max_connection_retries : ℤ

-- time.Second, in nanoseconds.
abbrev pub second : ℕ
second = 1000000000

unfoldable pub application_name_or : Config → Bytes → Bytes
application_name_or cfg fallback = elim (lookup "application_name" cfg.runtime_params) [
  | none ↦ fallback
  | some v ↦ if is_empty v then fallback else v
]

unfoldable pub opts_of : Config → CmdOpts
unfolding application_name_or
opts_of cfg = record {
  dsn_opts = record {
    host = cfg.host;
    port = pos cfg.port;
    user = cfg.user;
    password = cfg.password;
    database = cfg.database;
    application_name = application_name_or cfg (codes "pgxporter");
    default_isolation_level = "";
    statement_timeout = pos 0;
    lock_timeout = pos 0;
    idle_in_transaction_session_timeout = pos 0;
    pool_max_conns = pos 4;
    pool_min_conns = pos 1;
    pool_max_conn_lifetime = pos (3600 * second);
    pool_max_conn_idle_time = pos (1800 * second);
    pool_health_check_period = pos (60 * second);
  };
  connect_timeout = pos (10 * second);
  statement_cache_mode = "prepare";
  max_connection_retries = pos 0;
}

-- parseDSN; `parse_config` is pgconn.ParseConfig.
unfoldable pub parse_dsn : (Bytes → Fetched Config) → Bytes → Fetched CmdOpts
unfolding opts_of
parse_dsn parse_config dsn = elim (parse_config dsn) [
  | failed e ↦ failed e
  | rows cfg ↦ rows (opts_of cfg)
]

pub data Level : Type 0 where
  debug info warn error : Level

unfoldable pub new_logger : String → Level
new_logger level =
    if str_eq level "debug"
    then debug
    else if str_eq level "warn"
    then warn
    else if str_eq level "error"
    then error
    else info

-- What main does, as far as it is seen from outside: it makes an exporter, which opens the pools,
-- registers it, listens, shuts the server and the exporter down, or exits with a code.
pub data Did : Type 0 where
  logs_at : Level → Did
  opens : CmdOpts → Did
  registers listens shuts_server shuts_exporter : Did
  exits : ℕ → Did

-- What ends the select of main: a signal, or the error of the listener.
pub data Event : Type 0 where
  signalled : Event
  listener_failed : String → Event

unfoldable pub after_event : Event → List Did
after_event signalled = shuts_server ∷ shuts_exporter ∷ []
after_event (listener_failed e) = exits 1 ∷ []

unfoldable pub after_register : Option String → Event → List Did
unfolding after_event
after_register (some e) event = exits 1 ∷ []
after_register none event = listens ∷ after_event event

-- `new` is what exporter.New returns, and `register` what Register of the registry does.
unfoldable pub after_parse : Option String → Option String → Event → List Did
unfolding after_register
after_parse (some e) register event = exits 1 ∷ []
after_parse none register event = registers ∷ after_register register event

unfoldable pub main :
    String
    → Bytes
    → (Bytes → Fetched Config)
    → (CmdOpts → Option String)
    → Option String
    → Event
    → List Did
unfolding new_logger parse_dsn after_parse
main log_level dsn parse_config new register event =
    logs_at (new_logger log_level)
    ∷ (if is_empty dsn then exits 2 ∷ [] else elim (parse_dsn parse_config dsn) [
      | failed e ↦ exits 2 ∷ []
      | rows opts ↦ opens opts ∷ after_parse (new opts) register event
    ])
