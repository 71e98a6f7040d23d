-- ===== src/Cmd/Options.antt =====
-- cmd/main.go: parseDSN, with the URI that exporter/db/dsn.go makes of what it returns.
use pgxporter.Prelude.{
  ℕ, ◌*◌, ◌<◌, ◌≡◌, ◌≢◌, refl, ap, inl, inr, false, Option, none, some, List, [], ◌∷◌, ◌++◌, map,
  All, arith, if◌then◌else◌, Bool-cases, Option-cases,
}
use pgxporter.Prelude.Int.{ℤ, pos}
use pgxporter.Prelude.Bytes.{Bytes, is_empty, codes}
use pgxporter.Prelude.Url.{IsByte, read_back}
use pgxporter.Prelude.Uri.{Uri, parse_uri}
use pgxporter.Vec.{lookup}
use pgxporter.Collectors.{Fetched, rows}
use pgxporter.Prelude.Decimal.{show_ℤ}
use pgxporter.Db.{default_isolation_level}
use pgxporter.Db.Dsn.{itoa, iso_text, milliseconds, dsn}
use pgxporter.Db.Dsn.Authority.{read_password}
use pgxporter.Db.Dsn.Params.{given}
use pgxporter.Db.Dsn.Words.{IsPlain}
use pgxporter.Db.Dsn.ReadBack.{IsReadable, uri_of, parse_uri-dsn}
use pgxporter.Db.Dsn.Arguments.{arguments}
use pgxporter.Cmd.{second, Config, CmdOpts, application_name_or, opts_of, parse_dsn}

abbrev pub IsSpaceless : ℕ → Type 0
IsSpaceless c = (c < 256) × (c ≢ b' ')

-- A configuration that can be written as a URI and read again.
pub record IsWritable (seconds : ℤ → Bytes) (cfg : Config) : Type 0 where
  pub user : All IsSpaceless cfg.user
  pub password : All IsSpaceless cfg.password
  pub database : All IsSpaceless cfg.database
  pub application_name : All IsByte (application_name_or cfg (codes "pgxporter"))
  pub host : All IsPlain cfg.host
  pub times : (d : ℤ) → All IsByte (seconds d)

read_back_byte : (c : ℕ) → c ≢ b' ' → read_back false c ≡ c
read_back_byte c h = ground arith

map-read_back : (s : Bytes) → All IsSpaceless s → map (read_back false) s ≡ s
map-read_back [] h = refl
map-read_back (c ∷ s) h = cc (read_back_byte c h.0.1, map-read_back s h.1)

spaceless-IsByte : (s : Bytes) → All IsSpaceless s → All IsByte s
spaceless-IsByte [] h = tt
spaceless-IsByte (c ∷ s) h = (h.0.0, spaceless-IsByte s h.1)

-- The name of the application is never empty.
application_name_or-given :
    (cfg : Config) → is_empty (application_name_or cfg (codes "pgxporter")) ≡ false
unfolding application_name_or codes
application_name_or-given cfg = elim (Option-cases (lookup "application_name" cfg.runtime_params)) [
  | inl e ↦ rw (e, application_name_or) refl
  | inr (v, e) ↦ elim (Bool-cases (is_empty v)) [
    | inl f ↦ rw (e, application_name_or, f) refl
    | inr f ↦ rw (e, application_name_or, f) f
  ]
]

abbrev pub written_password : Bytes → Option Bytes
written_password p = if is_empty p then none else some p

read_password-written : (p : Bytes) → All IsSpaceless p → read_password p ≡ written_password p
read_password-written [] h = refl
read_password-written (c ∷ p) h = ap some (map-read_back (c ∷ p) h)

given-first :
    (k v : Bytes) (kvs : List (Bytes × Bytes))
    → is_empty v ≡ false
    → given ((k, v) ∷ kvs) ≡ (k, v) ∷ given kvs
unfolding given
given-first k v kvs h = rw h refl

-- What the options ask of each session.
abbrev pub session_arguments : List Bytes
session_arguments =
    codes "-cdefault_transaction_isolation=repeatable read"
    ∷ codes "-ctimezone=UTC"
    ∷ codes "-cstatement_timeout=0"
    ∷ codes "-clock_timeout=0"
    ∷ codes "-cidle_in_transaction_session_timeout=0"
    ∷ []

module _ (seconds : ℤ → Bytes) where
  -- The sizes and times of the pool.
  abbrev pub pool_pairs : List (Bytes × Bytes)
  pool_pairs =
      (codes "pool_max_conns", codes "4")
      ∷ (codes "pool_min_conns", codes "1")
      ∷ (codes "pool_max_conn_lifetime", seconds (pos (3600 * second)))
      ∷ (codes "pool_max_conn_idle_time", seconds (pos (1800 * second)))
      ∷ (codes "pool_health_check_period", seconds (pos (60 * second)))
      ∷ []

  opts-IsReadable :
      (cfg : Config) → IsWritable seconds cfg → IsReadable seconds (opts_of cfg).dsn_opts
  unfolding opts_of
  opts-IsReadable cfg w = record {
    user = spaceless-IsByte cfg.user w.user;
    password = spaceless-IsByte cfg.password w.password;
    database = spaceless-IsByte cfg.database w.database;
    application_name = w.application_name;
    host = w.host;
    port = (cfg.port, refl);
    times = w.times;
  }

  -- What net/url reads in the URI that db.New makes of the options of parseDSN.
  pub record Reads (cfg : Config) (u : Uri) : Type 0 where
    pub user : u.user ≡ cfg.user
    pub password : u.password ≡ written_password cfg.password
    pub host : u.host ≡ cfg.host
    pub port : u.port ≡ itoa (pos cfg.port)
    pub path : u.path ≡ b'/' ∷ cfg.database
    pub query :
        (options : Bytes) × (u.query
          ≡ (codes "application_name", application_name_or cfg (codes "pgxporter"))
              ∷ given pool_pairs
            ++ (codes "options", options) ∷ [])
        × (arguments options ≡ session_arguments)

  -- If pgconn parses the text, the user, password and database have no space, the host has only
  -- letters, digits and -_.~, and the texts are bytes, then net/url reads the same host, port,
  -- user, password and database in the URI that DSN makes of the options of parseDSN; its query has
  -- the application name, or pgxporter if it is empty or missing, the sizes and times of the pool,
  -- and options for a session with repeatable read, UTC and no timeouts, and nothing else.
  pub parse_dsn-Reads :
      (parse_config : Bytes → Fetched Config) (text : Bytes) (cfg : Config)
      → parse_config text ≡ rows cfg
      → IsWritable seconds cfg
      → (opts : CmdOpts) × (u : Uri) × (parse_dsn parse_config text ≡ rows opts)
        × (parse_uri (dsn seconds opts.dsn_opts) ≡ some u)
        × Reads cfg u
  unfolding parse_dsn opts_of itoa codes show_ℤ iso_text milliseconds default_isolation_level
  parse_dsn-Reads parse_config text cfg e w =
      let (options, p, a) = parse_uri-dsn seconds (opts_of cfg).dsn_opts (opts-IsReadable cfg w) in
      (
        opts_of cfg,
        uri_of seconds (opts_of cfg).dsn_opts options,
        rw (e, parse_dsn) refl,
        p,
        record {
          user = map-read_back cfg.user w.user;
          password = read_password-written cfg.password w.password;
          host = refl;
          port = refl;
          path = ap (λ d. b'/' ∷ d) (map-read_back cfg.database w.database);
          query = (
            options,
            ap (λ q. q ++ (codes "options", options) ∷ [])
                (given-first (codes "application_name")
                  (application_name_or cfg (codes "pgxporter")) pool_pairs
                  (application_name_or-given cfg)),
            a,
          );
        },
      )
