-- ===== src/Db/Auth.antt =====
-- exporter/db/auth.go and exporter/db/auth/awsrds/awsrds.go: who gives the password of a connection,
-- and the part of New in exporter/db/db.go that configures the pool.
use pgxporter.Prelude.{ℕ, String, ◌<>◌, Option, none, some, str_eq, if◌then◌else◌}
use pgxporter.Prelude.Int.{ℤ}
use pgxporter.Prelude.Decimal.{show_ℤ}
use pgxporter.Collectors.{Fetched, rows, failed}

-- AuthProvider: Password for a host, a port and a user. A provider with a state answers each call
-- anew, so the number of the call, counted by the pool, is an argument.
pub record AuthProvider : Type 0 where
  pub password : ℕ → String → ℤ → String → Fetched String

-- StaticAuthProvider
unfoldable pub static_auth_provider : String → AuthProvider
static_auth_provider pwd = record { password = λ n host port user. rows pwd }

-- awsrds.Provider; `Credentials` are those of the AWS SDK.
pub record Provider (Credentials : Type 0) : Type 0 where
  pub region : String
  pub credentials : Option Credentials

module _ {Credentials : Type 0} where
  -- `build_auth_token` is rdsauth.BuildAuthToken in the n-th call, of an endpoint, a region and a user.
  unfoldable pub rds_password :
      (ℕ → String → String → String → Credentials → Fetched String)
      → Provider Credentials
      → ℕ
      → String
      → ℤ
      → String
      → Fetched String
  rds_password build_auth_token p n host port user =
      if str_eq p.region "" then failed "awsrds: Region is required" else elim p.credentials [
        | none ↦ failed "awsrds: Credentials is required"
        | some c ↦ build_auth_token n (host <> (":" <> show_ℤ port)) p.region user c
      ]

  unfoldable pub rds_provider :
      (ℕ → String → String → String → Credentials → Fetched String)
      → Provider Credentials
      → AuthProvider
  unfolding rds_password
  rds_provider build_auth_token p = record { password = rds_password build_auth_token p }

  -- NewDefault; `load` is config.LoadDefaultConfig for a region.
  unfoldable pub new_default :
      (String → Fetched (Option Credentials)) → String → Fetched (Provider Credentials)
  new_default load region = elim (load region) [
    | failed e ↦ failed ("loading AWS default config: " <> e)
    | rows c ↦ rows (record { region = region; credentials = c })
  ]

-- The fields of pgx.ConnConfig that the hook and the connection use.
pub record ConnConfig : Type 0 where
  pub host : String
  pub port : ℤ
  pub user : String
  pub password : String

pub data QueryExecMode : Type 0 where
  cache_statement cache_describe : QueryExecMode
  -- the mode that the parse of the URI gives
  parsed_mode : QueryExecMode

-- pgxpool.Config
pub record PoolConfig : Type 0 where
  pub conn_config : ConnConfig
  pub default_query_exec_mode : QueryExecMode
  pub before_connect : Option AuthProvider

-- The switch on StatementCacheMode.
unfoldable pub exec_mode : String → QueryExecMode → QueryExecMode
exec_mode mode old =
    if str_eq mode "prepare"
    then cache_statement
    else if str_eq mode "describe"
    then cache_describe
    else old

-- The hook that New makes of a provider, in the n-th connection: the configuration that the pool
-- connects with, or an error.
unfoldable pub before_connect : AuthProvider → ℕ → ConnConfig → Fetched ConnConfig
before_connect provider n cc = elim (provider.password n cc.host cc.port cc.user) [
  | failed e ↦ failed ("auth provider: " <> e)
  | rows pwd ↦ rows (record cc { password = pwd })
]

-- New, from the parse of the URI to the loop.
unfoldable pub configure : String → Option AuthProvider → Fetched PoolConfig → Fetched PoolConfig
unfolding exec_mode
configure statement_cache_mode provider (failed e) = failed e
configure statement_cache_mode provider (rows config) =
    let mode = exec_mode statement_cache_mode config.default_query_exec_mode in
    elim provider [
      | none ↦ rows (record config { default_query_exec_mode = mode })
      | some p ↦ rows (record config { default_query_exec_mode = mode; before_connect = some p })
    ]

-- The n-th connection of a pool: pgxpool copies the configuration and calls the hook, if there is one.
unfoldable pub connect : PoolConfig → ℕ → Fetched ConnConfig
unfolding before_connect
connect config n = elim config.before_connect [
  | none ↦ rows config.conn_config
  | some p ↦ before_connect p n config.conn_config
]

-- The n-th connection of the pool that New makes, once the URI is parsed.
unfoldable pub open_connection :
    String → Option AuthProvider → Fetched PoolConfig → ℕ → Fetched ConnConfig
unfolding configure connect
open_connection statement_cache_mode provider parsed n =
    elim (configure statement_cache_mode provider parsed) [
      | failed e ↦ failed e
      | rows config ↦ connect config n
    ]
