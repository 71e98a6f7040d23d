-- ===== src/Db.antt =====
-- exporter/db/db.go: the client of one PostgreSQL server.
pub mod Version
pub mod Connect
pub mod Queries
pub mod Statements
pub mod Select
pub mod Dsn
pub mod Auth
pub mod Documented
pub mod Honest
pub mod Columns
use pgxporter.Prelude.{
  ℕ, suc, zero, ◌+◌, ◌*◌, String, Bool, true, false, not, ◌&&◌, ◌||◌, Option, none, some, List, [],
  ◌∷◌, str_eq, if◌then◌else◌,
}
use pgxporter.Prelude.Int.{ℤ, pos, negsuc, ◌+ℤ◌, ◌*ℤ◌, to_int64, ltb_ℤ, leb_ℤ}
use pgxporter.Collectors.{Fetched, rows, failed}

-- pgx.TxIsoLevel and pgx.TxAccessMode, as far as they are used.
pub data TxIsoLevel : Type 0 where
  read_committed serializable repeatable_read : TxIsoLevel

pub data TxAccessMode : Type 0 where
  read_write read_only : TxAccessMode

pub record TxOptions : Type 0 where
  pub iso_level : TxIsoLevel
  pub access_mode : TxAccessMode

-- The fields of Opts that db.go reads after the pool's configuration is parsed.
pub record Opts : Type 0 where
  pub default_isolation_level : String
  pub read_only : Bool
  pub max_connection_retries : ℤ

-- Client. `has_pool` is `c.pool != nil`, and a `server_version_num` of 0 is unknown.
pub record Client : Type 0 where
  pub opts : Opts
  pub has_pool : Bool
  pub tx_options : TxOptions
  pub server_version_num : ℤ

unfoldable pub is_zero : ℤ → Bool
is_zero (pos zero) = true
is_zero (pos (suc n)) = false
is_zero (negsuc n) = false

unfoldable pub is_minus_one : ℤ → Bool
is_minus_one (pos n) = false
is_minus_one (negsuc zero) = true
is_minus_one (negsuc (suc n)) = false

-- probeServerVersion. `answer` is what the query for server_version_num returns, if it is made. The
-- mutex makes one call one step.
unfoldable pub probe_server_version : Fetched ℤ → Client → Client × Option String
unfolding is_zero
probe_server_version answer c =
    if not (is_zero c.server_version_num) then (c, none) else elim answer [
      | failed err ↦ (c, some err)
      | rows v ↦ (record c { server_version_num = v }, none)
    ]

unfoldable pub reprobe : Fetched ℤ → Client → Client
unfolding probe_server_version
reprobe answer c =
    if is_zero c.server_version_num && c.has_pool then (probe_server_version answer c).0 else c

-- The comparison of AtLeast; an unknown version reaches none.
unfoldable pub reaches : ℤ → ℤ → ℤ → Bool
unfolding is_zero to_int64
reaches version major minor =
    if is_zero version then false else leb_ℤ (to_int64 (major *ℤ pos 10000 +ℤ minor)) version

unfoldable pub at_least : Fetched ℤ → Client → ℤ → ℤ → Client × Bool
unfolding reprobe reaches
at_least answer c major minor =
    let c' = reprobe answer c in (c', reaches c'.server_version_num major minor)

unfoldable pub default_isolation_level : String → TxIsoLevel
default_isolation_level iso_level =
    if str_eq iso_level "READ_COMMITTED"
    then read_committed
    else if str_eq iso_level "SERIALIZABLE"
    then serializable
    else repeatable_read

unfoldable pub set_tx_options : Opts → Client → Client
unfolding default_isolation_level
set_tx_options opts c = record c {
  tx_options = record {
    iso_level = default_isolation_level opts.default_isolation_level;
    access_mode = if opts.read_only then TxAccessMode.read_only else read_write;
  };
}

-- One call of pgxpool.NewWithConfig: a pool, with what its first query answers; an error that is not
-- ctx.Err(); or ctx.Err().
pub data Attempt : Type 0 where
  opened : Fetched ℤ → Attempt
  refused : String → Attempt
  cancelled : String → Attempt

-- What New returns: a client, an error, or neither.
pub data NewResult : Type 0 where
  client : Client → NewResult
  error : String → NewResult
  nothing : NewResult

-- What New returns, and how often it has slept for connectRetryWait.
pub record Connected : Type 0 where
  pub result : NewResult
  pub sleeps : ℕ

abbrev unset : TxOptions
unset = record { iso_level = repeatable_read; access_mode = read_write }

unfoldable pub new_client : Opts → Fetched ℤ → Client
unfolding probe_server_version set_tx_options
new_client opts answer =
    (probe_server_version answer (
      set_tx_options opts (record {
        opts = opts;
        has_pool = true;
        tx_options = unset;
        server_version_num = pos 0;
      }))).0

unfoldable pub last_error : Option String → NewResult
last_error none = nothing
last_error (some err) = error err

-- The loop's condition, and that of the Sleep in it.
unfoldable pub goes_on : ℕ → ℤ → Bool
unfolding is_minus_one
goes_on i max = leb_ℤ (pos i) max || is_minus_one max

unfoldable pub waits : ℕ → ℤ → Bool
unfolding is_zero
waits i max = ltb_ℤ (pos i) max && not (is_zero max)

-- The loop of New from its `i`-th round on, `err` being the error of the round before. `none` is
-- fuel that does not suffice.
unfoldable pub retry : Opts → (ℕ → Attempt) → ℕ → ℕ → Option String → ℕ → Option Connected
unfolding new_client last_error goes_on waits
retry opts attempts zero i err sleeps = none
retry opts attempts (suc fuel) i err sleeps =
    if goes_on i opts.max_connection_retries
    then elim (attempts i) [
      | opened answer ↦ some (record { result = client (new_client opts answer); sleeps = sleeps })
      | cancelled e ↦ some (record { result = error e; sleeps = sleeps })
      | refused e ↦
          retry opts attempts fuel (suc i) (some e)
            (if waits i opts.max_connection_retries then suc sleeps else sleeps)
    ]
    else some (record { result = last_error err; sleeps = sleeps })

-- New, once the configuration is parsed.
unfoldable pub new : Opts → (ℕ → Attempt) → ℕ → Option Connected
unfolding retry
new opts attempts fuel = retry opts attempts fuel 0 none 0
