-- ===== src/Db/Dsn.antt =====
-- exporter/db/dsn.go: the connection URI of a client. Texts are bytes here.
pub mod Reads
pub mod Words
pub mod Options
pub mod Arguments
pub mod Params
pub mod Settings
pub mod OptionsPiece
pub mod Authority
pub mod ReadBack
use pgxporter.Prelude.{
  ℕ, suc, zero, ◌/◌, ◌<>◌, String, Bool, true, false, not, ◌&&◌, ◌||◌, List, [], ◌∷◌, ◌++◌, map,
  ◌==◌, if◌then◌else◌,
}
use pgxporter.Prelude.Int.{ℤ, pos, negsuc, minus}
use pgxporter.Prelude.Decimal.{show_ℤ}
use pgxporter.Prelude.Bytes.{Bytes, is_empty, codes, join, push}
use pgxporter.Prelude.Url.{query_escape}
use pgxporter.Db.{
  TxIsoLevel, read_committed, serializable, repeatable_read, default_isolation_level,
}

-- The fields of Opts that dsn.go reads; durations are in nanoseconds.
pub record DsnOpts : Type 0 where
  pub host : Bytes
  pub port : ℤ
  pub user : Bytes
  pub password : Bytes
  pub database : Bytes
  pub application_name : Bytes
  pub default_isolation_level : String
  pub statement_timeout : ℤ
  pub lock_timeout : ℤ
  pub idle_in_transaction_session_timeout : ℤ
  pub pool_max_conns : ℤ
  pub pool_min_conns : ℤ
  pub pool_max_conn_lifetime : ℤ
  pub pool_max_conn_idle_time : ℤ
  pub pool_health_check_period : ℤ

-- strconv.Itoa, and the verbs %d and %v of an integer.
unfoldable pub itoa : ℤ → Bytes
itoa n = codes (show_ℤ n)

-- Duration.Milliseconds, which rounds towards zero.
unfoldable pub milliseconds : ℤ → ℤ
unfolding minus
milliseconds (pos n) = pos (n / 1000000)
milliseconds (negsuc n) = minus (suc n / 1000000)

-- The texts of the constants of pgx.TxIsoLevel.
unfoldable pub iso_text : TxIsoLevel → Bytes
iso_text read_committed = codes "read committed"
iso_text serializable = codes "serializable"
iso_text repeatable_read = codes "repeatable read"

unfoldable pub is_space : ℕ → Bool
is_space c = c == b' ' || (c == 9 || (c == 10 || (c == 11 || (c == 12 || c == 13))))

unfoldable pub pieces : Bytes → List Bytes
unfolding is_space push
pieces [] = [] ∷ []
pieces (c ∷ s) = let rest = pieces s in if is_space c then [] ∷ rest else push c rest

unfoldable pub keep : List Bytes → List Bytes
keep [] = []
keep (p ∷ ps) = if is_empty p then keep ps else p ∷ keep ps

-- strings.Fields of an ASCII text.
unfoldable pub fields : Bytes → List Bytes
unfolding pieces keep
fields s = keep (pieces s)

unfoldable pub format_options_param : Bytes → Bytes
unfolding fields
format_options_param str = join (codes "\\%20") (map query_escape (fields str))

unfoldable pub append_param : List Bytes → Bytes → Bytes → List Bytes
append_param p key value =
    if not (is_empty key) && not (is_empty value)
    then p ++ (query_escape key ++ b'=' ∷ query_escape value) ∷ []
    else p

unfoldable pub append_options_param : List Bytes → Bytes → Bytes → List Bytes
unfolding format_options_param
append_options_param op key value =
    if not (is_empty key) && not (is_empty value)
    then op
      ++ (codes "-c"
          ++ (format_options_param key ++ (query_escape (codes "=") ++ format_options_param value)))
        ∷ []
    else op

unfoldable pub append_options_params : List Bytes → List Bytes → List Bytes
append_options_params p [] = p
append_options_params p (o ∷ os) = p ++ (codes "options=" ++ join (codes "%20") (o ∷ os)) ∷ []

-- optionParams of addParametersToDSN.
unfoldable pub option_params : DsnOpts → List Bytes
unfolding append_options_param itoa milliseconds iso_text default_isolation_level
option_params o =
    let iso = default_isolation_level o.default_isolation_level in
    let op = append_options_param [] (codes "default_transaction_isolation") (iso_text iso) in
    let op = append_options_param op (codes "timezone") (codes "UTC") in
    let op =
      append_options_param op (codes "statement_timeout")
        (itoa (milliseconds o.statement_timeout)) in
    let op = append_options_param op (codes "lock_timeout") (itoa (milliseconds o.lock_timeout)) in
    append_options_param op (codes "idle_in_transaction_session_timeout")
      (itoa (milliseconds o.idle_in_transaction_session_timeout))

-- `seconds` is fmt.Sprintf("%.0fs", d.Seconds()).
module _ (seconds : ℤ → Bytes) where
  -- params of addParametersToDSN, before the options.
  unfoldable pub params : DsnOpts → Bool → List Bytes
  unfolding append_param itoa
  params o postgres_compatible =
      let p = append_param [] (codes "application_name") o.application_name in
      if postgres_compatible
      then p
      else (let p = append_param p (codes "pool_max_conns") (itoa o.pool_max_conns) in
          let p = append_param p (codes "pool_min_conns") (itoa o.pool_min_conns) in
          let p =
            append_param p (codes "pool_max_conn_lifetime") (seconds o.pool_max_conn_lifetime) in
          let p =
            append_param p (codes "pool_max_conn_idle_time") (seconds o.pool_max_conn_idle_time) in
          append_param p (codes "pool_health_check_period") (seconds o.pool_health_check_period))

  abbrev pub with_params : Bytes → List Bytes → Bytes
  with_params dsn [] = dsn
  with_params dsn (p ∷ ps) = dsn ++ b'?' ∷ join (codes "&") (p ∷ ps)

  unfoldable pub add_parameters_to_dsn : Bytes → DsnOpts → Bool → Bytes
  unfolding params append_options_params option_params
  add_parameters_to_dsn dsn o postgres_compatible =
      with_params dsn (append_options_params (params o postgres_compatible) (option_params o))

  unfoldable pub dsn : DsnOpts → Bytes
  unfolding add_parameters_to_dsn itoa
  dsn o =
      let uri = codes "postgresql://" ++ query_escape o.user in
      let uri = (if is_empty o.password then uri else uri ++ b':' ∷ query_escape o.password) in
      add_parameters_to_dsn
        (uri ++ b'@' ∷ (o.host ++ b':' ∷ (itoa o.port ++ b'/' ∷ query_escape o.database))) o false
