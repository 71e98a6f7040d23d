-- ===== src/Db/Dsn/ReadBack.antt =====
-- exporter/db/dsn.go: what net/url and PostgreSQL read in the URI of a client.
use pgxporter.Prelude.{
  ℕ, ◌≡◌, ◌≢◌, refl, ap, ◌∙◌, inl, inr, false, some, List, [], ◌∷◌, ◌++◌, map, All, All-append,
  arith, Bool-cases,
}
use pgxporter.Prelude.Int.{ℤ, pos}
use pgxporter.Prelude.Bytes.{Bytes, is_empty, Lacks, codes, join}
use pgxporter.Prelude.Url.{is_delimiter, query_escape, read_back, IsByte}
use pgxporter.Prelude.Uri.{
  Uri, is_port, parse_uri, parse_query, parse_uri_lem, hierarchy_of_lem, authority_of_lem,
}
use pgxporter.Db.Dsn.{DsnOpts, itoa, params, add_parameters_to_dsn, with_params, dsn}
use pgxporter.Db.Dsn.Words.{IsPlain, itoa-IsPlain, itoa-is_port}
use pgxporter.Db.Dsn.Options.{options_text}
use pgxporter.Db.Dsn.Params.{
  given, params-Lacks, pairs, param_text, params-given, parse_query-params, AreBytes,
}
use pgxporter.Db.Dsn.Arguments.{arguments}
use pgxporter.Db.Dsn.Settings.{settings, itoa-IsByte, server_arguments, arguments-settings}
use pgxporter.Db.Dsn.OptionsPiece.{
  join-All, options_piece, append_options_params-piece, options_piece-Lacks, pair_of-options_piece,
}
use pgxporter.Db.Dsn.Authority.{
  userinfo, authority, hierarchy, regroup, unescape-path, userinfo_of-userinfo, plain-Lacks,
  hostport-Lacks, authority-Lacks, hierarchy-Lacks, read_password,
}

-- What net/url is to read.
pub record IsReadable (seconds : ℤ → Bytes) (o : DsnOpts) : Type 0 where
  pub user : All IsByte o.user
  pub password : All IsByte o.password
  pub database : All IsByte o.database
  pub application_name : All IsByte o.application_name
  pub host : All IsPlain o.host
  pub port : (n : ℕ) × (o.port ≡ pos n)
  pub times : (d : ℤ) → All IsByte (seconds d)

module _ (seconds : ℤ → Bytes) where
  abbrev query : DsnOpts → Bytes
  query o = join (codes "&") (map param_text (given (pairs seconds o)) ++ options_piece o ∷ [])

  with_params-append :
      (uri : Bytes) (ps : List Bytes) (p : Bytes)
      → with_params seconds uri (ps ++ p ∷ []) ≡ uri ++ b'?' ∷ join (codes "&") (ps ++ p ∷ [])
  with_params-append uri [] p = refl
  with_params-append uri (q ∷ ps) p = refl

  add_parameters_to_dsn_lem :
      (uri : Bytes) (o : DsnOpts)
      → add_parameters_to_dsn seconds uri o false ≡ uri ++ b'?' ∷ query o
  unfolding add_parameters_to_dsn
  add_parameters_to_dsn_lem uri o =
      ap (with_params seconds uri) (append_options_params-piece (params seconds o false) o)
      ∙ ap (λ ps. with_params seconds uri (ps ++ options_piece o ∷ [])) (params-given seconds o)
      ∙ with_params-append uri (map param_text (given (pairs seconds o))) (options_piece o)

  dsn_lem :
      (o : DsnOpts) → dsn seconds o ≡ codes "postgresql" ++ b':' ∷ (hierarchy o ++ b'?' ∷ query o)
  unfolding dsn codes
  dsn_lem o = elim (Bool-cases (is_empty o.password)) [
    | inl e ↦
        rw (e, add_parameters_to_dsn_lem)
          (ap (λ (r : Bytes). codes "postgresql://" ++ r)
            (regroup (query_escape o.user) o.host (itoa o.port) (query_escape o.database)
              (query o)))
    | inr e ↦
        rw (e, add_parameters_to_dsn_lem)
          (ap (λ (r : Bytes). codes "postgresql://" ++ r)
            (regroup (query_escape o.user ++ b':' ∷ query_escape o.password) o.host (itoa o.port)
              (query_escape o.database) (query o)))
  ]

  module _ (o : DsnOpts) (r : IsReadable seconds o) where
    given-AreBytes : (kvs : List (Bytes × Bytes)) → All AreBytes kvs → All AreBytes (given kvs)
    unfolding given
    given-AreBytes [] h = tt
    given-AreBytes ((k, []) ∷ kvs) h = given-AreBytes kvs h.1
    given-AreBytes ((k, c ∷ v) ∷ kvs) h = (h.0, given-AreBytes kvs h.1)

    pairs-AreBytes : All AreBytes (pairs seconds o)
    unfolding codes
    pairs-AreBytes = (
      (omega arith, r.application_name),
      (
        (omega arith, itoa-IsByte o.pool_max_conns),
        (
          (omega arith, itoa-IsByte o.pool_min_conns),
          (
            (omega arith, r.times o.pool_max_conn_lifetime),
            (
              (omega arith, r.times o.pool_max_conn_idle_time),
              ((omega arith, r.times o.pool_health_check_period), tt),
            ),
          ),
        ),
      ),
    )

    pairs-given-AreBytes : All AreBytes (given (pairs seconds o))
    pairs-given-AreBytes = given-AreBytes (pairs seconds o) pairs-AreBytes

    query-Lacks : Lacks b'#' (query o)
    unfolding codes is_delimiter
    query-Lacks =
        join-All (λ c. c ≢ b'#') (codes "&")
          (map param_text (given (pairs seconds o)) ++ options_piece o ∷ []) (omega arith)
          (params-Lacks b'#' (given (pairs seconds o)) (options_piece o) refl (omega arith)
            pairs-given-AreBytes (options_piece-Lacks b'#' o refl (omega arith)))

    dsn-Lacks : Lacks b'#' (codes "postgresql" ++ b':' ∷ (hierarchy o ++ b'?' ∷ query o))
    unfolding codes is_delimiter
    dsn-Lacks =
        All-append (λ c. c ≢ b'#') (codes "postgresql:") (hierarchy o ++ b'?' ∷ query o)
          (omega arith)
          (All-append (λ c. c ≢ b'#') (hierarchy o) (b'?' ∷ query o)
            (hierarchy-Lacks b'#' refl (omega arith) o (omega arith) (omega arith) r.user r.password
              r.database r.host)
            (omega arith, query-Lacks))

    read_query :
        parse_query (query o)
        ≡ given (pairs seconds o) ++ (codes "options", options_text (settings o)) ∷ []
    unfolding is_delimiter
    read_query =
        parse_query-params (given (pairs seconds o)) (options_piece o)
          (codes "options", options_text (settings o)) pairs-given-AreBytes
          (options_piece-Lacks b'&' o refl (omega arith)) (pair_of-options_piece o)

  -- What net/url reads in the URI.
  abbrev pub uri_of : DsnOpts → Bytes → Uri
  uri_of o options = record {
    scheme = codes "postgresql";
    user = map (read_back false) o.user;
    password = read_password o.password;
    host = o.host;
    port = itoa o.port;
    path = b'/' ∷ map (read_back false) o.database;
    query = given (pairs seconds o) ++ (codes "options", options) ∷ [];
  }

  -- If the texts of Opts are bytes, the host has only letters, digits and -_.~, the port is not
  -- negative, and the texts of the durations are bytes, then net/url takes the URI that DSN writes
  -- apart into the host, the decimal port, the user, the password if there is one, and the database
  -- behind a slash, all three as given but for a space, which is read as a plus, and into the
  -- parameters that have a value, in order, with the values given, and options; PostgreSQL takes
  -- the value of options apart into the arguments for the isolation level, the time zone and the
  -- three timeouts in milliseconds.
  pub parse_uri-dsn :
      (o : DsnOpts)
      → IsReadable seconds o
      → (options : Bytes) × (parse_uri (dsn seconds o) ≡ some (uri_of o options))
        × (arguments options ≡ server_arguments o)
  unfolding is_delimiter codes
  parse_uri-dsn o r = (
    options_text (settings o),
    (ap parse_uri (dsn_lem o)
        ∙ parse_uri_lem (codes "postgresql") (hierarchy o) (query o) (authority o)
            (b'/' ∷ map (read_back false) o.database) (map (read_back false) o.user)
            (read_password o.password) o.host (itoa o.port) (dsn-Lacks o r) (omega arith)
            (hierarchy-Lacks b'?' refl (omega arith) o (omega arith) (omega arith) r.user r.password
              r.database r.host)
            (hierarchy_of_lem (authority o) (query_escape o.database) _
              (authority-Lacks b'/' refl (omega arith) o (omega arith) r.user r.password r.host)
              (unescape-path o.database r.database))
            (authority_of_lem (userinfo o) o.host (itoa o.port) _ _
              (userinfo_of-userinfo o r.user r.password)
              (hostport-Lacks b'@' refl (omega arith) o r.host)
              (plain-Lacks b':' refl (itoa o.port) (itoa-IsPlain o.port))
              (ap (λ p. is_port (itoa p)) r.port.1 ∙ itoa-is_port r.port.0))
        ∙ ap (λ q. some (record (uri_of o (options_text (settings o))) { query = q }))
            (read_query o r)),
    arguments-settings o,
  )
