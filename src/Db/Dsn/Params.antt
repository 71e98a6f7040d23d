-- ===== src/Db/Dsn/Params.antt =====
-- exporter/db/dsn.go: the parameters of the URI, and how its query is read.
use pgxporter.Prelude.{
  ℕ, ◌≡◌, ◌≢◌, refl, ap, sym, ◌∙◌, true, false, some, List, [], ◌∷◌, ◌++◌, map, append-nil,
  append_assoc, All, All-append, arith, if◌then◌else◌,
}
use pgxporter.Prelude.Int.{ℤ}
use pgxporter.Prelude.Bytes.{Bytes, is_empty, Lacks, codes, join, split-join}
use pgxporter.Prelude.Url.{
  is_delimiter, query_escape, query_unescape, IsByte, query_escape-IsSafe, safe-Lacks,
}
use pgxporter.Prelude.Uri.{pair_of, pair_of_lem, pairs_of, parse_query}
use pgxporter.Db.Dsn.{DsnOpts, itoa, append_param, params}
use pgxporter.Db.Dsn.Reads.{Reads-query_escape, Reads-all, map-read_back}

-- The pairs that have a value.
unfoldable pub given : List (Bytes × Bytes) → List (Bytes × Bytes)
given [] = []
given ((k, v) ∷ kvs) = if is_empty v then given kvs else (k, v) ∷ given kvs

abbrev pub param_text : Bytes × Bytes → Bytes
param_text (k, v) = query_escape k ++ b'=' ∷ query_escape v

append_all : List Bytes → List (Bytes × Bytes) → List Bytes
append_all p [] = p
append_all p ((k, v) ∷ kvs) = append_all (append_param p k v) kvs

abbrev HasKey : Bytes × Bytes → Type 0
HasKey (k, v) = is_empty k ≡ false

append_all-given :
    (p : List Bytes) (kvs : List (Bytes × Bytes))
    → All HasKey kvs
    → append_all p kvs ≡ p ++ map param_text (given kvs)
unfolding append_all append_param given
append_all-given p [] h = sym (append-nil p)
append_all-given p ((k, []) ∷ kvs) h = rw h.0 (append_all-given p kvs h.1)
append_all-given p ((k, c ∷ v) ∷ kvs) h = rw h.0 (
    append_all-given (p ++ param_text (k, c ∷ v) ∷ []) kvs h.1
    ∙ append_assoc p (param_text (k, c ∷ v) ∷ []) (map param_text (given kvs)))

module _ (seconds : ℤ → Bytes) where
  -- What is asked of pgxpool, and the name of the application.
  abbrev pub pairs : DsnOpts → List (Bytes × Bytes)
  pairs o =
      (codes "application_name", o.application_name)
      ∷ (codes "pool_max_conns", itoa o.pool_max_conns)
      ∷ (codes "pool_min_conns", itoa o.pool_min_conns)
      ∷ (codes "pool_max_conn_lifetime", seconds o.pool_max_conn_lifetime)
      ∷ (codes "pool_max_conn_idle_time", seconds o.pool_max_conn_idle_time)
      ∷ (codes "pool_health_check_period", seconds o.pool_health_check_period)
      ∷ []

  pub params-given : (o : DsnOpts) → params seconds o false ≡ map param_text (given (pairs o))
  unfolding params append_all codes
  params-given o = append_all-given [] (pairs o) (refl, (refl, (refl, (refl, (refl, (refl, tt))))))

abbrev pub AreBytes : Bytes × Bytes → Type 0
AreBytes (k, v) = All IsByte k × All IsByte v

pub query_unescape-query_escape :
    (s : Bytes) → All IsByte s → query_unescape (query_escape s) ≡ some s
query_unescape-query_escape s h =
    Reads-all true (query_escape s) (map _ s) (Reads-query_escape true s h)
    ∙ ap some (map-read_back s)

-- Of the delimiters, a parameter has only "=".
param_text-Lacks :
    (d : ℕ) (kv : Bytes × Bytes)
    → is_delimiter d ≡ true
    → b'=' ≢ d
    → AreBytes kv
    → Lacks d (param_text kv)
param_text-Lacks d (k, v) e n h =
    All-append (λ c. c ≢ d) (query_escape k) (b'=' ∷ query_escape v)
      (safe-Lacks d (query_escape k) e (query_escape-IsSafe k h.0))
      (n, safe-Lacks d (query_escape v) e (query_escape-IsSafe v h.1))

pair_of-param_text : (kv : Bytes × Bytes) → AreBytes kv → pair_of (param_text kv) ≡ some kv
unfolding is_delimiter
pair_of-param_text (k, v) h =
    pair_of_lem (query_escape k) (query_escape v) k v
      (param_text-Lacks b';' (k, v) refl (omega arith) h)
      (safe-Lacks b'=' (query_escape k) refl (query_escape-IsSafe k h.0))
      (query_unescape-query_escape k h.0) (query_unescape-query_escape v h.1)

pairs_of_nil : pairs_of [] ≡ []
unfolding pairs_of
pairs_of_nil = refl

pairs_of_cons :
    (p : Bytes) (ps : List Bytes) (kv : Bytes × Bytes)
    → pair_of p ≡ some kv
    → pairs_of (p ∷ ps) ≡ kv ∷ pairs_of ps
unfolding pairs_of
pairs_of_cons p ps kv e = rw (e, pairs_of) refl

pairs_of-params :
    (kvs : List (Bytes × Bytes)) (p : Bytes) (kv : Bytes × Bytes)
    → All AreBytes kvs
    → pair_of p ≡ some kv
    → pairs_of (map param_text kvs ++ p ∷ []) ≡ kvs ++ kv ∷ []
pairs_of-params [] p kv h e = pairs_of_cons p [] kv e ∙ ap (λ r. kv ∷ r) pairs_of_nil
pairs_of-params (lv ∷ kvs) p kv h e =
    pairs_of_cons (param_text lv) (map param_text kvs ++ p ∷ []) lv (pair_of-param_text lv h.0)
    ∙ ap (λ r. lv ∷ r) (pairs_of-params kvs p kv h.1 e)

pub params-Lacks :
    (d : ℕ) (kvs : List (Bytes × Bytes)) (p : Bytes)
    → is_delimiter d ≡ true
    → b'=' ≢ d
    → All AreBytes kvs
    → Lacks d p
    → All (Lacks d) (map param_text kvs ++ p ∷ [])
params-Lacks d [] p e n h l = (l, tt)
params-Lacks d (kv ∷ kvs) p e n h l =
    (param_text-Lacks d kv e n h.0, params-Lacks d kvs p e n h.1 l)

-- A query of parameters and one more piece is read as their pairs.
pub parse_query-params :
    (kvs : List (Bytes × Bytes)) (p : Bytes) (kv : Bytes × Bytes)
    → All AreBytes kvs
    → Lacks b'&' p
    → pair_of p ≡ some kv
    → parse_query (join (codes "&") (map param_text kvs ++ p ∷ [])) ≡ kvs ++ kv ∷ []
unfolding parse_query is_delimiter codes
parse_query-params kvs p kv h l e =
    ap pairs_of (
      split-join b'&' (map param_text kvs ++ p ∷ []) (ends kvs)
        (params-Lacks b'&' kvs p refl (omega arith) h l))
    ∙ pairs_of-params kvs p kv h e
  where
    ends : (kvs : List (Bytes × Bytes)) → map param_text kvs ++ p ∷ [] ≢ []
    ends [] h = cc h
    ends (kv ∷ kvs) h = cc h
