-- ===== src/Db/Dsn/Options.antt =====
-- exporter/db/dsn.go: how PostgreSQL reads the parameter `options`.
use mathlib.Core.List.{map-id}
use pgxporter.Prelude.{◌≡◌, refl, subst, ◌∙◌, true, some, List, [], ◌∷◌, ◌++◌, map, All, arith}
use pgxporter.Prelude.Bytes.{Bytes, codes, join}
use pgxporter.Prelude.Url.{
  plain, unescape_from, unhex, query_escape, query_unescape, IsByte, unescape_from-percent,
}
use pgxporter.Db.Dsn.{fields, format_options_param}
use pgxporter.Db.Dsn.Reads.{
  Reads, Reads-append, Reads-literal, Reads-query_escape, Reads-join, Reads-all, map-read_back,
  prepend-behind,
}
use pgxporter.Db.Dsn.Words.{fields-All}

-- A setting, as the last lines of appendOptionsParam write it.
abbrev pub piece : Bytes × Bytes → Bytes
piece (k, v) =
    codes "-c" ++ (format_options_param k ++ (query_escape (codes "=") ++ format_options_param v))

-- The same, once the query is unescaped: spaces stand behind a backslash.
abbrev pub words : Bytes → Bytes
words s = join (codes "\\ ") (fields s)

abbrev pub setting_text : Bytes × Bytes → Bytes
setting_text (k, v) = codes "-c" ++ (words k ++ (codes "=" ++ words v))

abbrev pub options_text : List (Bytes × Bytes) → Bytes
options_text kvs = join (codes " ") (map setting_text kvs)

abbrev ReadBytes : Bytes × Bytes → Type 0
ReadBytes (k, v) = All IsByte k × All IsByte v

space-Reads : Reads true (codes "%20") (codes " ")
unfolding codes unhex
space-Reads rest =
    unescape_from-percent true b'2' b'0' 2 0 rest refl refl
    ∙ prepend-behind b' ' (unescape_from true plain rest)

escaped_space-Reads : Reads true (codes "\\%20") (codes "\\ ")
unfolding codes
escaped_space-Reads =
    Reads-append true (b'\\' ∷ []) (codes "%20") (b'\\' ∷ []) (codes " ")
      (Reads-literal true (b'\\' ∷ []) ((omega arith), tt)) space-Reads

escape-Reads : (w : Bytes) → All IsByte w → Reads true (query_escape w) w
escape-Reads w h =
    subst (Reads true (query_escape w)) (map-read_back w) (Reads-query_escape true w h)

All-escape-Reads :
    (ws : List Bytes) → All (All IsByte) ws → All (λ w. Reads true (query_escape w) w) ws
All-escape-Reads [] h = tt
All-escape-Reads (w ∷ ws) h = (escape-Reads w h.0, All-escape-Reads ws h.1)

format_options_param-Reads :
    (s : Bytes) → All IsByte s → Reads true (format_options_param s) (words s)
unfolding format_options_param
format_options_param-Reads s h =
    subst (λ ws. Reads true (format_options_param s) (join (codes "\\ ") ws)) (map-id (fields s))
      (Reads-join true query_escape (λ w. w) (codes "\\%20") (codes "\\ ") (fields s)
        escaped_space-Reads (All-escape-Reads (fields s) (fields-All IsByte s h)))

piece-Reads : (kv : Bytes × Bytes) → ReadBytes kv → Reads true (piece kv) (setting_text kv)
unfolding codes
piece-Reads (k, v) h =
    Reads-append true (codes "-c") _ (codes "-c") _ (Reads-literal true (codes "-c") (omega arith))
      (Reads-append true (format_options_param k) _ (words k) _ (format_options_param-Reads k h.0) (
        Reads-append true (query_escape (codes "=")) (format_options_param v) (codes "=") (words v)
          (escape-Reads (codes "=") (omega arith)) (format_options_param-Reads v h.1)))

pieces-Reads :
    (kvs : List (Bytes × Bytes))
    → All ReadBytes kvs
    → All (λ kv. Reads true (piece kv) (setting_text kv)) kvs
pieces-Reads [] h = tt
pieces-Reads (kv ∷ kvs) h = (piece-Reads kv h.0, pieces-Reads kvs h.1)

-- The value of `options`, unescaped.
pub query_unescape-options :
    (kvs : List (Bytes × Bytes))
    → All ReadBytes kvs
    → query_unescape (join (codes "%20") (map piece kvs)) ≡ some (options_text kvs)
query_unescape-options kvs h = Reads-all true _ _ (
    Reads-join true piece setting_text (codes "%20") (codes " ") kvs space-Reads
      (pieces-Reads kvs h))
