-- ===== src/Db/Dsn/OptionsPiece.antt =====
-- exporter/db/dsn.go: `options=…` as a piece of the query.
use pgxporter.Prelude.{
  ℕ, ◌≡◌, ◌≢◌, refl, ap, true, some, List, [], ◌∷◌, ◌++◌, map, All, All-append, arith,
}
use pgxporter.Prelude.Bytes.{Bytes, Lacks, codes, join}
use pgxporter.Prelude.Url.{
  is_unreserved, is_delimiter, query_escape, IsByte, IsSafe, query_escape-IsSafe, safe-Lacks,
}
use pgxporter.Prelude.Uri.{pair_of, pair_of_lem}
use pgxporter.Db.Dsn.{DsnOpts, fields, format_options_param, append_options_params, option_params}
use pgxporter.Db.Dsn.Reads.{Reads-literal, Reads-all}
use pgxporter.Db.Dsn.Words.{fields-All}
use pgxporter.Db.Dsn.Options.{piece, options_text, query_unescape-options}
use pgxporter.Db.Dsn.Params.{AreBytes}
use pgxporter.Db.Dsn.Settings.{settings, settings-AreBytes, option_params-pieces}

pub join-All :
    (P : ℕ → Type 0) (sep : Bytes) (ps : List Bytes)
    → All P sep
    → All (All P) ps
    → All P (join sep ps)
unfolding join
join-All P sep [] h k = tt
join-All P sep (p ∷ []) h k = k.0
join-All P sep (p ∷ q ∷ ps) h k =
    All-append P p (sep ++ join sep (q ∷ ps)) k.0
      (All-append P sep (join sep (q ∷ ps)) h (join-All P sep (q ∷ ps) h k.1))

escapes-IsSafe : (ws : List Bytes) → All (All IsByte) ws → All (All IsSafe) (map query_escape ws)
escapes-IsSafe [] h = tt
escapes-IsSafe (w ∷ ws) h = (query_escape-IsSafe w h.0, escapes-IsSafe ws h.1)

format_options_param-IsSafe : (s : Bytes) → All IsByte s → All IsSafe (format_options_param s)
unfolding format_options_param codes is_unreserved
format_options_param-IsSafe s h =
    join-All IsSafe (codes "\\%20") (map query_escape (fields s)) (refl, (refl, (refl, (refl, tt))))
      (escapes-IsSafe (fields s) (fields-All IsByte s h))

piece-IsSafe : (kv : Bytes × Bytes) → AreBytes kv → All IsSafe (piece kv)
unfolding codes is_unreserved
piece-IsSafe (k, v) h =
    All-append IsSafe (codes "-c") _ (refl, (refl, tt))
      (All-append IsSafe (format_options_param k) _ (format_options_param-IsSafe k h.0) (
        All-append IsSafe (query_escape (codes "=")) (format_options_param v)
          (query_escape-IsSafe (codes "=") (omega arith)) (format_options_param-IsSafe v h.1)))

pieces-IsSafe : (kvs : List (Bytes × Bytes)) → All AreBytes kvs → All (All IsSafe) (map piece kvs)
pieces-IsSafe [] h = tt
pieces-IsSafe (kv ∷ kvs) h = (piece-IsSafe kv h.0, pieces-IsSafe kvs h.1)

abbrev raw : DsnOpts → Bytes
raw o = join (codes "%20") (map piece (settings o))

raw-IsSafe : (o : DsnOpts) → All IsSafe (raw o)
unfolding codes is_unreserved
raw-IsSafe o =
    join-All IsSafe (codes "%20") (map piece (settings o)) (refl, (refl, (refl, tt)))
      (pieces-IsSafe (settings o) (settings-AreBytes o))

abbrev pub options_piece : DsnOpts → Bytes
options_piece o = codes "options=" ++ raw o

pub append_options_params-piece :
    (p : List Bytes) (o : DsnOpts)
    → append_options_params p (option_params o) ≡ p ++ options_piece o ∷ []
unfolding append_options_params
append_options_params-piece p o = ap (append_options_params p) (option_params-pieces o)

-- Of the delimiters, the piece has only "=".
pub options_piece-Lacks :
    (d : ℕ) (o : DsnOpts) → is_delimiter d ≡ true → b'=' ≢ d → Lacks d (options_piece o)
unfolding codes is_unreserved
options_piece-Lacks d o e n =
    All-append (λ c. c ≢ d) (codes "options") (b'=' ∷ raw o)
      (safe-Lacks d (codes "options") e (refl, (refl, (refl, (refl, (refl, (refl, (refl, tt))))))))
      (n, safe-Lacks d (raw o) e (raw-IsSafe o))

pub pair_of-options_piece :
    (o : DsnOpts) → pair_of (options_piece o) ≡ some (codes "options", options_text (settings o))
unfolding codes is_delimiter is_unreserved
pair_of-options_piece o =
    pair_of_lem (codes "options") (raw o) (codes "options") (options_text (settings o))
      (options_piece-Lacks b';' o refl (omega arith))
      (safe-Lacks b'=' (codes "options") refl
        (refl, (refl, (refl, (refl, (refl, (refl, (refl, tt))))))))
      (Reads-all true (codes "options") (codes "options")
        (Reads-literal true (codes "options") (omega arith)))
      (query_unescape-options (settings o) (settings-AreBytes o))
