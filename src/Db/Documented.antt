-- ===== src/Db/Documented.antt =====
-- The statistics views of PostgreSQL as it documents them, for the statements of exporter/db/pg_*.go.
pub mod Backends
pub mod Progress
pub mod Servers
pub mod Tables
use pgxporter.Prelude.{
  ℕ, String, ◌≡◌, refl, Bool, true, false, ◌&&◌, Option, none, some, List, [], ◌∷◌, ◌++◌, arith,
  ltb, leb, str_eq,
}
use pgxporter.Vec.{lookup}
use pgxporter.Db.Queries.{append_if}
use pgxporter.Db.Statements.{Query}

-- The major versions with the view that have a column: all of them, those from one on, or those
-- before the one that has removed it.
pub data Versions : Type 0 where
  all_versions : Versions
  from : ℕ → Versions
  before : ℕ → Versions

-- What a statement may read behind FROM: its text, the first major version with all that it names,
-- and the output columns that may be taken from it, each under its text, with the versions that
-- have what the text names; those of pg_stat_statements for the version of the extension that a
-- server brings. `all_versions` are those from 12 on.
pub record Relation : Type 0 where
  pub source : String
  pub since : ℕ
  pub columns : List (String × Versions)

unfoldable pub in_range : Versions → ℕ → Bool
in_range all_versions major = true
in_range (from n) major = leb n major
in_range (before n) major = ltb major n

-- A column that is not documented does not exist.
unfoldable pub has : Relation → ℕ → String → Bool
unfolding in_range
has r major name = elim (lookup name r.columns) [ none ↦ false | some v ↦ in_range v major ]

-- The version has all these columns.
unfoldable pub has_all : Relation → ℕ → List String → Bool
unfolding has
has_all r major [] = true
has_all r major (n ∷ ns) = has r major n && has_all r major ns

-- No query is made, or it is one on this relation, which the version has with all the columns.
unfoldable pub offered : Relation → ℕ → Option Query → Bool
unfolding has_all
offered r major none = true
offered r major (some q) =
    str_eq q.source r.source && (leb r.since major && has_all r major q.columns)

module _ (r : Relation) where
  has_all-append :
      (major : ℕ) (xs ys : List String)
      → has_all r major xs ≡ true
      → has_all r major ys ≡ true
      → has_all r major (xs ++ ys) ≡ true
  unfolding has_all
  has_all-append major [] ys h k = k
  has_all-append major (x ∷ xs) ys h k =
      ground (arith, h, has_all-append major xs ys (ground (arith, h)) k)

  pub has_all-append_if :
      (major : ℕ) (b : Bool) (xs ys : List String)
      → has_all r major xs ≡ true
      → (b ≡ true → has_all r major ys ≡ true)
      → has_all r major (append_if b xs ys) ≡ true
  has_all-append_if major true xs ys h k = has_all-append major xs ys h (k refl)
  has_all-append_if major false xs ys h k = h

  -- No query is made, or the version has all the columns of the query.
  unfoldable pub has_queried : ℕ → Option (List String) → Bool
  unfolding has_all
  has_queried major none = true
  has_queried major (some cols) = has_all r major cols
