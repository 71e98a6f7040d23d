-- ===== src/Db/Select/Names.antt =====
-- exporter/db/pg_*.go: the names of the columns of a query, and what scany asks of them.
use pgxporter.Prelude.Bytes.{codes}
use Prim.Native.String.{String}
use pgxporter.Prelude.{
  ℕ, Bool, true, false, ◌&&◌, ◌||◌, not, Option, none, some, List, [], ◌∷◌, map, ◌==◌,
  if◌then◌else◌,
}
use pgxporter.Db.Statements.{Query}

unfoldable is_as : ℕ → ℕ → ℕ → ℕ → Bool
is_as a b c d = a == b' ' && ((b == b'a' || b == b'A') && ((c == b's' || c == b'S') && d == b' '))

-- What follows " AS ", in either case, or a dot.
unfoldable named : List ℕ → Option (List ℕ)
unfolding is_as
named (a ∷ b ∷ c ∷ d ∷ s) =
    if is_as a b c d then some s else if a == b'.' then some (b ∷ c ∷ d ∷ s) else none
named _ = none

unfoldable last_named : List ℕ → Option (List ℕ)
unfolding named
last_named [] = none
last_named (c ∷ s) = elim (last_named s) [ some n ↦ some n | none ↦ named (c ∷ s) ]

-- The name that PostgreSQL gives to an output column: its alias, or the column that is selected.
unfoldable pub output_name : String → List ℕ
unfolding codes last_named
output_name column = elim (last_named (codes column)) [ some n ↦ n | none ↦ codes column ]

unfoldable same_name : List ℕ → List ℕ → Bool
same_name [] [] = true
same_name (a ∷ s) (b ∷ t) = a == b && same_name s t
same_name _ _ = false

unfoldable among : List ℕ → List (List ℕ) → Bool
unfolding same_name
among n [] = false
among n (m ∷ ms) = same_name n m || among n ms

-- What scany asks of the columns: each has a field with its tag, and no two have one name.
unfoldable pub fits : List String → List String → Bool
unfolding among output_name
fits ts [] = true
fits ts (c ∷ cs) =
    among (output_name c) (map codes ts)
    && (not (among (output_name c) (map output_name cs)) && fits ts cs)

-- The method makes no query or one whose columns fit.
unfoldable pub query_fits : List String → Option Query → Bool
unfolding fits
query_fits ts none = true
query_fits ts (some q) = fits ts q.columns
