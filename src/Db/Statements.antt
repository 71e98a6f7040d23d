-- ===== src/Db/Statements.antt =====
-- exporter/db/pg_*.go: the Select methods, and the rows that they fill.
pub mod Backends
pub mod Progress
pub mod Tables
pub mod Servers
pub mod Versioned
pub mod Tags
pub mod MoreTags
use pgxporter.Prelude.{ℕ, String, Option, none, some, List, [], if◌then◌else◌}
use pgxporter.Prelude.Int.{ℤ, pos}
use pgxporter.Collectors.{Fetched, rows}
use pgxporter.Db.{Client, at_least}

-- SELECT columns FROM source. Line breaks and tabs of the source are single spaces here.
pub record Query : Type 0 where
  pub columns : List String
  pub source : String

-- The query of a method that returns nothing on servers below a major version.
unfoldable pub gate : ℕ → Query → Fetched ℤ → Client → Client × Option Query
gate major q answer c =
    let (c', b) = at_least answer c (pos major) (pos 0) in (c', if b then some q else none)

-- What a method returns: no rows if it makes no query, else what Client.Select makes of it, which is
-- the records or an error of pgx or of scany.
unfoldable pub fetch : {A : Type 0} → (Query → Fetched (List A)) → Option Query → Fetched (List A)
fetch run none = rows []
fetch run (some q) = run q
