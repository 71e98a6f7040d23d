-- ===== src/Db/Statements/Versioned.antt =====
-- exporter/db/pg_*.go: the Select methods whose columns depend on the version.
use pgxporter.Prelude.{String, Option, some, List}
use pgxporter.Prelude.Int.{ℤ}
use pgxporter.Collectors.{Fetched}
use pgxporter.Db.{Client}
use pgxporter.Db.Queries.{user_tables_cols, database_cols, replication_slots_cols, bgwriter_cols}
use pgxporter.Db.Statements.{Query}

-- SELECT cols FROM source.
abbrev pub over : String → List String → Query
over source cols = record { columns = cols; source = source }

unfoldable pub select_pg_stat_user_tables :
    Fetched ℤ → Fetched ℤ → Fetched ℤ → Client → Client × Option Query
select_pg_stat_user_tables a13 a16 a17 c =
    let (c', cols) = user_tables_cols a13 a16 a17 c in (c', some (over "pg_stat_user_tables" cols))

unfoldable pub select_pg_stat_database : Fetched ℤ → Fetched ℤ → Client → Client × Option Query
select_pg_stat_database a12 a14 c =
    let (c', cols) = database_cols a12 a14 c in
    (
      c',
      some
          (over "pg_stat_database WHERE datname IS NOT NULL AND datname NOT LIKE 'template%'" cols),
    )

unfoldable pub select_pg_replication_slots : Fetched ℤ → Fetched ℤ → Client → Client × Option Query
select_pg_replication_slots a13 a16 c =
    let (c', cols) = replication_slots_cols a13 a16 c in
    (c', some (over "pg_replication_slots" cols))

unfoldable pub select_pg_stat_bgwriter : Fetched ℤ → Client → Client × Option Query
select_pg_stat_bgwriter a17 c =
    let (c', cols) = bgwriter_cols a17 c in (c', some (over "pg_stat_bgwriter" cols))
