-- ===== src/Db/Statements/Tables.antt =====
-- exporter/db/pg_*.go: the Select methods for tables and indexes.
use pgxporter.Prelude.{Option, some, [], ◌∷◌}
use pgxporter.Db.{Client}
use pgxporter.Db.Statements.{Query}

abbrev pub pg_stat_user_indexes_query : Query
pg_stat_user_indexes_query = record {
  columns =
      "current_database() as database" ∷ "schemaname" ∷ "relname" ∷ "indexrelname" ∷ "idx_scan"
      ∷ "idx_tup_read" ∷ "idx_tup_fetch" ∷ [];
  source = "pg_stat_user_indexes";
}

unfoldable pub select_pg_stat_user_indexes : Client → Client × Option Query
select_pg_stat_user_indexes c = (c, some pg_stat_user_indexes_query)

abbrev pub pg_stat_io_user_indexes_query : Query
pg_stat_io_user_indexes_query = record {
  columns =
      "current_database() as database" ∷ "schemaname" ∷ "relname" ∷ "indexrelname" ∷ "idx_blks_read"
      ∷ "idx_blks_hit" ∷ [];
  source = "pg_statio_user_indexes";
}

unfoldable pub select_pg_stat_io_user_indexes : Client → Client × Option Query
select_pg_stat_io_user_indexes c = (c, some pg_stat_io_user_indexes_query)

abbrev pub pg_stat_io_user_tables_query : Query
pg_stat_io_user_tables_query = record {
  columns =
      "current_database() as database" ∷ "schemaname" ∷ "relname" ∷ "heap_blks_read"
      ∷ "heap_blks_hit" ∷ "idx_blks_read" ∷ "idx_blks_hit" ∷ "toast_blks_read" ∷ "toast_blks_hit"
      ∷ "tidx_blks_read" ∷ "tidx_blks_hit" ∷ [];
  source = "pg_statio_user_tables";
}

unfoldable pub select_pg_stat_io_user_tables : Client → Client × Option Query
select_pg_stat_io_user_tables c = (c, some pg_stat_io_user_tables_query)
