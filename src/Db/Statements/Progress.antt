-- ===== src/Db/Statements/Progress.antt =====
-- exporter/db/pg_*.go: the Select methods for the commands in progress.
use pgxporter.Prelude.{Option, some, [], ◌∷◌}
use pgxporter.Prelude.Int.{ℤ}
use pgxporter.Collectors.{Fetched}
use pgxporter.Db.{Client}
use pgxporter.Db.Statements.{Query, gate}

abbrev pub pg_stat_progress_analyze_query : Query
pg_stat_progress_analyze_query = record {
  columns =
      "current_database() AS database" ∷ "COALESCE(datname, '') AS datname" ∷ "relid::text AS relid"
      ∷ "COALESCE(phase, '') AS phase" ∷ "sample_blks_total" ∷ "sample_blks_scanned"
      ∷ "ext_stats_total" ∷ "ext_stats_computed" ∷ "child_tables_total" ∷ "child_tables_done" ∷ [];
  source = "pg_stat_progress_analyze";
}

unfoldable pub select_pg_stat_progress_analyze : Fetched ℤ → Client → Client × Option Query
unfolding gate
select_pg_stat_progress_analyze answer c = gate 13 pg_stat_progress_analyze_query answer c

abbrev pub pg_stat_progress_basebackup_query : Query
pg_stat_progress_basebackup_query = record {
  columns =
      "current_database() AS database" ∷ "COALESCE(phase, '') AS phase" ∷ "backup_total"
      ∷ "backup_streamed" ∷ "tablespaces_total" ∷ "tablespaces_streamed" ∷ [];
  source = "pg_stat_progress_basebackup";
}

unfoldable pub select_pg_stat_progress_basebackup : Fetched ℤ → Client → Client × Option Query
unfolding gate
select_pg_stat_progress_basebackup answer c = gate 13 pg_stat_progress_basebackup_query answer c

abbrev pub pg_stat_progress_copy_query : Query
pg_stat_progress_copy_query = record {
  columns =
      "current_database() AS database" ∷ "COALESCE(datname, '') AS datname" ∷ "relid::text AS relid"
      ∷ "COALESCE(command, '') AS command" ∷ "COALESCE(type, '') AS type" ∷ "bytes_total"
      ∷ "bytes_processed" ∷ "tuples_processed" ∷ "tuples_excluded" ∷ [];
  source = "pg_stat_progress_copy";
}

unfoldable pub select_pg_stat_progress_copy : Fetched ℤ → Client → Client × Option Query
unfolding gate
select_pg_stat_progress_copy answer c = gate 14 pg_stat_progress_copy_query answer c

abbrev pub pg_stat_progress_create_index_query : Query
pg_stat_progress_create_index_query = record {
  columns =
      "current_database() AS database" ∷ "COALESCE(datname, '') AS datname" ∷ "relid::text AS relid"
      ∷ "index_relid::text AS index_relid" ∷ "COALESCE(command, '') AS command"
      ∷ "COALESCE(phase, '') AS phase" ∷ "lockers_total" ∷ "lockers_done" ∷ "blocks_total"
      ∷ "blocks_done" ∷ "tuples_total" ∷ "tuples_done" ∷ "partitions_total" ∷ "partitions_done"
      ∷ [];
  source = "pg_stat_progress_create_index";
}

unfoldable pub select_pg_stat_progress_create_index : Client → Client × Option Query
select_pg_stat_progress_create_index c = (c, some pg_stat_progress_create_index_query)

abbrev pub pg_stat_progress_cluster_query : Query
pg_stat_progress_cluster_query = record {
  columns =
      "current_database() AS database" ∷ "COALESCE(datname, '') AS datname" ∷ "relid::text AS relid"
      ∷ "COALESCE(command, '') AS command" ∷ "COALESCE(phase, '') AS phase" ∷ "heap_tuples_scanned"
      ∷ "heap_tuples_written" ∷ "heap_blks_total" ∷ "heap_blks_scanned" ∷ "index_rebuild_count"
      ∷ [];
  source = "pg_stat_progress_cluster";
}

unfoldable pub select_pg_stat_progress_cluster : Client → Client × Option Query
select_pg_stat_progress_cluster c = (c, some pg_stat_progress_cluster_query)

abbrev pub pg_stat_progress_vacuum_query : Query
pg_stat_progress_vacuum_query = record {
  columns =
      "current_database() AS database" ∷ "COALESCE(datname, '') AS datname" ∷ "relid::text AS relid"
      ∷ "COALESCE(phase, '') AS phase" ∷ "heap_blks_total" ∷ "heap_blks_scanned"
      ∷ "heap_blks_vacuumed" ∷ "index_vacuum_count" ∷ [];
  source = "pg_stat_progress_vacuum";
}

unfoldable pub select_pg_stat_progress_vacuum : Client → Client × Option Query
select_pg_stat_progress_vacuum c = (c, some pg_stat_progress_vacuum_query)
