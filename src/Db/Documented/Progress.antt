-- ===== src/Db/Documented/Progress.antt =====
-- What PostgreSQL documents of the views of progress.
use pgxporter.Prelude.{[], ◌∷◌}
use pgxporter.Db.Documented.{Relation, all_versions}

abbrev pub pg_stat_progress_analyze : Relation
pg_stat_progress_analyze = record {
  source = "pg_stat_progress_analyze";
  since = 13;
  columns =
      ("current_database() AS database", all_versions)
      ∷ ("COALESCE(datname, '') AS datname", all_versions)
      ∷ ("relid::text AS relid", all_versions)
      ∷ ("COALESCE(phase, '') AS phase", all_versions)
      ∷ ("sample_blks_total", all_versions)
      ∷ ("sample_blks_scanned", all_versions)
      ∷ ("ext_stats_total", all_versions)
      ∷ ("ext_stats_computed", all_versions)
      ∷ ("child_tables_total", all_versions)
      ∷ ("child_tables_done", all_versions)
      ∷ [];
}

abbrev pub pg_stat_progress_basebackup : Relation
pg_stat_progress_basebackup = record {
  source = "pg_stat_progress_basebackup";
  since = 13;
  columns =
      ("current_database() AS database", all_versions)
      ∷ ("COALESCE(phase, '') AS phase", all_versions)
      ∷ ("backup_total", all_versions)
      ∷ ("backup_streamed", all_versions)
      ∷ ("tablespaces_total", all_versions)
      ∷ ("tablespaces_streamed", all_versions)
      ∷ [];
}

abbrev pub pg_stat_progress_copy : Relation
pg_stat_progress_copy = record {
  source = "pg_stat_progress_copy";
  since = 14;
  columns =
      ("current_database() AS database", all_versions)
      ∷ ("COALESCE(datname, '') AS datname", all_versions)
      ∷ ("relid::text AS relid", all_versions)
      ∷ ("COALESCE(command, '') AS command", all_versions)
      ∷ ("COALESCE(type, '') AS type", all_versions)
      ∷ ("bytes_total", all_versions)
      ∷ ("bytes_processed", all_versions)
      ∷ ("tuples_processed", all_versions)
      ∷ ("tuples_excluded", all_versions)
      ∷ [];
}

abbrev pub pg_stat_progress_create_index : Relation
pg_stat_progress_create_index = record {
  source = "pg_stat_progress_create_index";
  since = 12;
  columns =
      ("current_database() AS database", all_versions)
      ∷ ("COALESCE(datname, '') AS datname", all_versions)
      ∷ ("relid::text AS relid", all_versions)
      ∷ ("index_relid::text AS index_relid", all_versions)
      ∷ ("COALESCE(command, '') AS command", all_versions)
      ∷ ("COALESCE(phase, '') AS phase", all_versions)
      ∷ ("lockers_total", all_versions)
      ∷ ("lockers_done", all_versions)
      ∷ ("blocks_total", all_versions)
      ∷ ("blocks_done", all_versions)
      ∷ ("tuples_total", all_versions)
      ∷ ("tuples_done", all_versions)
      ∷ ("partitions_total", all_versions)
      ∷ ("partitions_done", all_versions)
      ∷ [];
}

abbrev pub pg_stat_progress_cluster : Relation
pg_stat_progress_cluster = record {
  source = "pg_stat_progress_cluster";
  since = 12;
  columns =
      ("current_database() AS database", all_versions)
      ∷ ("COALESCE(datname, '') AS datname", all_versions)
      ∷ ("relid::text AS relid", all_versions)
      ∷ ("COALESCE(command, '') AS command", all_versions)
      ∷ ("COALESCE(phase, '') AS phase", all_versions)
      ∷ ("heap_tuples_scanned", all_versions)
      ∷ ("heap_tuples_written", all_versions)
      ∷ ("heap_blks_total", all_versions)
      ∷ ("heap_blks_scanned", all_versions)
      ∷ ("index_rebuild_count", all_versions)
      ∷ [];
}

abbrev pub pg_stat_progress_vacuum : Relation
pg_stat_progress_vacuum = record {
  source = "pg_stat_progress_vacuum";
  since = 9;
  columns =
      ("current_database() AS database", all_versions)
      ∷ ("COALESCE(datname, '') AS datname", all_versions)
      ∷ ("relid::text AS relid", all_versions)
      ∷ ("COALESCE(phase, '') AS phase", all_versions)
      ∷ ("heap_blks_total", all_versions)
      ∷ ("heap_blks_scanned", all_versions)
      ∷ ("heap_blks_vacuumed", all_versions)
      ∷ ("index_vacuum_count", all_versions)
      ∷ [];
}
