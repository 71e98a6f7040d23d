-- ===== src/Db/Documented/Tables.antt =====
-- What PostgreSQL documents of the views of tables, indexes and databases.
use pgxporter.Prelude.{[], ◌∷◌}
use pgxporter.Db.Documented.{Relation, all_versions, from}

abbrev pub pg_stat_user_indexes : Relation
pg_stat_user_indexes = record {
  source = "pg_stat_user_indexes";
  since = 7;
  columns =
      ("current_database() as database", all_versions)
      ∷ ("schemaname", all_versions)
      ∷ ("relname", all_versions)
      ∷ ("indexrelname", all_versions)
      ∷ ("idx_scan", all_versions)
      ∷ ("idx_tup_read", all_versions)
      ∷ ("idx_tup_fetch", all_versions)
      ∷ [];
}

abbrev pub pg_stat_user_tables : Relation
pg_stat_user_tables = record {
  source = "pg_stat_user_tables";
  since = 7;
  columns =
      ("current_database() as database", all_versions)
      ∷ ("schemaname", all_versions)
      ∷ ("relname", all_versions)
      ∷ ("seq_scan", all_versions)
      ∷ ("seq_tup_read", all_versions)
      ∷ ("idx_scan", all_versions)
      ∷ ("idx_tup_fetch", all_versions)
      ∷ ("n_tup_ins", all_versions)
      ∷ ("n_tup_upd", all_versions)
      ∷ ("n_tup_del", all_versions)
      ∷ ("n_tup_hot_upd", all_versions)
      ∷ ("n_live_tup", all_versions)
      ∷ ("n_dead_tup", all_versions)
      ∷ ("n_mod_since_analyze", all_versions)
      ∷ ("last_vacuum", all_versions)
      ∷ ("last_autovacuum", all_versions)
      ∷ ("last_analyze", all_versions)
      ∷ ("last_autoanalyze", all_versions)
      ∷ ("vacuum_count", all_versions)
      ∷ ("autovacuum_count", all_versions)
      ∷ ("analyze_count", all_versions)
      ∷ ("autoanalyze_count", all_versions)
      ∷ ("n_ins_since_vacuum", from 13)
      ∷ ("last_seq_scan", from 16)
      ∷ ("last_idx_scan", from 16)
      ∷ ("n_tup_newpage_upd", from 16)
      ∷ [];
}

abbrev pub pg_stat_io_user_indexes : Relation
pg_stat_io_user_indexes = record {
  source = "pg_statio_user_indexes";
  since = 7;
  columns =
      ("current_database() as database", all_versions)
      ∷ ("schemaname", all_versions)
      ∷ ("relname", all_versions)
      ∷ ("indexrelname", all_versions)
      ∷ ("idx_blks_read", all_versions)
      ∷ ("idx_blks_hit", all_versions)
      ∷ [];
}

abbrev pub pg_stat_io_user_tables : Relation
pg_stat_io_user_tables = record {
  source = "pg_statio_user_tables";
  since = 7;
  columns =
      ("current_database() as database", all_versions)
      ∷ ("schemaname", all_versions)
      ∷ ("relname", all_versions)
      ∷ ("heap_blks_read", all_versions)
      ∷ ("heap_blks_hit", all_versions)
      ∷ ("idx_blks_read", all_versions)
      ∷ ("idx_blks_hit", all_versions)
      ∷ ("toast_blks_read", all_versions)
      ∷ ("toast_blks_hit", all_versions)
      ∷ ("tidx_blks_read", all_versions)
      ∷ ("tidx_blks_hit", all_versions)
      ∷ [];
}

abbrev pub pg_stat_database : Relation
pg_stat_database = record {
  source = "pg_stat_database WHERE datname IS NOT NULL AND datname NOT LIKE 'template%'";
  since = 7;
  columns =
      ("current_database() as database", all_versions)
      ∷ ("datid", all_versions)
      ∷ ("datname", all_versions)
      ∷ ("numbackends", all_versions)
      ∷ ("xact_commit", all_versions)
      ∷ ("xact_rollback", all_versions)
      ∷ ("blks_read", all_versions)
      ∷ ("blks_hit", all_versions)
      ∷ ("tup_returned", all_versions)
      ∷ ("tup_fetched", all_versions)
      ∷ ("tup_inserted", all_versions)
      ∷ ("tup_updated", all_versions)
      ∷ ("tup_deleted", all_versions)
      ∷ ("conflicts", all_versions)
      ∷ ("temp_files", all_versions)
      ∷ ("temp_bytes", all_versions)
      ∷ ("deadlocks", all_versions)
      ∷ ("blk_read_time", all_versions)
      ∷ ("blk_write_time", all_versions)
      ∷ ("stats_reset", all_versions)
      ∷ ("checksum_failures", from 12)
      ∷ ("checksum_last_failure", from 12)
      ∷ ("session_time", from 14)
      ∷ ("active_time", from 14)
      ∷ ("idle_in_transaction_time", from 14)
      ∷ ("sessions", from 14)
      ∷ ("sessions_abandoned", from 14)
      ∷ ("sessions_fatal", from 14)
      ∷ ("sessions_killed", from 14)
      ∷ [];
}
