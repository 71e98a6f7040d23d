-- ===== src/Db/Statements/MoreTags.antt =====
-- exporter/db/model/model.go: the db tags of the rows, from those of the progress views on.
use pgxporter.Prelude.{String, List, [], ◌∷◌}

abbrev pub pg_stat_progress_cluster_tags : List String
pg_stat_progress_cluster_tags =
    "database" ∷ "datname" ∷ "relid" ∷ "command" ∷ "phase" ∷ "heap_tuples_scanned"
    ∷ "heap_tuples_written" ∷ "heap_blks_total" ∷ "heap_blks_scanned" ∷ "index_rebuild_count" ∷ []

abbrev pub pg_stat_progress_vacuum_tags : List String
pg_stat_progress_vacuum_tags =
    "database" ∷ "datname" ∷ "relid" ∷ "phase" ∷ "heap_blks_total" ∷ "heap_blks_scanned"
    ∷ "heap_blks_vacuumed" ∷ "index_vacuum_count" ∷ []

abbrev pub pg_stat_replication_tags : List String
pg_stat_replication_tags =
    "database" ∷ "pid" ∷ "application_name" ∷ "client_addr" ∷ "state" ∷ "sync_state"
    ∷ "sent_lag_bytes" ∷ "write_lag_bytes" ∷ "flush_lag_bytes" ∷ "replay_lag_bytes"
    ∷ "write_lag_seconds" ∷ "flush_lag_seconds" ∷ "replay_lag_seconds" ∷ []

abbrev pub pg_stat_slru_tags : List String
pg_stat_slru_tags =
    "database" ∷ "name" ∷ "blks_zeroed" ∷ "blks_hit" ∷ "blks_read" ∷ "blks_written" ∷ "blks_exists"
    ∷ "flushes" ∷ "truncates" ∷ "stats_reset" ∷ []

abbrev pub pg_stat_ssl_tags : List String
pg_stat_ssl_tags = "database" ∷ "ssl" ∷ "version" ∷ "cipher" ∷ "bits" ∷ "connections" ∷ []

abbrev pub pg_stat_statements_tags : List String
pg_stat_statements_tags =
    "database" ∷ "rolname" ∷ "datname" ∷ "queryid" ∷ "query" ∷ "calls" ∷ "total_time_seconds"
    ∷ "min_time_seconds" ∷ "max_time_seconds" ∷ "mean_time_seconds" ∷ "stddev_time_seconds" ∷ "rows"
    ∷ "shared_blks_hit" ∷ "shared_blks_read" ∷ "shared_blks_dirtied" ∷ "shared_blks_written"
    ∷ "local_blks_hit" ∷ "local_blks_read" ∷ "local_blks_dirtied" ∷ "local_blks_written"
    ∷ "temp_blks_read" ∷ "temp_blks_written" ∷ "blk_read_time_seconds" ∷ "blk_write_time_seconds"
    ∷ []

abbrev pub pg_stat_subscription_tags : List String
pg_stat_subscription_tags =
    "database" ∷ "subname" ∷ "active" ∷ "received_lsn_bytes" ∷ "last_msg_send_time"
    ∷ "last_msg_receipt_time" ∷ "latest_end_lsn_bytes" ∷ "latest_end_time" ∷ []

abbrev pub pg_stat_subscription_stats_tags : List String
pg_stat_subscription_stats_tags =
    "database" ∷ "subname" ∷ "apply_error_count" ∷ "sync_error_count" ∷ "stats_reset" ∷ []

abbrev pub pg_stat_user_indexes_tags : List String
pg_stat_user_indexes_tags =
    "database" ∷ "schemaname" ∷ "relname" ∷ "indexrelname" ∷ "idx_scan" ∷ "idx_tup_read"
    ∷ "idx_tup_fetch" ∷ []

abbrev pub pg_stat_user_tables_tags : List String
pg_stat_user_tables_tags =
    "database" ∷ "schemaname" ∷ "relname" ∷ "seq_scan" ∷ "last_seq_scan" ∷ "seq_tup_read"
    ∷ "idx_scan" ∷ "last_idx_scan" ∷ "idx_tup_fetch" ∷ "n_tup_ins" ∷ "n_tup_upd" ∷ "n_tup_del"
    ∷ "n_tup_hot_upd" ∷ "n_tup_newpage_upd" ∷ "n_live_tup" ∷ "n_dead_tup" ∷ "n_mod_since_analyze"
    ∷ "n_ins_since_vacuum" ∷ "last_vacuum" ∷ "last_autovacuum" ∷ "last_analyze" ∷ "last_autoanalyze"
    ∷ "vacuum_count" ∷ "autovacuum_count" ∷ "analyze_count" ∷ "autoanalyze_count" ∷ []

abbrev pub pg_stat_wal_tags : List String
pg_stat_wal_tags =
    "database" ∷ "wal_records" ∷ "wal_fpi" ∷ "wal_bytes" ∷ "wal_buffers_full" ∷ "wal_write"
    ∷ "wal_sync" ∷ "wal_write_time" ∷ "wal_sync_time" ∷ "stats_reset" ∷ []

abbrev pub pg_stat_wal_receiver_tags : List String
pg_stat_wal_receiver_tags =
    "database" ∷ "pid" ∷ "status" ∷ "receive_start_lsn_bytes" ∷ "written_lsn_bytes"
    ∷ "flushed_lsn_bytes" ∷ "latest_end_lsn_bytes" ∷ "last_msg_send_time" ∷ "last_msg_receipt_time"
    ∷ "latest_end_time" ∷ "slot_name" ∷ "sender_host" ∷ []

abbrev pub pg_stat_io_user_indexes_tags : List String
pg_stat_io_user_indexes_tags =
    "database" ∷ "schemaname" ∷ "relname" ∷ "indexrelname" ∷ "idx_blks_read" ∷ "idx_blks_hit" ∷ []

abbrev pub pg_stat_io_user_tables_tags : List String
pg_stat_io_user_tables_tags =
    "database" ∷ "schemaname" ∷ "relname" ∷ "heap_blks_read" ∷ "heap_blks_hit" ∷ "idx_blks_read"
    ∷ "idx_blks_hit" ∷ "toast_blks_read" ∷ "toast_blks_hit" ∷ "tidx_blks_read" ∷ "tidx_blks_hit"
    ∷ []
