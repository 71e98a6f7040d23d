-- ===== src/Db/Statements/Tags.antt =====
-- exporter/db/model/model.go: the db tags of the rows, up to those of the progress views.
use pgxporter.Prelude.{String, List, [], ◌∷◌}

abbrev pub pg_database_size_tags : List String
pg_database_size_tags = "database" ∷ "datname" ∷ "bytes" ∷ []

abbrev pub pg_locks_tags : List String
pg_locks_tags = "database" ∷ "datname" ∷ "mode" ∷ "locktype" ∷ "granted" ∷ "count" ∷ []

abbrev pub pg_locks_blocking_summary_tags : List String
pg_locks_blocking_summary_tags = "database" ∷ "blocked_backends" ∷ "blocker_edges" ∷ []

abbrev pub pg_replication_slots_tags : List String
pg_replication_slots_tags =
    "database" ∷ "slot_name" ∷ "plugin" ∷ "slot_type" ∷ "datname" ∷ "active" ∷ "temporary"
    ∷ "restart_lsn_bytes" ∷ "confirmed_flush_lsn_bytes" ∷ "retained_wal_bytes" ∷ "wal_status"
    ∷ "safe_wal_size_bytes" ∷ "conflicting" ∷ []

abbrev pub pg_settings_tags : List String
pg_settings_tags = "database" ∷ "name" ∷ "unit" ∷ "vartype" ∷ "value" ∷ []

abbrev pub pg_stat_activity_tags : List String
pg_stat_activity_tags =
    "database" ∷ "datname" ∷ "state" ∷ "wait_event_type" ∷ "backend_type" ∷ "count"
    ∷ "max_tx_duration_seconds" ∷ "max_query_duration_seconds" ∷ "max_backend_age_seconds" ∷ []

abbrev pub pg_stat_archiver_tags : List String
pg_stat_archiver_tags =
    "database" ∷ "archived_count" ∷ "last_archived_time" ∷ "failed_count" ∷ "last_failed_time"
    ∷ "stats_reset" ∷ []

abbrev pub pg_stat_bgwriter_tags : List String
pg_stat_bgwriter_tags =
    "database" ∷ "buffers_clean" ∷ "maxwritten_clean" ∷ "buffers_alloc" ∷ "stats_reset"
    ∷ "checkpoints_timed" ∷ "checkpoints_req" ∷ "checkpoint_write_time" ∷ "checkpoint_sync_time"
    ∷ "buffers_checkpoint" ∷ "buffers_backend" ∷ "buffers_backend_fsync" ∷ []

abbrev pub pg_stat_checkpointer_tags : List String
pg_stat_checkpointer_tags =
    "database" ∷ "num_timed" ∷ "num_requested" ∷ "restartpoints_timed" ∷ "restartpoints_req"
    ∷ "restartpoints_done" ∷ "write_time" ∷ "sync_time" ∷ "buffers_written" ∷ "stats_reset" ∷ []

abbrev pub pg_stat_database_tags : List String
pg_stat_database_tags =
    "database" ∷ "datid" ∷ "datname" ∷ "numbackends" ∷ "xact_commit" ∷ "xact_rollback" ∷ "blks_read"
    ∷ "blks_hit" ∷ "tup_returned" ∷ "tup_fetched" ∷ "tup_inserted" ∷ "tup_updated" ∷ "tup_deleted"
    ∷ "conflicts" ∷ "temp_files" ∷ "temp_bytes" ∷ "deadlocks" ∷ "checksum_failures"
    ∷ "checksum_last_failure" ∷ "blk_read_time" ∷ "blk_write_time" ∷ "session_time" ∷ "active_time"
    ∷ "idle_in_transaction_time" ∷ "sessions" ∷ "sessions_abandoned" ∷ "sessions_fatal"
    ∷ "sessions_killed" ∷ "stats_reset" ∷ []

abbrev pub pg_stat_io_tags : List String
pg_stat_io_tags =
    "database" ∷ "backend_type" ∷ "object" ∷ "context" ∷ "reads" ∷ "read_time" ∷ "writes"
    ∷ "write_time" ∷ "writebacks" ∷ "writeback_time" ∷ "extends" ∷ "extend_time" ∷ "op_bytes"
    ∷ "hits" ∷ "evictions" ∷ "reuses" ∷ "fsyncs" ∷ "fsync_time" ∷ "stats_reset" ∷ []

abbrev pub pg_stat_progress_analyze_tags : List String
pg_stat_progress_analyze_tags =
    "database" ∷ "datname" ∷ "relid" ∷ "phase" ∷ "sample_blks_total" ∷ "sample_blks_scanned"
    ∷ "ext_stats_total" ∷ "ext_stats_computed" ∷ "child_tables_total" ∷ "child_tables_done" ∷ []

abbrev pub pg_stat_progress_basebackup_tags : List String
pg_stat_progress_basebackup_tags =
    "database" ∷ "phase" ∷ "backup_total" ∷ "backup_streamed" ∷ "tablespaces_total"
    ∷ "tablespaces_streamed" ∷ []

abbrev pub pg_stat_progress_copy_tags : List String
pg_stat_progress_copy_tags =
    "database" ∷ "datname" ∷ "relid" ∷ "command" ∷ "type" ∷ "bytes_total" ∷ "bytes_processed"
    ∷ "tuples_processed" ∷ "tuples_excluded" ∷ []

abbrev pub pg_stat_progress_create_index_tags : List String
pg_stat_progress_create_index_tags =
    "database" ∷ "datname" ∷ "relid" ∷ "index_relid" ∷ "command" ∷ "phase" ∷ "lockers_total"
    ∷ "lockers_done" ∷ "blocks_total" ∷ "blocks_done" ∷ "tuples_total" ∷ "tuples_done"
    ∷ "partitions_total" ∷ "partitions_done" ∷ []
