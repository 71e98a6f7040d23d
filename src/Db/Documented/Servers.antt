-- ===== src/Db/Documented/Servers.antt =====
-- What PostgreSQL documents of the views of the parts of a server.
use pgxporter.Prelude.{[], ◌∷◌}
use pgxporter.Db.Documented.{Relation, all_versions, from, before}

abbrev pub pg_stat_archiver : Relation
pg_stat_archiver = record {
  source = "pg_stat_archiver";
  since = 9;
  columns =
      ("current_database() as database", all_versions)
      ∷ ("archived_count", all_versions)
      ∷ ("last_archived_time", all_versions)
      ∷ ("failed_count", all_versions)
      ∷ ("last_failed_time", all_versions)
      ∷ ("stats_reset", all_versions)
      ∷ [];
}

abbrev pub pg_stat_bgwriter : Relation
pg_stat_bgwriter = record {
  source = "pg_stat_bgwriter";
  since = 8;
  columns =
      ("current_database() as database", all_versions)
      ∷ ("buffers_clean", all_versions)
      ∷ ("maxwritten_clean", all_versions)
      ∷ ("buffers_alloc", all_versions)
      ∷ ("stats_reset", all_versions)
      ∷ ("checkpoints_timed", before 17)
      ∷ ("checkpoints_req", before 17)
      ∷ ("checkpoint_write_time", before 17)
      ∷ ("checkpoint_sync_time", before 17)
      ∷ ("buffers_checkpoint", before 17)
      ∷ ("buffers_backend", before 17)
      ∷ ("buffers_backend_fsync", before 17)
      ∷ [];
}

abbrev pub pg_stat_checkpointer : Relation
pg_stat_checkpointer = record {
  source = "pg_stat_checkpointer";
  since = 17;
  columns =
      ("current_database() as database", all_versions)
      ∷ ("num_timed", all_versions)
      ∷ ("num_requested", all_versions)
      ∷ ("restartpoints_timed", all_versions)
      ∷ ("restartpoints_req", all_versions)
      ∷ ("restartpoints_done", all_versions)
      ∷ ("write_time", all_versions)
      ∷ ("sync_time", all_versions)
      ∷ ("buffers_written", all_versions)
      ∷ ("stats_reset", all_versions)
      ∷ [];
}

abbrev pub pg_stat_io : Relation
pg_stat_io = record {
  source = "pg_stat_io";
  since = 16;
  columns =
      ("current_database() AS database", all_versions)
      ∷ ("COALESCE(backend_type, '') AS backend_type", all_versions)
      ∷ ("COALESCE(object, '') AS object", all_versions)
      ∷ ("COALESCE(context, '') AS context", all_versions)
      ∷ ("reads", all_versions)
      ∷ ("read_time", all_versions)
      ∷ ("writes", all_versions)
      ∷ ("write_time", all_versions)
      ∷ ("writebacks", all_versions)
      ∷ ("writeback_time", all_versions)
      ∷ ("extends", all_versions)
      ∷ ("extend_time", all_versions)
      ∷ ("hits", all_versions)
      ∷ ("evictions", all_versions)
      ∷ ("reuses", all_versions)
      ∷ ("fsyncs", all_versions)
      ∷ ("fsync_time", all_versions)
      ∷ ("stats_reset", all_versions)
      ∷ ("op_bytes", before 18)
      ∷ [];
}

abbrev pub pg_stat_slru : Relation
pg_stat_slru = record {
  source = "pg_stat_slru";
  since = 13;
  columns =
      ("current_database() AS database", all_versions)
      ∷ ("name", all_versions)
      ∷ ("blks_zeroed", all_versions)
      ∷ ("blks_hit", all_versions)
      ∷ ("blks_read", all_versions)
      ∷ ("blks_written", all_versions)
      ∷ ("blks_exists", all_versions)
      ∷ ("flushes", all_versions)
      ∷ ("truncates", all_versions)
      ∷ ("stats_reset", all_versions)
      ∷ [];
}

abbrev pub pg_stat_wal : Relation
pg_stat_wal = record {
  source = "pg_stat_wal";
  since = 14;
  columns =
      ("current_database() AS database", all_versions)
      ∷ ("wal_records", all_versions)
      ∷ ("wal_fpi", all_versions)
      ∷ ("wal_bytes::float8 AS wal_bytes", all_versions)
      ∷ ("wal_buffers_full", all_versions)
      ∷ ("stats_reset", all_versions)
      ∷ ("wal_write", before 18)
      ∷ ("wal_sync", before 18)
      ∷ ("wal_write_time", before 18)
      ∷ ("wal_sync_time", before 18)
      ∷ [];
}

abbrev pub pg_stat_wal_receiver : Relation
pg_stat_wal_receiver = record {
  source = "pg_stat_wal_receiver";
  since = 9;
  columns =
      ("current_database() AS database", all_versions)
      ∷ ("pid", all_versions)
      ∷ ("status", all_versions)
      ∷ (
        "pg_wal_lsn_diff(receive_start_lsn, '0/0')::float8 AS receive_start_lsn_bytes",
        all_versions,
      )
      ∷ ("pg_wal_lsn_diff(written_lsn, '0/0')::float8 AS written_lsn_bytes", from 13)
      ∷ ("pg_wal_lsn_diff(flushed_lsn, '0/0')::float8 AS flushed_lsn_bytes", from 13)
      ∷ ("pg_wal_lsn_diff(latest_end_lsn, '0/0')::float8 AS latest_end_lsn_bytes", all_versions)
      ∷ ("last_msg_send_time", all_versions)
      ∷ ("last_msg_receipt_time", all_versions)
      ∷ ("latest_end_time", all_versions)
      ∷ ("slot_name", all_versions)
      ∷ ("sender_host", all_versions)
      ∷ [];
}

abbrev pub pg_stat_replication : Relation
pg_stat_replication = record {
  source = "pg_stat_replication";
  since = 9;
  columns =
      ("current_database() AS database", all_versions)
      ∷ ("pid", all_versions)
      ∷ ("application_name", all_versions)
      ∷ ("client_addr::text AS client_addr", all_versions)
      ∷ ("state", all_versions)
      ∷ ("sync_state", all_versions)
      ∷ (
        "CASE WHEN pg_is_in_recovery() THEN NULL ELSE pg_wal_lsn_diff(pg_current_wal_lsn(), sent_lsn)::float8 END AS sent_lag_bytes",
        all_versions,
      )
      ∷ (
        "CASE WHEN pg_is_in_recovery() THEN NULL ELSE pg_wal_lsn_diff(pg_current_wal_lsn(), write_lsn)::float8 END AS write_lag_bytes",
        all_versions,
      )
      ∷ (
        "CASE WHEN pg_is_in_recovery() THEN NULL ELSE pg_wal_lsn_diff(pg_current_wal_lsn(), flush_lsn)::float8 END AS flush_lag_bytes",
        all_versions,
      )
      ∷ (
        "CASE WHEN pg_is_in_recovery() THEN NULL ELSE pg_wal_lsn_diff(pg_current_wal_lsn(), replay_lsn)::float8 END AS replay_lag_bytes",
        all_versions,
      )
      ∷ ("EXTRACT(EPOCH FROM write_lag)::float8 AS write_lag_seconds", all_versions)
      ∷ ("EXTRACT(EPOCH FROM flush_lag)::float8 AS flush_lag_seconds", all_versions)
      ∷ ("EXTRACT(EPOCH FROM replay_lag)::float8 AS replay_lag_seconds", all_versions)
      ∷ [];
}

abbrev pub pg_stat_subscription : Relation
pg_stat_subscription = record {
  source = "pg_stat_subscription GROUP BY subname";
  since = 10;
  columns =
      ("current_database() AS database", all_versions)
      ∷ ("subname", all_versions)
      ∷ ("bool_or(pid IS NOT NULL) AS active", all_versions)
      ∷ ("(max(received_lsn) - '0/0')::int8 AS received_lsn_bytes", all_versions)
      ∷ ("max(last_msg_send_time) AS last_msg_send_time", all_versions)
      ∷ ("max(last_msg_receipt_time) AS last_msg_receipt_time", all_versions)
      ∷ ("(max(latest_end_lsn) - '0/0')::int8 AS latest_end_lsn_bytes", all_versions)
      ∷ ("max(latest_end_time) AS latest_end_time", all_versions)
      ∷ [];
}

abbrev pub pg_stat_subscription_stats : Relation
pg_stat_subscription_stats = record {
  source = "pg_stat_subscription_stats";
  since = 15;
  columns =
      ("current_database() AS database", all_versions)
      ∷ ("subname", all_versions)
      ∷ ("apply_error_count", all_versions)
      ∷ ("sync_error_count", all_versions)
      ∷ ("stats_reset", all_versions)
      ∷ [];
}

abbrev pub pg_replication_slots : Relation
pg_replication_slots = record {
  source = "pg_replication_slots";
  since = 9;
  columns =
      ("current_database() AS database", all_versions)
      ∷ ("slot_name", all_versions)
      ∷ ("COALESCE(plugin, '') AS plugin", all_versions)
      ∷ ("slot_type", all_versions)
      ∷ ("COALESCE(database, '') AS datname", all_versions)
      ∷ ("active", all_versions)
      ∷ ("temporary", all_versions)
      ∷ ("pg_wal_lsn_diff(restart_lsn, '0/0')::float8 AS restart_lsn_bytes", all_versions)
      ∷ (
        "pg_wal_lsn_diff(confirmed_flush_lsn, '0/0')::float8 AS confirmed_flush_lsn_bytes",
        all_versions,
      )
      ∷ (
        "CASE WHEN pg_is_in_recovery() THEN NULL ELSE pg_wal_lsn_diff(pg_current_wal_lsn(), restart_lsn)::float8 END AS retained_wal_bytes",
        all_versions,
      )
      ∷ ("wal_status", from 13)
      ∷ ("safe_wal_size AS safe_wal_size_bytes", from 13)
      ∷ ("conflicting", from 16)
      ∷ [];
}
