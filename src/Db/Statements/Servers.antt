-- ===== src/Db/Statements/Servers.antt =====
-- exporter/db/pg_*.go: the Select methods for the processes of the server and its replicas.
use pgxporter.Prelude.{Option, some, [], ◌∷◌}
use pgxporter.Prelude.Int.{ℤ}
use pgxporter.Collectors.{Fetched}
use pgxporter.Db.{Client}
use pgxporter.Db.Statements.{Query, gate}

abbrev pub pg_stat_archiver_query : Query
pg_stat_archiver_query = record {
  columns =
      "current_database() as database" ∷ "archived_count" ∷ "last_archived_time" ∷ "failed_count"
      ∷ "last_failed_time" ∷ "stats_reset" ∷ [];
  source = "pg_stat_archiver";
}

unfoldable pub select_pg_stat_archiver : Client → Client × Option Query
select_pg_stat_archiver c = (c, some pg_stat_archiver_query)

abbrev pub pg_stat_checkpointer_query : Query
pg_stat_checkpointer_query = record {
  columns =
      "current_database() as database" ∷ "num_timed" ∷ "num_requested" ∷ "restartpoints_timed"
      ∷ "restartpoints_req" ∷ "restartpoints_done" ∷ "write_time" ∷ "sync_time" ∷ "buffers_written"
      ∷ "stats_reset" ∷ [];
  source = "pg_stat_checkpointer";
}

unfoldable pub select_pg_stat_checkpointer : Fetched ℤ → Client → Client × Option Query
unfolding gate
select_pg_stat_checkpointer answer c = gate 17 pg_stat_checkpointer_query answer c

abbrev pub pg_stat_slru_query : Query
pg_stat_slru_query = record {
  columns =
      "current_database() AS database" ∷ "name" ∷ "blks_zeroed" ∷ "blks_hit" ∷ "blks_read"
      ∷ "blks_written" ∷ "blks_exists" ∷ "flushes" ∷ "truncates" ∷ "stats_reset" ∷ [];
  source = "pg_stat_slru";
}

unfoldable pub select_pg_stat_slru : Fetched ℤ → Client → Client × Option Query
unfolding gate
select_pg_stat_slru answer c = gate 13 pg_stat_slru_query answer c

abbrev pub pg_stat_replication_query : Query
pg_stat_replication_query = record {
  columns =
      "current_database() AS database" ∷ "pid" ∷ "application_name"
      ∷ "client_addr::text AS client_addr" ∷ "state" ∷ "sync_state"
      ∷ "CASE WHEN pg_is_in_recovery() THEN NULL ELSE pg_wal_lsn_diff(pg_current_wal_lsn(), sent_lsn)::float8 END AS sent_lag_bytes"
      ∷ "CASE WHEN pg_is_in_recovery() THEN NULL ELSE pg_wal_lsn_diff(pg_current_wal_lsn(), write_lsn)::float8 END AS write_lag_bytes"
      ∷ "CASE WHEN pg_is_in_recovery() THEN NULL ELSE pg_wal_lsn_diff(pg_current_wal_lsn(), flush_lsn)::float8 END AS flush_lag_bytes"
      ∷ "CASE WHEN pg_is_in_recovery() THEN NULL ELSE pg_wal_lsn_diff(pg_current_wal_lsn(), replay_lsn)::float8 END AS replay_lag_bytes"
      ∷ "EXTRACT(EPOCH FROM write_lag)::float8 AS write_lag_seconds"
      ∷ "EXTRACT(EPOCH FROM flush_lag)::float8 AS flush_lag_seconds"
      ∷ "EXTRACT(EPOCH FROM replay_lag)::float8 AS replay_lag_seconds" ∷ [];
  source = "pg_stat_replication";
}

unfoldable pub select_pg_stat_replication : Client → Client × Option Query
select_pg_stat_replication c = (c, some pg_stat_replication_query)

abbrev pub pg_stat_wal_receiver_query : Query
pg_stat_wal_receiver_query = record {
  columns =
      "current_database() AS database" ∷ "pid" ∷ "status"
      ∷ "pg_wal_lsn_diff(receive_start_lsn, '0/0')::float8 AS receive_start_lsn_bytes"
      ∷ "pg_wal_lsn_diff(written_lsn, '0/0')::float8 AS written_lsn_bytes"
      ∷ "pg_wal_lsn_diff(flushed_lsn, '0/0')::float8 AS flushed_lsn_bytes"
      ∷ "pg_wal_lsn_diff(latest_end_lsn, '0/0')::float8 AS latest_end_lsn_bytes"
      ∷ "last_msg_send_time" ∷ "last_msg_receipt_time" ∷ "latest_end_time" ∷ "slot_name"
      ∷ "sender_host" ∷ [];
  source = "pg_stat_wal_receiver";
}

unfoldable pub select_pg_stat_wal_receiver : Client → Client × Option Query
select_pg_stat_wal_receiver c = (c, some pg_stat_wal_receiver_query)

abbrev pub pg_stat_subscription_query : Query
pg_stat_subscription_query = record {
  columns =
      "current_database() AS database" ∷ "subname" ∷ "bool_or(pid IS NOT NULL) AS active"
      ∷ "(max(received_lsn) - '0/0')::int8 AS received_lsn_bytes"
      ∷ "max(last_msg_send_time) AS last_msg_send_time"
      ∷ "max(last_msg_receipt_time) AS last_msg_receipt_time"
      ∷ "(max(latest_end_lsn) - '0/0')::int8 AS latest_end_lsn_bytes"
      ∷ "max(latest_end_time) AS latest_end_time" ∷ [];
  source = "pg_stat_subscription GROUP BY subname";
}

unfoldable pub select_pg_stat_subscription : Client → Client × Option Query
select_pg_stat_subscription c = (c, some pg_stat_subscription_query)

abbrev pub pg_stat_subscription_stats_query : Query
pg_stat_subscription_stats_query = record {
  columns =
      "current_database() AS database" ∷ "subname" ∷ "apply_error_count" ∷ "sync_error_count"
      ∷ "stats_reset" ∷ [];
  source = "pg_stat_subscription_stats";
}

unfoldable pub select_pg_stat_subscription_stats : Fetched ℤ → Client → Client × Option Query
unfolding gate
select_pg_stat_subscription_stats answer c = gate 15 pg_stat_subscription_stats_query answer c
