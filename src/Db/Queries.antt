-- ===== src/Db/Queries.antt =====
-- exporter/db/pg_*.go: the SELECT statements that depend on the version of the server. Each function
-- takes what the server answers to the re-probe of each of its calls of AtLeast, in their order, and
-- gives the client after them.
use pgxporter.Prelude.{
  String, ◌<>◌, Bool, not, Option, none, some, List, [], ◌∷◌, ◌++◌, if◌then◌else◌,
}
use pgxporter.Prelude.Int.{ℤ, pos}
use pgxporter.Vec.{join}
use pgxporter.Collectors.{Fetched}
use pgxporter.Db.{Client, at_least}

-- append(cols, …) under an if.
abbrev pub append_if : Bool → List String → List String → List String
append_if b cols more = if b then cols ++ more else cols

-- "SELECT …, … FROM …"
unfoldable pub select_from : List String → String → String
select_from cols from = "SELECT " <> (join ", " cols <> from)

abbrev pub user_tables_base : List String
user_tables_base =
    "current_database() as database" ∷ "schemaname" ∷ "relname" ∷ "seq_scan" ∷ "seq_tup_read"
    ∷ "idx_scan" ∷ "idx_tup_fetch" ∷ "n_tup_ins" ∷ "n_tup_upd" ∷ "n_tup_del" ∷ "n_tup_hot_upd"
    ∷ "n_live_tup" ∷ "n_dead_tup" ∷ "n_mod_since_analyze" ∷ "last_vacuum" ∷ "last_autovacuum"
    ∷ "last_analyze" ∷ "last_autoanalyze" ∷ "vacuum_count" ∷ "autovacuum_count" ∷ "analyze_count"
    ∷ "autoanalyze_count" ∷ []

unfoldable pub user_tables_cols : Fetched ℤ → Fetched ℤ → Fetched ℤ → Client → Client × List String
user_tables_cols a13 a16 a17 c =
    let (c1, b13) = at_least a13 c (pos 13) (pos 0) in
    let (c2, b16) = at_least a16 c1 (pos 16) (pos 0) in
    let (c3, b17) = at_least a17 c2 (pos 17) (pos 0) in
    (
      c3,
      append_if b17
          (append_if b16 (append_if b13 user_tables_base ("n_ins_since_vacuum" ∷ []))
            ("last_seq_scan" ∷ "last_idx_scan" ∷ []))
          ("n_tup_newpage_upd" ∷ []),
    )

unfoldable pub sql_select_pg_stat_user_tables :
    Fetched ℤ → Fetched ℤ → Fetched ℤ → Client → Client × String
unfolding user_tables_cols select_from
sql_select_pg_stat_user_tables a13 a16 a17 c =
    let (c', cols) = user_tables_cols a13 a16 a17 c in
    (c', select_from cols " FROM pg_stat_user_tables")

abbrev pub database_base : List String
database_base =
    "current_database() as database" ∷ "datid" ∷ "datname" ∷ "numbackends" ∷ "xact_commit"
    ∷ "xact_rollback" ∷ "blks_read" ∷ "blks_hit" ∷ "tup_returned" ∷ "tup_fetched" ∷ "tup_inserted"
    ∷ "tup_updated" ∷ "tup_deleted" ∷ "conflicts" ∷ "temp_files" ∷ "temp_bytes" ∷ "deadlocks"
    ∷ "blk_read_time" ∷ "blk_write_time" ∷ "stats_reset" ∷ []

abbrev pub database_sessions : List String
database_sessions =
    "session_time" ∷ "active_time" ∷ "idle_in_transaction_time" ∷ "sessions" ∷ "sessions_abandoned"
    ∷ "sessions_fatal" ∷ "sessions_killed" ∷ []

unfoldable pub database_cols : Fetched ℤ → Fetched ℤ → Client → Client × List String
database_cols a12 a14 c =
    let (c1, b12) = at_least a12 c (pos 12) (pos 0) in
    let (c2, b14) = at_least a14 c1 (pos 14) (pos 0) in
    (
      c2,
      append_if b14
          (append_if b12 database_base ("checksum_failures" ∷ "checksum_last_failure" ∷ []))
          database_sessions,
    )

unfoldable pub sql_select_pg_stat_database : Fetched ℤ → Fetched ℤ → Client → Client × String
unfolding database_cols select_from
sql_select_pg_stat_database a12 a14 c =
    let (c', cols) = database_cols a12 a14 c in
    (
      c',
      select_from cols
          " FROM pg_stat_database WHERE datname IS NOT NULL AND datname NOT LIKE 'template%'",
    )

abbrev pub replication_slots_base : List String
replication_slots_base =
    "current_database() AS database" ∷ "slot_name" ∷ "COALESCE(plugin, '') AS plugin" ∷ "slot_type"
    ∷ "COALESCE(database, '') AS datname" ∷ "active" ∷ "temporary"
    ∷ "pg_wal_lsn_diff(restart_lsn, '0/0')::float8 AS restart_lsn_bytes"
    ∷ "pg_wal_lsn_diff(confirmed_flush_lsn, '0/0')::float8 AS confirmed_flush_lsn_bytes"
    ∷ "CASE WHEN pg_is_in_recovery() THEN NULL ELSE pg_wal_lsn_diff(pg_current_wal_lsn(), restart_lsn)::float8 END AS retained_wal_bytes"
    ∷ []

unfoldable pub replication_slots_cols : Fetched ℤ → Fetched ℤ → Client → Client × List String
replication_slots_cols a13 a16 c =
    let (c1, b13) = at_least a13 c (pos 13) (pos 0) in
    let (c2, b16) = at_least a16 c1 (pos 16) (pos 0) in
    (
      c2,
      append_if b16
          (append_if b13 replication_slots_base
            ("wal_status" ∷ "safe_wal_size AS safe_wal_size_bytes" ∷ []))
          ("conflicting" ∷ []),
    )

unfoldable pub sql_select_pg_replication_slots : Fetched ℤ → Fetched ℤ → Client → Client × String
unfolding replication_slots_cols select_from
sql_select_pg_replication_slots a13 a16 c =
    let (c', cols) = replication_slots_cols a13 a16 c in
    (c', select_from cols " FROM pg_replication_slots")

abbrev pub bgwriter_base : List String
bgwriter_base =
    "current_database() as database" ∷ "buffers_clean" ∷ "maxwritten_clean" ∷ "buffers_alloc"
    ∷ "stats_reset" ∷ []

abbrev pub bgwriter_legacy : List String
bgwriter_legacy =
    "checkpoints_timed" ∷ "checkpoints_req" ∷ "checkpoint_write_time" ∷ "checkpoint_sync_time"
    ∷ "buffers_checkpoint" ∷ "buffers_backend" ∷ "buffers_backend_fsync" ∷ []

unfoldable pub bgwriter_cols : Fetched ℤ → Client → Client × List String
bgwriter_cols a17 c =
    let (c1, b17) = at_least a17 c (pos 17) (pos 0) in
    (c1, append_if (not b17) bgwriter_base bgwriter_legacy)

unfoldable pub sql_select_pg_stat_bgwriter : Fetched ℤ → Client → Client × String
unfolding bgwriter_cols select_from
sql_select_pg_stat_bgwriter a17 c =
    let (c', cols) = bgwriter_cols a17 c in (c', select_from cols " FROM pg_stat_bgwriter")

abbrev pub io_base : List String
io_base =
    "current_database() AS database" ∷ "COALESCE(backend_type, '') AS backend_type"
    ∷ "COALESCE(object, '') AS object" ∷ "COALESCE(context, '') AS context" ∷ "reads" ∷ "read_time"
    ∷ "writes" ∷ "write_time" ∷ "writebacks" ∷ "writeback_time" ∷ "extends" ∷ "extend_time" ∷ "hits"
    ∷ "evictions" ∷ "reuses" ∷ "fsyncs" ∷ "fsync_time" ∷ "stats_reset" ∷ []

unfoldable pub io_cols : Fetched ℤ → Client → Client × List String
io_cols a18 c =
    let (c1, b18) = at_least a18 c (pos 18) (pos 0) in
    (c1, append_if (not b18) io_base ("op_bytes" ∷ []))

-- SelectPgStatIO: the columns of its query, if it makes one.
unfoldable pub select_pg_stat_io : Fetched ℤ → Fetched ℤ → Client → Client × Option (List String)
unfolding io_cols
select_pg_stat_io a16 a18 c =
    let (c1, b16) = at_least a16 c (pos 16) (pos 0) in
    let (c2, cols) = io_cols a18 c1 in if b16 then (c2, some cols) else (c1, none)

abbrev pub wal_base : List String
wal_base =
    "current_database() AS database" ∷ "wal_records" ∷ "wal_fpi" ∷ "wal_bytes::float8 AS wal_bytes"
    ∷ "wal_buffers_full" ∷ "stats_reset" ∷ []

-- The second call of AtLeast is made if the first is true.
unfoldable pub wal_cols : Fetched ℤ → Fetched ℤ → Client → Client × List String
wal_cols a14 a15 c =
    let (c1, b14) = at_least a14 c (pos 14) (pos 0) in
    let (c2, b15) = at_least a15 c1 (pos 15) (pos 0) in
    if b14
    then (
      c2,
      append_if (not b15) wal_base
          ("wal_write" ∷ "wal_sync" ∷ "wal_write_time" ∷ "wal_sync_time" ∷ []),
    )
    else (c1, wal_base)

unfoldable pub select_pg_stat_wal :
    Fetched ℤ → Fetched ℤ → Fetched ℤ → Client → Client × Option (List String)
unfolding wal_cols
select_pg_stat_wal a b d c =
    let (c1, b14) = at_least a c (pos 14) (pos 0) in
    let (c2, cols) = wal_cols b d c1 in if b14 then (c2, some cols) else (c1, none)

unfoldable pub sql_select_pg_stat_io : Fetched ℤ → Client → Client × String
unfolding io_cols select_from
sql_select_pg_stat_io a18 c =
    let (c', cols) = io_cols a18 c in (c', select_from cols " FROM pg_stat_io")

unfoldable pub sql_select_pg_stat_wal : Fetched ℤ → Fetched ℤ → Client → Client × String
unfolding wal_cols select_from
sql_select_pg_stat_wal a14 a15 c =
    let (c', cols) = wal_cols a14 a15 c in (c', select_from cols " FROM pg_stat_wal")
