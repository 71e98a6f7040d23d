-- ===== src/Db/Select.antt =====
-- exporter/db/pg_*.go: the methods by which the collectors query, as one operation of the client.
pub mod Names
pub mod Scannable
pub mod Gates
pub mod Silent
pub mod Exists
use mathlib.Core.Option
use pgxporter.Prelude.{ℕ, String, Option, some, List, map}
use pgxporter.Prelude.Int.{ℤ}
use pgxporter.Collectors.{Fetched}
use pgxporter.Db.{Client}
use pgxporter.Db.Queries.{select_pg_stat_io, select_pg_stat_wal}
use pgxporter.Db.Statements.{Query}
use pgxporter.Db.Statements.Versioned.{
  over, select_pg_stat_user_tables, select_pg_stat_database, select_pg_replication_slots,
  select_pg_stat_bgwriter,
}
use pgxporter.Db.Statements.Backends.{
  select_pg_stat_activity, select_pg_locks, select_pg_locks_blocking_summary, select_pg_stat_ssl,
  select_pg_settings, select_pg_database_size, select_pg_stat_statements,
}
use pgxporter.Db.Statements.Progress.{
  select_pg_stat_progress_analyze, select_pg_stat_progress_basebackup, select_pg_stat_progress_copy,
  select_pg_stat_progress_create_index, select_pg_stat_progress_cluster,
  select_pg_stat_progress_vacuum,
}
use pgxporter.Db.Statements.Tables.{
  select_pg_stat_user_indexes, select_pg_stat_io_user_indexes, select_pg_stat_io_user_tables,
}
use pgxporter.Db.Statements.Servers.{
  select_pg_stat_archiver, select_pg_stat_checkpointer, select_pg_stat_slru,
  select_pg_stat_replication, select_pg_stat_wal_receiver, select_pg_stat_subscription,
  select_pg_stat_subscription_stats,
}
use pgxporter.Db.Statements.Tags.{
  pg_database_size_tags, pg_locks_tags, pg_locks_blocking_summary_tags, pg_replication_slots_tags,
  pg_settings_tags, pg_stat_activity_tags, pg_stat_archiver_tags, pg_stat_bgwriter_tags,
  pg_stat_checkpointer_tags, pg_stat_database_tags, pg_stat_io_tags, pg_stat_progress_analyze_tags,
  pg_stat_progress_basebackup_tags, pg_stat_progress_copy_tags, pg_stat_progress_create_index_tags,
}
use pgxporter.Db.Statements.MoreTags.{
  pg_stat_progress_cluster_tags, pg_stat_progress_vacuum_tags, pg_stat_replication_tags,
  pg_stat_slru_tags, pg_stat_ssl_tags, pg_stat_statements_tags, pg_stat_subscription_tags,
  pg_stat_subscription_stats_tags, pg_stat_user_indexes_tags, pg_stat_user_tables_tags,
  pg_stat_wal_tags, pg_stat_wal_receiver_tags, pg_stat_io_user_indexes_tags,
  pg_stat_io_user_tables_tags,
}

-- The Select methods, by the rows that they return.
pub data View : Type 0 where
  database_size locks locks_blocking_summary replication_slots settings activity archiver bgwriter
        checkpointer database io progress_analyze progress_basebackup progress_copy
        progress_create_index progress_cluster progress_vacuum replication slru ssl statements
        subscription subscription_stats user_indexes user_tables wal wal_receiver io_user_indexes
        io_user_tables :
      View

-- The client after the method, and the query that it makes. `answers` are what the server answers
-- to the re-probes of its calls of AtLeast, in their order.
unfoldable pub select : View → (ℕ → Fetched ℤ) → Client → Client × Option Query
unfolding select_pg_stat_user_tables select_pg_stat_database select_pg_replication_slots
    select_pg_stat_bgwriter select_pg_database_size select_pg_locks select_pg_locks_blocking_summary
    select_pg_settings select_pg_stat_activity select_pg_stat_archiver select_pg_stat_checkpointer
    select_pg_stat_progress_analyze select_pg_stat_progress_basebackup select_pg_stat_progress_copy
    select_pg_stat_progress_create_index select_pg_stat_progress_cluster
    select_pg_stat_progress_vacuum select_pg_stat_replication select_pg_stat_slru select_pg_stat_ssl
    select_pg_stat_statements select_pg_stat_subscription select_pg_stat_subscription_stats
    select_pg_stat_user_indexes select_pg_stat_wal_receiver select_pg_stat_io_user_indexes
    select_pg_stat_io_user_tables
select database_size answers c = select_pg_database_size c
select locks answers c = select_pg_locks c
select locks_blocking_summary answers c = select_pg_locks_blocking_summary c
select replication_slots answers c = select_pg_replication_slots (answers 0) (answers 1) c
select settings answers c = select_pg_settings c
select activity answers c = select_pg_stat_activity c
select archiver answers c = select_pg_stat_archiver c
select bgwriter answers c = select_pg_stat_bgwriter (answers 0) c
select checkpointer answers c = select_pg_stat_checkpointer (answers 0) c
select database answers c = select_pg_stat_database (answers 0) (answers 1) c
select io answers c =
    let (c', cols) = select_pg_stat_io (answers 0) (answers 1) c in
    (c', Option.map (over "pg_stat_io") cols)
select progress_analyze answers c = select_pg_stat_progress_analyze (answers 0) c
select progress_basebackup answers c = select_pg_stat_progress_basebackup (answers 0) c
select progress_copy answers c = select_pg_stat_progress_copy (answers 0) c
select progress_create_index answers c = select_pg_stat_progress_create_index c
select progress_cluster answers c = select_pg_stat_progress_cluster c
select progress_vacuum answers c = select_pg_stat_progress_vacuum c
select replication answers c = select_pg_stat_replication c
select slru answers c = select_pg_stat_slru (answers 0) c
select ssl answers c = select_pg_stat_ssl c
select statements answers c = select_pg_stat_statements c
select subscription answers c = select_pg_stat_subscription c
select subscription_stats answers c = select_pg_stat_subscription_stats (answers 0) c
select user_indexes answers c = select_pg_stat_user_indexes c
select user_tables answers c = select_pg_stat_user_tables (answers 0) (answers 1) (answers 2) c
select wal answers c =
    let (c', cols) = select_pg_stat_wal (answers 0) (answers 1) (answers 2) c in
    (c', Option.map (over "pg_stat_wal") cols)
select wal_receiver answers c = select_pg_stat_wal_receiver c
select io_user_indexes answers c = select_pg_stat_io_user_indexes c
select io_user_tables answers c = select_pg_stat_io_user_tables c

-- The db tags of the struct of the rows.
unfoldable pub tags : View → List String
tags database_size = pg_database_size_tags
tags locks = pg_locks_tags
tags locks_blocking_summary = pg_locks_blocking_summary_tags
tags replication_slots = pg_replication_slots_tags
tags settings = pg_settings_tags
tags activity = pg_stat_activity_tags
tags archiver = pg_stat_archiver_tags
tags bgwriter = pg_stat_bgwriter_tags
tags checkpointer = pg_stat_checkpointer_tags
tags database = pg_stat_database_tags
tags io = pg_stat_io_tags
tags progress_analyze = pg_stat_progress_analyze_tags
tags progress_basebackup = pg_stat_progress_basebackup_tags
tags progress_copy = pg_stat_progress_copy_tags
tags progress_create_index = pg_stat_progress_create_index_tags
tags progress_cluster = pg_stat_progress_cluster_tags
tags progress_vacuum = pg_stat_progress_vacuum_tags
tags replication = pg_stat_replication_tags
tags slru = pg_stat_slru_tags
tags ssl = pg_stat_ssl_tags
tags statements = pg_stat_statements_tags
tags subscription = pg_stat_subscription_tags
tags subscription_stats = pg_stat_subscription_stats_tags
tags user_indexes = pg_stat_user_indexes_tags
tags user_tables = pg_stat_user_tables_tags
tags wal = pg_stat_wal_tags
tags wal_receiver = pg_stat_wal_receiver_tags
tags io_user_indexes = pg_stat_io_user_indexes_tags
tags io_user_tables = pg_stat_io_user_tables_tags
