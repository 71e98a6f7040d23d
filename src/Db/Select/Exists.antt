-- ===== src/Db/Select/Exists.antt =====
-- exporter/db/pg_*.go: the Select methods query only views and columns that the server has.
use mathlib.Core.Option
use pgxporter.Prelude.{
  ℕ, String, List, ◌≤◌, ◌<◌, ◌≡◌, ◌≢◌, refl, Bool, true, ◌&&◌, Option, none, some, arith, inl, inr,
  leb, str_eq, eq_iff, Bool-cases,
}
use pgxporter.Prelude.Int.{ℤ, pos}
use pgxporter.Vec.{lookup}
use pgxporter.Collectors.{Fetched}
use pgxporter.Db.{Client, at_least}
use pgxporter.Db.Queries.{select_pg_stat_io, select_pg_stat_wal}
use pgxporter.Db.Documented.{Relation, in_range, has, has_all, offered, has_queried}
use pgxporter.Db.Documented.Backends.{
  pg_database_size, pg_locks, pg_locks_blocking_summary, pg_settings, pg_stat_activity, pg_stat_ssl,
  pg_stat_statements,
}
use pgxporter.Db.Documented.Progress.{
  pg_stat_progress_analyze, pg_stat_progress_basebackup, pg_stat_progress_copy,
  pg_stat_progress_create_index, pg_stat_progress_cluster, pg_stat_progress_vacuum,
}
use pgxporter.Db.Documented.Servers.{
  pg_stat_archiver, pg_stat_bgwriter, pg_stat_checkpointer, pg_stat_io, pg_stat_slru, pg_stat_wal,
  pg_stat_wal_receiver, pg_stat_replication, pg_stat_subscription, pg_stat_subscription_stats,
  pg_replication_slots,
}
use pgxporter.Db.Documented.Tables.{
  pg_stat_user_indexes, pg_stat_user_tables, pg_stat_io_user_indexes, pg_stat_io_user_tables,
  pg_stat_database,
}
use pgxporter.Db.Honest.{IsHonest, Agrees, version, at_least-true}
use pgxporter.Db.Columns.{
  user_tables_cols-exist, database_cols-exist, replication_slots_cols-exist, bgwriter_cols-exist,
  select_pg_stat_wal-exist, select_pg_stat_io-exist,
}
use pgxporter.Db.Statements.{Query, gate}
use pgxporter.Db.Statements.Versioned.{over}
use pgxporter.Db.Select.{
  View, database_size, locks, locks_blocking_summary, replication_slots, settings, activity,
  archiver, bgwriter, checkpointer, database, io, progress_analyze, progress_basebackup,
  progress_copy, progress_create_index, progress_cluster, progress_vacuum, replication, slru, ssl,
  statements, subscription, subscription_stats, user_indexes, user_tables, wal, wal_receiver,
  io_user_indexes, io_user_tables, select,
}

-- What a method reads.
unfoldable pub relation : View → Relation
relation database_size = pg_database_size
relation locks = pg_locks
relation locks_blocking_summary = pg_locks_blocking_summary
relation replication_slots = pg_replication_slots
relation settings = pg_settings
relation activity = pg_stat_activity
relation archiver = pg_stat_archiver
relation bgwriter = pg_stat_bgwriter
relation checkpointer = pg_stat_checkpointer
relation database = pg_stat_database
relation io = pg_stat_io
relation progress_analyze = pg_stat_progress_analyze
relation progress_basebackup = pg_stat_progress_basebackup
relation progress_copy = pg_stat_progress_copy
relation progress_create_index = pg_stat_progress_create_index
relation progress_cluster = pg_stat_progress_cluster
relation progress_vacuum = pg_stat_progress_vacuum
relation replication = pg_stat_replication
relation slru = pg_stat_slru
relation ssl = pg_stat_ssl
relation statements = pg_stat_statements
relation subscription = pg_stat_subscription
relation subscription_stats = pg_stat_subscription_stats
relation user_indexes = pg_stat_user_indexes
relation user_tables = pg_stat_user_tables
relation wal = pg_stat_wal
relation wal_receiver = pg_stat_wal_receiver
relation io_user_indexes = pg_stat_io_user_indexes
relation io_user_tables = pg_stat_io_user_tables

-- The first major version with all that the method reads.
unfoldable pub introduced : View → ℕ
unfolding relation
introduced view = (relation view).since

always : (n major : ℕ) {b : Bool} → n ≤ major → b ≡ true → true && (leb n major && b) ≡ true
always n major h k = ground (arith, h, k)

offered-over :
    (r : Relation) (major : ℕ) (cols : Option (List String))
    → has_queried r major cols ≡ true
    → (cols ≢ none → r.since ≤ major)
    → offered r major (Option.map (over r.source) cols) ≡ true
unfolding offered has_queried
offered-over r major none h k = refl
offered-over r major (some cols) h k =
    let l = k (cc) in let e = (eq_iff r.source r.source).1 refl in ground (arith, h, l, e)

-- A server of version `major`.`minor`.
module _ (major minor : ℕ) (supported : 13 ≤ major) (minor-small : minor < 10000) where
  gate-offered :
      (r : Relation) (m : ℕ) (q : Query) (answer : Fetched ℤ) (c : Client)
      → m < 900
      → IsHonest (version major minor) answer
      → Agrees (version major minor) c
      → (m ≤ major
          → str_eq q.source r.source && (leb r.since major && has_all r major q.columns) ≡ true)
      → offered r major (gate m q answer c).1 ≡ true
  unfolding gate offered
  gate-offered r m q answer c k h g f = elim (Bool-cases (at_least answer c (pos m) (pos 0)).1) [
    | inl e ↦ rw e (f (at_least-true major minor (omega arith) minor-small answer c m k h g e).0)
    | inr e ↦ rw e
  ]

  io-since :
      (a16 a18 : Fetched ℤ) (c : Client)
      → IsHonest (version major minor) a16
      → Agrees (version major minor) c
      → (select_pg_stat_io a16 a18 c).1 ≢ none
      → 16 ≤ major
  unfolding select_pg_stat_io
  io-since a16 a18 c h g n = elim (Bool-cases (at_least a16 c (pos 16) (pos 0)).1) [
    | inl e ↦ (at_least-true major minor (omega arith) minor-small a16 c 16 (omega arith) h g e).0
    | inr e ↦ absurd (n (rw e))
  ]

  wal-since :
      (a a14 a15 : Fetched ℤ) (c : Client)
      → IsHonest (version major minor) a
      → Agrees (version major minor) c
      → (select_pg_stat_wal a a14 a15 c).1 ≢ none
      → 14 ≤ major
  unfolding select_pg_stat_wal
  wal-since a a14 a15 c h g n = elim (Bool-cases (at_least a c (pos 14) (pos 0)).1) [
    | inl e ↦ (at_least-true major minor (omega arith) minor-small a c 14 (omega arith) h g e).0
    | inr e ↦ absurd (n (rw e))
  ]

  -- Each Select method makes no query or one whose FROM and columns are those of its view as
  -- PostgreSQL documents it (Db/Documented) and which the server has, view and columns, if its
  -- version is 13.0 or later with a minor below 10000, all probes of the method's calls of AtLeast
  -- are answered with this version or fail, and the client knows this version or none: except for
  -- pg_stat_statements, and for pg_stat_bgwriter if the client does not know the version.
  pub select-exists :
      (view : View) (answers : ℕ → Fetched ℤ) (c : Client)
      → ((n : ℕ) → IsHonest (version major minor) (answers n))
      → Agrees (version major minor) c
      → view ≢ statements
      → (view ≡ bgwriter → c.server_version_num ≡ version major minor)
      → offered (relation view) major (select view answers c).1 ≡ true
  unfolding select offered relation has_all has in_range lookup
  select-exists database_size answers c h g s b = always 7 major (omega arith) refl
  select-exists locks answers c h g s b = always 7 major (omega arith) refl
  select-exists locks_blocking_summary answers c h g s b = always 9 major (omega arith) refl
  select-exists replication_slots answers c h g s b = always 9 major (omega arith) (
      replication_slots_cols-exist major minor (omega arith) minor-small (answers 0) (answers 1) c
        (h 0) (h 1) g)
  select-exists settings answers c h g s b = always 7 major (omega arith) refl
  select-exists activity answers c h g s b = always 7 major (omega arith) refl
  select-exists archiver answers c h g s b = always 9 major (omega arith) refl
  select-exists bgwriter answers c h g s b =
      always 8 major (omega arith)
        (bgwriter_cols-exist major minor (omega arith) minor-small (answers 0) c (b refl))
  select-exists checkpointer answers c h g s b =
      gate-offered pg_stat_checkpointer 17 _ (answers 0) c (omega arith) (h 0) g
        (λ k. ground (arith, k))
  select-exists database answers c h g s b = always 7 major (omega arith) (
      database_cols-exist major minor (omega arith) minor-small (answers 0) (answers 1) c (h 0)
        (h 1) g)
  select-exists io answers c h g s b =
      offered-over pg_stat_io major (select_pg_stat_io (answers 0) (answers 1) c).1
        (select_pg_stat_io-exist major minor (omega arith) minor-small (answers 0) (answers 1) c
          (h 0) g)
        (io-since (answers 0) (answers 1) c (h 0) g)
  select-exists progress_analyze answers c h g s b =
      gate-offered pg_stat_progress_analyze 13 _ (answers 0) c (omega arith) (h 0) g
        (λ k. ground (arith, k))
  select-exists progress_basebackup answers c h g s b =
      gate-offered pg_stat_progress_basebackup 13 _ (answers 0) c (omega arith) (h 0) g
        (λ k. ground (arith, k))
  select-exists progress_copy answers c h g s b =
      gate-offered pg_stat_progress_copy 14 _ (answers 0) c (omega arith) (h 0) g
        (λ k. ground (arith, k))
  select-exists progress_create_index answers c h g s b = always 12 major (omega arith) refl
  select-exists progress_cluster answers c h g s b = always 12 major (omega arith) refl
  select-exists progress_vacuum answers c h g s b = always 9 major (omega arith) refl
  select-exists replication answers c h g s b = always 9 major (omega arith) refl
  select-exists slru answers c h g s b =
      gate-offered pg_stat_slru 13 _ (answers 0) c (omega arith) (h 0) g (λ k. ground (arith, k))
  select-exists ssl answers c h g s b = always 9 major (omega arith) refl
  select-exists statements answers c h g s b = absurd (s refl)
  select-exists subscription answers c h g s b = always 10 major (omega arith) refl
  select-exists subscription_stats answers c h g s b =
      gate-offered pg_stat_subscription_stats 15 _ (answers 0) c (omega arith) (h 0) g
        (λ k. ground (arith, k))
  select-exists user_indexes answers c h g s b = always 7 major (omega arith) refl
  select-exists user_tables answers c h g s b = always 7 major (omega arith) (
      user_tables_cols-exist major minor (omega arith) minor-small (answers 0) (answers 1)
        (answers 2) c (h 0) (h 1) (h 2) g)
  select-exists wal answers c h g s b =
      offered-over pg_stat_wal major (select_pg_stat_wal (answers 0) (answers 1) (answers 2) c).1
        (select_pg_stat_wal-exist major minor (omega arith) minor-small (answers 0) (answers 1)
          (answers 2) c (h 0) (h 1) g)
        (wal-since (answers 0) (answers 1) (answers 2) c (h 0) g)
  select-exists wal_receiver answers c h g s b = ground arith
  select-exists io_user_indexes answers c h g s b = always 7 major (omega arith) refl
  select-exists io_user_tables answers c h g s b = always 7 major (omega arith) refl
