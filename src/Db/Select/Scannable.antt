-- ===== src/Db/Select/Scannable.antt =====
-- exporter/db/pg_*.go: what a query returns fits the rows that it is scanned into.
use mathlib.Core.Option
use Prim.Native.String.{String}
use pgxporter.Prelude.{ℕ, ◌≡◌, refl, Bool, true, false, not, List, [], ◌∷◌, Bool-cases, inl, inr}
use pgxporter.Prelude.Int.{ℤ, pos}
use pgxporter.Collectors.{Fetched}
use pgxporter.Db.{Client, at_least}
use pgxporter.Db.Queries.{
  append_if, user_tables_base, user_tables_cols, database_base, database_sessions, database_cols,
  replication_slots_base, replication_slots_cols, bgwriter_base, bgwriter_legacy, bgwriter_cols,
  io_base, io_cols, select_pg_stat_io, wal_base, wal_cols, select_pg_stat_wal,
}
use pgxporter.Db.Statements.{Query, gate}
use pgxporter.Db.Statements.Versioned.{over}
use pgxporter.Db.Select.{
  View, database_size, locks, locks_blocking_summary, replication_slots, settings, activity,
  archiver, bgwriter, checkpointer, database, io, progress_analyze, progress_basebackup,
  progress_copy, progress_create_index, progress_cluster, progress_vacuum, replication, slru, ssl,
  statements, subscription, subscription_stats, user_indexes, user_tables, wal, wal_receiver,
  io_user_indexes, io_user_tables, select, tags,
}
use pgxporter.Prelude.Bytes.{codes}
use pgxporter.Db.Select.Names.{fits, query_fits}

gate-fits :
    (ts : List String) (major : ℕ) (q : Query) (answer : Fetched ℤ) (c : Client)
    → fits ts q.columns ≡ true
    → query_fits ts (gate major q answer c).1 ≡ true
unfolding gate query_fits
gate-fits ts major q answer c h = elim (Bool-cases (at_least answer c (pos major) (pos 0)).1) [
  | inl e ↦ rw e h
  | inr e ↦ rw e
]

user_tables_cols-fit :
    (b13 b16 b17 : Bool)
    → fits (tags View.user_tables) (
        append_if b17
          (append_if b16
            (append_if b13 user_tables_base ("n_ins_since_vacuum" ∷ []))
            ("last_seq_scan" ∷ "last_idx_scan" ∷ []))
          ("n_tup_newpage_upd" ∷ []))
      ≡ true
unfolding fits codes tags
user_tables_cols-fit true true true = refl
user_tables_cols-fit true true false = refl
user_tables_cols-fit true false true = refl
user_tables_cols-fit true false false = refl
user_tables_cols-fit false true true = refl
user_tables_cols-fit false true false = refl
user_tables_cols-fit false false true = refl
user_tables_cols-fit false false false = refl

database_cols-fit :
    (b12 b14 : Bool)
    → fits (tags View.database) (
        append_if b14
          (append_if b12 database_base ("checksum_failures" ∷ "checksum_last_failure" ∷ []))
          database_sessions)
      ≡ true
unfolding fits codes tags
database_cols-fit true true = refl
database_cols-fit true false = refl
database_cols-fit false true = refl
database_cols-fit false false = refl

replication_slots_cols-fit :
    (b13 b16 : Bool)
    → fits (tags View.replication_slots) (
        append_if b16
          (append_if b13 replication_slots_base
            ("wal_status" ∷ "safe_wal_size AS safe_wal_size_bytes" ∷ []))
          ("conflicting" ∷ []))
      ≡ true
unfolding fits codes tags
replication_slots_cols-fit true true = refl
replication_slots_cols-fit true false = refl
replication_slots_cols-fit false true = refl
replication_slots_cols-fit false false = refl

bgwriter_cols-fit :
    (b17 : Bool)
    → fits (tags View.bgwriter) (append_if (not b17) bgwriter_base bgwriter_legacy) ≡ true
unfolding fits codes tags
bgwriter_cols-fit true = refl
bgwriter_cols-fit false = refl

io_cols-fit :
    (b18 : Bool) → fits (tags View.io) (append_if (not b18) io_base ("op_bytes" ∷ [])) ≡ true
unfolding fits codes tags
io_cols-fit true = refl
io_cols-fit false = refl

wal_cols-fit :
    (b15 : Bool)
    → fits (tags View.wal) (
        append_if
          (not b15)
          wal_base
          ("wal_write" ∷ "wal_sync" ∷ "wal_write_time" ∷ "wal_sync_time" ∷ []))
      ≡ true
unfolding fits codes tags
wal_cols-fit true = refl
wal_cols-fit false = refl

io-fits :
    (a16 a18 : Fetched ℤ) (c : Client)
    → query_fits (tags View.io) (Option.map (over "pg_stat_io") (select_pg_stat_io a16 a18 c).1)
      ≡ true
unfolding select_pg_stat_io io_cols query_fits
io-fits a16 a18 c = elim (Bool-cases (at_least a16 c (pos 16) (pos 0)).1) [
  | inl e ↦ rw e (io_cols-fit (at_least a18 (at_least a16 c (pos 16) (pos 0)).0 (pos 18) (pos 0)).1)
  | inr e ↦ rw e
]

wal_cols-fits :
    (a14 a15 : Fetched ℤ) (c : Client) → fits (tags View.wal) (wal_cols a14 a15 c).1 ≡ true
unfolding wal_cols fits codes tags
wal_cols-fits a14 a15 c = elim (Bool-cases (at_least a14 c (pos 14) (pos 0)).1) [
  | inl e ↦
      rw e (wal_cols-fit (at_least a15 (at_least a14 c (pos 14) (pos 0)).0 (pos 15) (pos 0)).1)
  | inr e ↦ rw e
]

wal-fits :
    (a a14 a15 : Fetched ℤ) (c : Client)
    → query_fits
        (tags View.wal)
        (Option.map (over "pg_stat_wal") (select_pg_stat_wal a a14 a15 c).1)
      ≡ true
unfolding select_pg_stat_wal query_fits
wal-fits a a14 a15 c = elim (Bool-cases (at_least a c (pos 14) (pos 0)).1) [
  | inl e ↦ rw e (wal_cols-fits a14 a15 (at_least a c (pos 14) (pos 0)).0)
  | inr e ↦ rw e
]

-- Whatever the version and the probes, the columns that a Select method queries have different
-- names, and each is the db tag of a field of the method's rows.
pub select-fits :
    (view : View) (answers : ℕ → Fetched ℤ) (c : Client)
    → query_fits (tags view) (select view answers c).1 ≡ true
unfolding select query_fits tags fits codes user_tables_cols database_cols replication_slots_cols
    bgwriter_cols
select-fits database_size answers c = refl
select-fits locks answers c = refl
select-fits locks_blocking_summary answers c = refl
select-fits replication_slots answers c =
    let c1 = (at_least (answers 0) c (pos 13) (pos 0)).0 in
    replication_slots_cols-fit (at_least (answers 0) c (pos 13) (pos 0)).1
      (at_least (answers 1) c1 (pos 16) (pos 0)).1
select-fits settings answers c = refl
select-fits activity answers c = refl
select-fits archiver answers c = refl
select-fits bgwriter answers c = bgwriter_cols-fit (at_least (answers 0) c (pos 17) (pos 0)).1
select-fits checkpointer answers c = gate-fits (tags checkpointer) 17 _ (answers 0) c refl
select-fits database answers c =
    let c1 = (at_least (answers 0) c (pos 12) (pos 0)).0 in
    database_cols-fit (at_least (answers 0) c (pos 12) (pos 0)).1
      (at_least (answers 1) c1 (pos 14) (pos 0)).1
select-fits io answers c = io-fits (answers 0) (answers 1) c
select-fits progress_analyze answers c = gate-fits (tags progress_analyze) 13 _ (answers 0) c refl
select-fits progress_basebackup answers c =
    gate-fits (tags progress_basebackup) 13 _ (answers 0) c refl
select-fits progress_copy answers c = gate-fits (tags progress_copy) 14 _ (answers 0) c refl
select-fits progress_create_index answers c = refl
select-fits progress_cluster answers c = refl
select-fits progress_vacuum answers c = refl
select-fits replication answers c = refl
select-fits slru answers c = gate-fits (tags slru) 13 _ (answers 0) c refl
select-fits ssl answers c = refl
select-fits statements answers c = refl
select-fits subscription answers c = refl
select-fits subscription_stats answers c =
    gate-fits (tags subscription_stats) 15 _ (answers 0) c refl
select-fits user_indexes answers c = refl
select-fits user_tables answers c =
    let c1 = (at_least (answers 0) c (pos 13) (pos 0)).0 in
    let c2 = (at_least (answers 1) c1 (pos 16) (pos 0)).0 in
    user_tables_cols-fit (at_least (answers 0) c (pos 13) (pos 0)).1
      (at_least (answers 1) c1 (pos 16) (pos 0)).1 (at_least (answers 2) c2 (pos 17) (pos 0)).1
select-fits wal answers c = wal-fits (answers 0) (answers 1) (answers 2) c
select-fits wal_receiver answers c = refl
select-fits io_user_indexes answers c = refl
select-fits io_user_tables answers c = refl
