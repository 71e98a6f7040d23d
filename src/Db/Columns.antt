-- ===== src/Db/Columns.antt =====
-- exporter/db/pg_*.go: the statements name only columns that the view of the server has.
use pgxporter.Prelude.{
  ℕ, ◌≤◌, ◌<◌, String, ◌≡◌, refl, inl, inr, true, false, not, [], ◌∷◌, arith, Bool-cases,
}
use pgxporter.Prelude.Int.{ℤ, pos}
use pgxporter.Vec.{lookup}
use pgxporter.Collectors.{Fetched, failed}
use pgxporter.Db.{Client, is_zero, reprobe, reaches, at_least}
use pgxporter.Db.Queries.{
  append_if, user_tables_base, user_tables_cols, database_base, database_sessions, database_cols,
  replication_slots_base, replication_slots_cols, bgwriter_base, bgwriter_legacy, bgwriter_cols,
  io_base, io_cols, select_pg_stat_io, wal_base, wal_cols, select_pg_stat_wal,
}
use pgxporter.Db.Documented.{in_range, has, has_all, has_all-append_if, has_queried}
use pgxporter.Db.Documented.Servers.{
  pg_stat_bgwriter, pg_stat_io, pg_stat_wal, pg_replication_slots,
}
use pgxporter.Db.Documented.Tables.{pg_stat_user_tables, pg_stat_database}
use pgxporter.Db.Honest.{
  IsHonest, Agrees, reprobe-Agrees, version, at_least-Agrees, at_least-true, at_least-false,
}

module _ (major minor : ℕ) where
  module _ (supported : 12 ≤ major) (minor-small : minor < 10000) where
    -- The statement on pg_stat_user_tables names only columns that the server's major version has,
    -- even if some of the probes of its three calls of AtLeast fail, for a client that knows the
    -- version or none, given that the server's version is 12.0 or
    -- later with a minor below 10000.
    pub user_tables_cols-exist :
        (a13 a16 a17 : Fetched ℤ) (c : Client)
        → IsHonest (version major minor) a13
        → IsHonest (version major minor) a16
        → IsHonest (version major minor) a17
        → Agrees (version major minor) c
        → has_all pg_stat_user_tables major (user_tables_cols a13 a16 a17 c).1 ≡ true
    unfolding user_tables_cols has_all has in_range lookup
    user_tables_cols-exist a13 a16 a17 c h13 h16 h17 g =
        let c1 = (at_least a13 c (pos 13) (pos 0)).0 in
        let c2 = (at_least a16 c1 (pos 16) (pos 0)).0 in
        let g1 = at_least-Agrees major minor a13 c 13 h13 g in
        let g2 = at_least-Agrees major minor a16 c1 16 h16 g1 in
        has_all-append_if pg_stat_user_tables major (at_least a17 c2 (pos 17) (pos 0)).1
          (append_if (at_least a16 c1 (pos 16) (pos 0)).1
            (append_if (at_least a13 c (pos 13) (pos 0)).1 (user_tables_base)
              ("n_ins_since_vacuum" ∷ []))
            ("last_seq_scan" ∷ "last_idx_scan" ∷ []))
          ("n_tup_newpage_upd" ∷ [])
          (has_all-append_if pg_stat_user_tables major (at_least a16 c1 (pos 16) (pos 0)).1
            (append_if (at_least a13 c (pos 13) (pos 0)).1 (user_tables_base)
              ("n_ins_since_vacuum" ∷ []))
            ("last_seq_scan" ∷ "last_idx_scan" ∷ [])
            (has_all-append_if pg_stat_user_tables major (at_least a13 c (pos 13) (pos 0)).1
              (user_tables_base) ("n_ins_since_vacuum" ∷ []) (refl)
              (λ b. ground (
                arith,
                (at_least-true major minor (omega arith) minor-small a13 c 13 (ground arith) h13 g
                    b).0,
              )))
            (λ b. ground (
              arith,
              (at_least-true major minor (omega arith) minor-small a16 c1 16 (ground arith) h16 g1
                  b).0,
            )))
          (λ b. ground (
            arith,
            (at_least-true major minor (omega arith) minor-small a17 c2 17 (ground arith) h17 g2
                b).0,
          ))

    -- The statement on pg_stat_database names only columns that the server's major version has,
    -- even if some of the probes of its two calls of AtLeast fail, for a client that knows the
    -- version or none, given that the server's version is 12.0 or
    -- later with a minor below 10000.
    pub database_cols-exist :
        (a12 a14 : Fetched ℤ) (c : Client)
        → IsHonest (version major minor) a12
        → IsHonest (version major minor) a14
        → Agrees (version major minor) c
        → has_all pg_stat_database major (database_cols a12 a14 c).1 ≡ true
    unfolding database_cols has_all has in_range lookup
    database_cols-exist a12 a14 c h12 h14 g =
        let c1 = (at_least a12 c (pos 12) (pos 0)).0 in
        let g1 = at_least-Agrees major minor a12 c 12 h12 g in
        has_all-append_if pg_stat_database major (at_least a14 c1 (pos 14) (pos 0)).1
          (append_if (at_least a12 c (pos 12) (pos 0)).1 (database_base)
            ("checksum_failures" ∷ "checksum_last_failure" ∷ []))
          (database_sessions)
          (has_all-append_if pg_stat_database major (at_least a12 c (pos 12) (pos 0)).1
            (database_base) ("checksum_failures" ∷ "checksum_last_failure" ∷ []) (refl)
            (λ b. ground (
              arith,
              (at_least-true major minor (omega arith) minor-small a12 c 12 (ground arith) h12 g
                  b).0,
            )))
          (λ b. ground (
            arith,
            (at_least-true major minor (omega arith) minor-small a14 c1 14 (ground arith) h14 g1
                b).0,
          ))

    -- The statement on pg_replication_slots names only columns that the server's major version has,
    -- even if some of the probes of its two calls of AtLeast fail, for a client that knows the
    -- version or none, given that the server's version is 12.0 or
    -- later with a minor below 10000.
    pub replication_slots_cols-exist :
        (a13 a16 : Fetched ℤ) (c : Client)
        → IsHonest (version major minor) a13
        → IsHonest (version major minor) a16
        → Agrees (version major minor) c
        → has_all pg_replication_slots major (replication_slots_cols a13 a16 c).1 ≡ true
    unfolding replication_slots_cols has_all has in_range lookup
    replication_slots_cols-exist a13 a16 c h13 h16 g =
        let c1 = (at_least a13 c (pos 13) (pos 0)).0 in
        let g1 = at_least-Agrees major minor a13 c 13 h13 g in
        has_all-append_if pg_replication_slots major (at_least a16 c1 (pos 16) (pos 0)).1
          (append_if (at_least a13 c (pos 13) (pos 0)).1 (replication_slots_base)
            ("wal_status" ∷ "safe_wal_size AS safe_wal_size_bytes" ∷ []))
          ("conflicting" ∷ [])
          (has_all-append_if pg_replication_slots major (at_least a13 c (pos 13) (pos 0)).1
            (replication_slots_base) ("wal_status" ∷ "safe_wal_size AS safe_wal_size_bytes" ∷ [])
            (refl)
            (λ b. ground (
              arith,
              (at_least-true major minor (omega arith) minor-small a13 c 13 (ground arith) h13 g
                  b).0,
            )))
          (λ b. ground (
            arith,
            (at_least-true major minor (omega arith) minor-small a16 c1 16 (ground arith) h16 g1
                b).0,
          ))

    -- For a client that knows the version, the statement on pg_stat_bgwriter names only columns
    -- that the server's major version has, given that the server's version is 12.0 or
    -- later with a minor below 10000.
    pub bgwriter_cols-exist :
        (a17 : Fetched ℤ) (c : Client)
        → c.server_version_num ≡ version major minor
        → has_all pg_stat_bgwriter major (bgwriter_cols a17 c).1 ≡ true
    unfolding bgwriter_cols has_all has in_range lookup
    bgwriter_cols-exist a17 c e =
        has_all-append_if pg_stat_bgwriter major (not (at_least a17 c (pos 17) (pos 0)).1)
          (bgwriter_base) (bgwriter_legacy) (refl)
          (λ b. ground (
            arith,
            at_least-false major minor (omega arith) minor-small a17 c 17 (ground arith) e
                (ground (arith, b)),
          ))

    io_cols-exist :
        (a18 : Fetched ℤ) (c : Client)
        → c.server_version_num ≡ version major minor
        → has_all pg_stat_io major (io_cols a18 c).1 ≡ true
    unfolding io_cols has_all has in_range lookup
    io_cols-exist a18 c e =
        has_all-append_if pg_stat_io major (not (at_least a18 c (pos 18) (pos 0)).1) (io_base)
          ("op_bytes" ∷ []) (refl)
          (λ b. ground (
            arith,
            at_least-false major minor (omega arith) minor-small a18 c 18 (ground arith) e
                (ground (arith, b)),
          ))

    wal_cols-exist :
        (a14 a15 : Fetched ℤ) (c : Client)
        → IsHonest (version major minor) a14
        → Agrees (version major minor) c
        → has_all pg_stat_wal major (wal_cols a14 a15 c).1 ≡ true
    unfolding wal_cols has_all has in_range lookup
    wal_cols-exist a14 a15 c h g =
        let c1 = (at_least a14 c (pos 14) (pos 0)).0 in
        elim (Bool-cases (at_least a14 c (pos 14) (pos 0)).1) [
          | inl b ↦
              let known =
                (at_least-true major minor (omega arith) minor-small a14 c 14 (ground arith) h g
                  b).1 in
              rw b (
                has_all-append_if pg_stat_wal major (not (at_least a15 c1 (pos 15) (pos 0)).1)
                  wal_base ("wal_write" ∷ "wal_sync" ∷ "wal_write_time" ∷ "wal_sync_time" ∷ []) refl
                  (λ n. ground (
                    arith,
                    at_least-false major minor (omega arith) minor-small a15 c1 15 (ground arith)
                        known (ground (arith, n)),
                  )))
          | inr b ↦ rw b refl
        ]

    -- SelectPgStatWal makes no query or one that names only columns that the server's major version
    -- has, if the first two probes are honest or fail, for a client that knows the version or none,
    -- given that the server's version is 12.0 or
    -- later with a minor below 10000.
    pub select_pg_stat_wal-exist :
        (a a14 a15 : Fetched ℤ) (c : Client)
        → IsHonest (version major minor) a
        → IsHonest (version major minor) a14
        → Agrees (version major minor) c
        → has_queried pg_stat_wal major (select_pg_stat_wal a a14 a15 c).1 ≡ true
    unfolding select_pg_stat_wal has_queried
    select_pg_stat_wal-exist a a14 a15 c h k g =
        elim (Bool-cases (at_least a c (pos 14) (pos 0)).1) [
          | inl b ↦ rw b (
              wal_cols-exist a14 a15 (at_least a c (pos 14) (pos 0)).0 k
                (at_least-Agrees major minor a c 14 h g))
          | inr b ↦ rw b refl
        ]

    -- SelectPgStatIO makes no query or one that names only columns that the server's major version
    -- has, if the first probe is honest or fails, for a client that knows the version or none,
    -- given that the server's version is 12.0 or
    -- later with a minor below 10000.
    pub select_pg_stat_io-exist :
        (a16 a18 : Fetched ℤ) (c : Client)
        → IsHonest (version major minor) a16
        → Agrees (version major minor) c
        → has_queried pg_stat_io major (select_pg_stat_io a16 a18 c).1 ≡ true
    unfolding select_pg_stat_io has_queried
    select_pg_stat_io-exist a16 a18 c h g = elim (Bool-cases (at_least a16 c (pos 16) (pos 0)).1) [
      | inl b ↦ rw b (
          io_cols-exist a18 (at_least a16 c (pos 16) (pos 0)).0
            (at_least-true major minor (omega arith) minor-small a16 c 16 (ground arith) h g b).1)
      | inr b ↦ rw b refl
    ]

  -- For a client that knows no version and whose probe fails, the statement on pg_stat_bgwriter
  -- names columns that a server of major version 17 or later does not have.
  pub bgwriter_cols-unknown :
      (err : String) (c : Client)
      → 17 ≤ major
      → c.server_version_num ≡ pos 0
      → has_all pg_stat_bgwriter major (bgwriter_cols (failed err) c).1 ≡ false
  unfolding bgwriter_cols has_all has in_range lookup at_least reaches is_zero
  bgwriter_cols-unknown err c k e =
      let z : (reprobe (failed err) c).server_version_num ≡ pos 0 =
        (elim (reprobe-Agrees (pos 0) (failed err) c (inr (err, refl)) (inl e)) [
          | inl x ↦ x
          | inr x ↦ x
        ]) in
      rw z (ground arith)
