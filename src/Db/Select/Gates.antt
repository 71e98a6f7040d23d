-- ===== src/Db/Select/Gates.antt =====
-- exporter/db/pg_*.go: which servers a Select method queries.
use mathlib.Core.Option
use pgxporter.Prelude.{
  ℕ, String, List, ◌<◌, ◌≤◌, ◌≡◌, refl, ◌↔◌, false, Option, none, some, arith, inl, inr, Bool-cases,
}
use pgxporter.Prelude.Int.{ℤ, pos}
use pgxporter.Collectors.{Fetched}
use pgxporter.Db.{Client, at_least}
use pgxporter.Db.Queries.{select_pg_stat_io, select_pg_stat_wal}
use pgxporter.Db.Honest.{IsHonest, version, at_least-true, at_least-false}
use pgxporter.Db.Statements.{Query, gate}
use pgxporter.Db.Statements.Versioned.{over}
use pgxporter.Db.Select.{
  View, database_size, locks, locks_blocking_summary, replication_slots, settings, activity,
  archiver, bgwriter, checkpointer, database, io, progress_analyze, progress_basebackup,
  progress_copy, progress_create_index, progress_cluster, progress_vacuum, replication, slru, ssl,
  statements, subscription, subscription_stats, user_indexes, user_tables, wal, wal_receiver,
  io_user_indexes, io_user_tables, select,
}
use pgxporter.Db.Select.Exists.{relation, introduced}

map-none :
    (source : String) (cols : Option (List String))
    → (Option.map (over source) cols ≡ none) ↔ (cols ≡ none)
map-none source none = ((λ h. refl), (λ h. refl))
map-none source (some cols) = ((λ h. cc h), (λ h. cc h))

always :
    (n major : ℕ) {q : Query} → n ≤ major → (◌≡◌ {A = Option Query} (some q) none) ↔ (major < n)
always n major h = ((λ e. cc e), (λ l. absurd (omega arith)))

-- A server of version `major`.`minor`, which the client knows.
module _ (major minor : ℕ) (major-pos : 0 < major) (minor-small : minor < 10000) where
  abbrev Knows : Client → Type 0
  Knows c = c.server_version_num ≡ version major minor

  at_least_iff :
      (m : ℕ) (answer : Fetched ℤ) (c : Client)
      → m < 900
      → IsHonest (version major minor) answer
      → Knows c
      → ((at_least answer c (pos m) (pos 0)).1 ≡ false) ↔ (major < m)
  at_least_iff m answer c k h e = (
    at_least-false major minor major-pos minor-small answer c m k e,
    λ (l : major < m). elim (Bool-cases (at_least answer c (pos m) (pos 0)).1) [
      | inl t ↦
          let r = (at_least-true major minor major-pos minor-small answer c m k h (inl e) t).0 in
          absurd (omega arith)
      | inr f ↦ f
    ],
  )

  gate-none :
      (m : ℕ) (q : Query) (answer : Fetched ℤ) (c : Client)
      → m < 900
      → IsHonest (version major minor) answer
      → Knows c
      → ((gate m q answer c).1 ≡ none) ↔ (major < m)
  unfolding gate
  gate-none m q answer c k h e =
      let d = at_least_iff m answer c k h e in
      elim (Bool-cases (at_least answer c (pos m) (pos 0)).1) [
        | inl t ↦ ((λ n. cc (rw t at n)), (λ l. cc (d.1 l)))
        | inr f ↦ ((λ n. d.0 f), (λ l. rw f))
      ]

  io-none :
      (a16 a18 : Fetched ℤ) (c : Client)
      → IsHonest (version major minor) a16
      → Knows c
      → ((select_pg_stat_io a16 a18 c).1 ≡ none) ↔ (major < 16)
  unfolding select_pg_stat_io
  io-none a16 a18 c h e =
      let d = at_least_iff 16 a16 c (omega arith) h e in
      elim (Bool-cases (at_least a16 c (pos 16) (pos 0)).1) [
        | inl t ↦ ((λ n. cc (rw t at n)), (λ l. cc (d.1 l)))
        | inr f ↦ ((λ n. d.0 f), (λ l. rw f))
      ]

  wal-none :
      (a a14 a15 : Fetched ℤ) (c : Client)
      → IsHonest (version major minor) a
      → Knows c
      → ((select_pg_stat_wal a a14 a15 c).1 ≡ none) ↔ (major < 14)
  unfolding select_pg_stat_wal
  wal-none a a14 a15 c h e =
      let d = at_least_iff 14 a c (omega arith) h e in
      elim (Bool-cases (at_least a c (pos 14) (pos 0)).1) [
        | inl t ↦ ((λ n. cc (rw t at n)), (λ l. cc (d.1 l)))
        | inr f ↦ ((λ n. d.0 f), (λ l. rw f))
      ]

  -- A view that 12 has needs a server from 12 on.
  pub select-none_given :
      (view : View) (answers : ℕ → Fetched ℤ) (c : Client)
      → (introduced view ≤ 12 → 12 ≤ major)
      → ((n : ℕ) → IsHonest (version major minor) (answers n))
      → c.server_version_num ≡ version major minor
      → ((select view answers c).1 ≡ none) ↔ (major < introduced view)
  unfolding select introduced relation
  select-none_given database_size answers c k h e =
      always 7 major (let l = k (omega arith) in omega arith)
  select-none_given locks answers c k h e = always 7 major (let l = k (omega arith) in omega arith)
  select-none_given locks_blocking_summary answers c k h e =
      always 9 major (let l = k (omega arith) in omega arith)
  select-none_given replication_slots answers c k h e =
      always 9 major (let l = k (omega arith) in omega arith)
  select-none_given settings answers c k h e =
      always 7 major (let l = k (omega arith) in omega arith)
  select-none_given activity answers c k h e =
      always 7 major (let l = k (omega arith) in omega arith)
  select-none_given archiver answers c k h e =
      always 9 major (let l = k (omega arith) in omega arith)
  select-none_given bgwriter answers c k h e =
      always 8 major (let l = k (omega arith) in omega arith)
  select-none_given checkpointer answers c q h e =
      gate-none 17 _ (answers 0) c (omega arith) (h 0) e
  select-none_given database answers c k h e =
      always 7 major (let l = k (omega arith) in omega arith)
  select-none_given io answers c q h e =
      let (k, l) = map-none "pg_stat_io" (select_pg_stat_io (answers 0) (answers 1) c).1 in
      let (m, n) = io-none (answers 0) (answers 1) c (h 0) e in ((λ z. m (k z)), (λ z. l (n z)))
  select-none_given progress_analyze answers c q h e =
      gate-none 13 _ (answers 0) c (omega arith) (h 0) e
  select-none_given progress_basebackup answers c q h e =
      gate-none 13 _ (answers 0) c (omega arith) (h 0) e
  select-none_given progress_copy answers c q h e =
      gate-none 14 _ (answers 0) c (omega arith) (h 0) e
  select-none_given progress_create_index answers c k h e =
      always 12 major (let l = k (omega arith) in omega arith)
  select-none_given progress_cluster answers c k h e =
      always 12 major (let l = k (omega arith) in omega arith)
  select-none_given progress_vacuum answers c k h e =
      always 9 major (let l = k (omega arith) in omega arith)
  select-none_given replication answers c k h e =
      always 9 major (let l = k (omega arith) in omega arith)
  select-none_given slru answers c q h e = gate-none 13 _ (answers 0) c (omega arith) (h 0) e
  select-none_given ssl answers c k h e = always 9 major (let l = k (omega arith) in omega arith)
  select-none_given statements answers c k h e =
      always 8 major (let l = k (omega arith) in omega arith)
  select-none_given subscription answers c k h e =
      always 10 major (let l = k (omega arith) in omega arith)
  select-none_given subscription_stats answers c q h e =
      gate-none 15 _ (answers 0) c (omega arith) (h 0) e
  select-none_given user_indexes answers c k h e =
      always 7 major (let l = k (omega arith) in omega arith)
  select-none_given user_tables answers c k h e =
      always 7 major (let l = k (omega arith) in omega arith)
  select-none_given wal answers c q h e =
      let (k, l) =
        map-none "pg_stat_wal" (select_pg_stat_wal (answers 0) (answers 1) (answers 2) c).1 in
      let (m, n) = wal-none (answers 0) (answers 1) (answers 2) c (h 0) e in
      ((λ z. m (k z)), (λ z. l (n z)))
  select-none_given wal_receiver answers c k h e =
      always 9 major (let l = k (omega arith) in omega arith)
  select-none_given io_user_indexes answers c k h e =
      always 7 major (let l = k (omega arith) in omega arith)
  select-none_given io_user_tables answers c k h e =
      always 7 major (let l = k (omega arith) in omega arith)

-- A Select method of a client that knows the server's version makes no query exactly if the version
-- is below the first major version with the view, given that the server's version is 12.0 or later
-- with a minor below 10000, and that probes are answered with the version or fail.
pub select-none :
    (major minor : ℕ) (view : View) (answers : ℕ → Fetched ℤ) (c : Client)
    → 12 ≤ major
    → minor < 10000
    → ((n : ℕ) → IsHonest (version major minor) (answers n))
    → c.server_version_num ≡ version major minor
    → ((select view answers c).1 ≡ none) ↔ (major < introduced view)
select-none major minor view answers c p q h e =
    select-none_given major minor (omega arith) q view answers c (λ n. p) h e
