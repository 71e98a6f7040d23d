-- ===== src/Db/Select/Silent.antt =====
-- The collectors of exporter/collectors whose Select method has a gate, on the servers that it leaves out.
use pgxporter.Prelude.{ℕ, ◌<◌, ◌≤◌, ◌≡◌, refl, ap, ◌∙◌, none, List, [], arith}
use pgxporter.Prelude.Int.{ℤ}
use pgxporter.Prometheus.{Prom}
use pgxporter.Emit.{for_each}
use pgxporter.Collectors.{Fetched, rows, Outcome}
use pgxporter.Collectors.Checkpointer
use pgxporter.Collectors.Checkpointer.{PgStatCheckpointer}
use pgxporter.Collectors.Io
use pgxporter.Collectors.Io.{PgStatIo}
use pgxporter.Collectors.Slru
use pgxporter.Collectors.Slru.{PgStatSlru}
use pgxporter.Collectors.Wal
use pgxporter.Collectors.Wal.{PgStatWal}
use pgxporter.Collectors.ProgressAnalyze
use pgxporter.Collectors.ProgressAnalyze.{PgStatProgressAnalyze}
use pgxporter.Collectors.ProgressBasebackup
use pgxporter.Collectors.ProgressBasebackup.{PgStatProgressBasebackup}
use pgxporter.Collectors.ProgressCopy
use pgxporter.Collectors.ProgressCopy.{PgStatProgressCopy}
use pgxporter.Db.{Client}
use pgxporter.Db.Honest.{IsHonest, version}
use pgxporter.Db.Statements.{Query, fetch}
use pgxporter.Db.Select.{
  View, checkpointer, io, progress_analyze, progress_basebackup, progress_copy, slru, wal, select,
}
use pgxporter.Db.Select.Exists.{relation, introduced}
use pgxporter.Db.Select.Gates.{select-none_given}

-- A collector with one Select method, which has a gate.
pub data Gated : Type 0 where
  of_checkpointer of_io of_progress_analyze of_progress_basebackup of_progress_copy of_slru of_wal :
      Gated

abbrev pub view_of : Gated → View
view_of of_checkpointer = checkpointer
view_of of_io = io
view_of of_progress_analyze = progress_analyze
view_of of_progress_basebackup = progress_basebackup
view_of of_progress_copy = progress_copy
view_of of_slru = slru
view_of of_wal = wal

module _ (P : Prom) where
  abbrev pub Row : Gated → Type 0
  Row of_checkpointer = PgStatCheckpointer P
  Row of_io = PgStatIo P
  Row of_progress_analyze = PgStatProgressAnalyze
  Row of_progress_basebackup = PgStatProgressBasebackup
  Row of_progress_copy = PgStatProgressCopy
  Row of_slru = PgStatSlru
  Row of_wal = PgStatWal P

  unfoldable pub scrape_of : (g : Gated) → Fetched (List (Row g)) → Outcome P
  scrape_of of_checkpointer = Checkpointer.scrape P
  scrape_of of_io = Io.scrape P
  scrape_of of_progress_analyze = ProgressAnalyze.scrape P
  scrape_of of_progress_basebackup = ProgressBasebackup.scrape P
  scrape_of of_progress_copy = ProgressCopy.scrape P
  scrape_of of_slru = Slru.scrape P
  scrape_of of_wal = Wal.scrape P

  -- One client's part of a scrape: the Select method, and what the collector does with its rows.
  unfoldable pub scrape_client :
      (g : Gated) → (Query → Fetched (List (Row g))) → (ℕ → Fetched ℤ) → Client → Outcome P
  unfolding scrape_of fetch
  scrape_client g run answers c = scrape_of g (fetch run (select (view_of g) answers c).1)

  abbrev pub silent : Outcome P
  silent = record { calls = []; error = none }

  scrape_of-nothing : (g : Gated) → scrape_of g (rows []) ≡ silent
  unfolding scrape_of for_each Checkpointer.scrape Io.scrape ProgressAnalyze.scrape
      ProgressBasebackup.scrape ProgressCopy.scrape Slru.scrape Wal.scrape
  scrape_of-nothing of_checkpointer = refl
  scrape_of-nothing of_io = refl
  scrape_of-nothing of_progress_analyze = refl
  scrape_of-nothing of_progress_basebackup = refl
  scrape_of-nothing of_progress_copy = refl
  scrape_of-nothing of_slru = refl
  scrape_of-nothing of_wal = refl

  -- None of these views is in 12.
  gated-late : (g : Gated) (major : ℕ) → introduced (view_of g) ≤ 12 → 12 ≤ major
  unfolding introduced relation
  gated-late of_checkpointer major h = absurd (omega arith)
  gated-late of_io major h = absurd (omega arith)
  gated-late of_progress_analyze major h = absurd (omega arith)
  gated-late of_progress_basebackup major h = absurd (omega arith)
  gated-late of_progress_copy major h = absurd (omega arith)
  gated-late of_slru major h = absurd (omega arith)
  gated-late of_wal major h = absurd (omega arith)

  -- The collectors of pg_stat_checkpointer, pg_stat_io, pg_stat_slru, pg_stat_wal and the progress
  -- of ANALYZE, BASE_BACKUP and COPY make no calls and no error for a client that knows the version
  -- of its server if that is below the first major version with the view, whatever the database
  -- answers to queries, given that the server's major is positive, its minor below 10000, and that
  -- probes are answered with the version or fail.
  pub scrape_client-silent :
      (major minor : ℕ) (g : Gated) (run : Query → Fetched (List (Row g))) (answers : ℕ → Fetched ℤ)
      (c : Client)
      → 0 < major
      → minor < 10000
      → ((n : ℕ) → IsHonest (version major minor) (answers n))
      → c.server_version_num ≡ version major minor
      → major < introduced (view_of g)
      → scrape_client g run answers c ≡ silent
  unfolding scrape_client fetch
  scrape_client-silent major minor g run answers c p q h e l =
      let n =
        (select-none_given major minor p q (view_of g) answers c (gated-late g major) h e).1 l in
      ap (λ o. scrape_of g (fetch run o)) n ∙ scrape_of-nothing g
