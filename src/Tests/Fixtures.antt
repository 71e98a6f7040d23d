-- ===== src/Tests/Fixtures.antt =====
-- Two servers with pg_stat_archiver, and a scrape of them.
use pgxporter.Prelude.{String, none, some, List, [], ◌∷◌}
use pgxporter.Prelude.Int.{ℤ, pos}
use pgxporter.Prometheus.Model.{prom_ℤ}
use pgxporter.Emit.{Fields, construct}
use pgxporter.Collectors.{rows, Collector}
use pgxporter.Collectors.Names.{initial}
use pgxporter.Collectors.Archiver.{PgStatArchiver, collector}

abbrev pub archiver : Collector prom_ℤ
archiver = collector prom_ℤ initial

abbrev pub archiver_row : String → ℤ → PgStatArchiver
archiver_row database n = record {
  database = some database;
  archived_count = some n;
  last_archived_time = some (pos 1700000000000000);
  failed_count = none;
  last_failed_time = none;
  stats_reset = none;
}

abbrev pub fresh : Fields prom_ℤ
fresh = construct prom_ℤ archiver.decls

unfoldable pub two_servers : List archiver.Input
unfolding collector
two_servers = rows (archiver_row "app" (pos 7) ∷ []) ∷ rows (archiver_row "shop" (pos 9) ∷ []) ∷ []
