-- ===== src/Collectors/Archiver.antt =====
-- exporter/collectors/pg_stat_archiver.go: PgStatArchiverCollector, with its row from exporter/db/model/model.go.
use pgxporter.Prelude.{String, refl, List, [], ◌∷◌, All}
use pgxporter.Prometheus.{Prom}
use pgxporter.Emit.{
  Int8, Text, Timestamptz, Action, Decl, emit_counter, emit_time, for_each, in_order, string,
}
use pgxporter.Emit.Shapes.{IsDeclared}
use pgxporter.Emit.Declared.{declared, in_order-IsDeclared, for_each-IsDeclared, all_fit}
use pgxporter.Emit.Labelled.{IsLabelled, in_order-IsLabelled, for_each-IsLabelled}
use pgxporter.Collectors.Names.{Namespaces, counter_factory, gauge_factory}
use pgxporter.Collectors.{
  Fetched, Outcome, scraped, scraped-IsDeclared, of_rows, scraped-IsLabelled, Collector, names_all,
}

pub record PgStatArchiver : Type 0 where
  pub database : Text
  pub archived_count : Int8
  pub last_archived_time : Timestamptz
  pub failed_count : Int8
  pub last_failed_time : Timestamptz
  pub stats_reset : Timestamptz

unfoldable pub new_pg_stat_archiver_collector : Namespaces → List Decl
new_pg_stat_archiver_collector n =
    let labels : List String = "database" ∷ [] in
    let counter = counter_factory n "archiver" labels in
    let gauge = gauge_factory n "archiver" labels in
    counter "archived_count" "archived_count_total" "WAL files successfully archived"
    ∷ gauge "last_archived_time" "last_archived_timestamp_seconds"
        "Unix time of the most recent successful archive"
    ∷ counter "failed_count" "failed_count_total" "Failed attempts to archive WAL files"
    ∷ gauge "last_failed_time" "last_failed_timestamp_seconds"
        "Unix time of the most recent archive failure"
    ∷ gauge "stats_reset" "stats_reset_timestamp_seconds"
        "Unix time at which these stats were last reset"
    ∷ []

unfoldable pub describe : List String
describe =
    "archived_count" ∷ "last_archived_time" ∷ "failed_count" ∷ "last_failed_time" ∷ "stats_reset"
    ∷ []

unfoldable pub collect_into : List String
collect_into =
    "archived_count" ∷ "last_archived_time" ∷ "failed_count" ∷ "last_failed_time" ∷ "stats_reset"
    ∷ []

module _ (P : Prom) where
  unfoldable pub emit_row : PgStatArchiver → List (Action P)
  emit_row stat =
      let labels = string stat.database ∷ [] in
      in_order (
        emit_counter "archived_count" stat.archived_count labels
        ∷ emit_time "last_archived_time" stat.last_archived_time labels
        ∷ emit_counter "failed_count" stat.failed_count labels
        ∷ emit_time "last_failed_time" stat.last_failed_time labels
        ∷ emit_time "stats_reset" stat.stats_reset labels
        ∷ [])

  unfoldable pub emit : List PgStatArchiver → List (Action P)
  unfolding emit_row
  emit = for_each emit_row

  unfoldable pub scrape : Fetched (List PgStatArchiver) → Outcome P
  scrape = scraped "archiver stats: " emit

  module _ (n : Namespaces) where
    pub emit_row-IsDeclared :
        (stat : PgStatArchiver)
        → All (IsDeclared (declared (new_pg_stat_archiver_collector n))) (emit_row stat)
    unfolding emit_row new_pg_stat_archiver_collector all_fit emit_counter emit_time
    emit_row-IsDeclared stat = in_order-IsDeclared P _ _ refl

    pub emit_row-IsLabelled :
        (stat : PgStatArchiver) → All (IsLabelled (string stat.database)) (emit_row stat)
    unfolding emit_row emit_counter emit_time
    emit_row-IsLabelled stat = in_order-IsLabelled P _ _ refl

    unfoldable pub collector : Collector P
    unfolding describe collect_into new_pg_stat_archiver_collector scrape emit names_all
    collector = record {
      scrape_prefix = "scraping: ";
      Input = Fetched (List PgStatArchiver);
      decls = new_pg_stat_archiver_collector n;
      describe = describe;
      collect_into = collect_into;
      scrape = scrape;
      scrape-IsDeclared =
          scraped-IsDeclared P _ _ _ (for_each-IsDeclared P _ emit_row emit_row-IsDeclared);
      databases = of_rows (λ stat. string stat.database);
      scrape-IsLabelled =
          scraped-IsLabelled P _ _ _
            (for_each-IsLabelled P emit_row (λ stat. string stat.database) emit_row-IsLabelled);
      describes_all = refl;
      collects_all = refl;
    }
