-- ===== src/Collectors/ProgressBasebackup.antt =====
-- exporter/collectors/pg_stat_progress.go: PgStatProgressBasebackupCollector, with its row from exporter/db/model/model.go.
use pgxporter.Prelude.{String, refl, List, [], ◌∷◌, All}
use pgxporter.Prometheus.{Prom}
use pgxporter.Emit.{Int8, Text, Action, Decl, emit_gauge, for_each, in_order, string}
use pgxporter.Emit.Shapes.{IsDeclared}
use pgxporter.Emit.Declared.{declared, in_order-IsDeclared, for_each-IsDeclared, all_fit}
use pgxporter.Emit.Labelled.{IsLabelled, in_order-IsLabelled, for_each-IsLabelled}
use pgxporter.Collectors.Names.{Namespaces, gauge_factory}
use pgxporter.Collectors.{
  Fetched, Outcome, scraped, scraped-IsDeclared, of_rows, scraped-IsLabelled, Collector, names_all,
}

pub record PgStatProgressBasebackup : Type 0 where
  pub database : Text
  pub phase : Text
  pub backup_total_bytes : Int8
  pub backup_streamed_bytes : Int8
  pub tablespaces_total : Int8
  pub tablespaces_streamed : Int8

pub new_pg_stat_progress_basebackup_collector : Namespaces → List Decl
new_pg_stat_progress_basebackup_collector n =
    let labels : List String = "database" ∷ "phase" ∷ [] in
    let gauge = gauge_factory n "progress_basebackup" labels in
    gauge "backup_total_bytes" "backup_total_bytes" "Estimated total backup size, bytes"
    ∷ gauge "backup_streamed_bytes" "backup_streamed_bytes" "Bytes streamed so far"
    ∷ gauge "tablespaces_total" "tablespaces_total" "Tablespaces to stream"
    ∷ gauge "tablespaces_streamed" "tablespaces_streamed" "Tablespaces streamed so far"
    ∷ []

pub describe : List String
describe =
    "backup_total_bytes" ∷ "backup_streamed_bytes" ∷ "tablespaces_total" ∷ "tablespaces_streamed"
    ∷ []

pub collect_into : List String
collect_into =
    "backup_total_bytes" ∷ "backup_streamed_bytes" ∷ "tablespaces_total" ∷ "tablespaces_streamed"
    ∷ []

module _ (P : Prom) where
  emit_row : PgStatProgressBasebackup → List (Action P)
  emit_row stat =
      let labels = string stat.database ∷ string stat.phase ∷ [] in
      in_order (
        emit_gauge "backup_total_bytes" stat.backup_total_bytes labels
        ∷ emit_gauge "backup_streamed_bytes" stat.backup_streamed_bytes labels
        ∷ emit_gauge "tablespaces_total" stat.tablespaces_total labels
        ∷ emit_gauge "tablespaces_streamed" stat.tablespaces_streamed labels
        ∷ [])

  unfoldable pub emit : List PgStatProgressBasebackup → List (Action P)
  unfolding emit_row
  emit = for_each emit_row

  unfoldable pub scrape : Fetched (List PgStatProgressBasebackup) → Outcome P
  unfolding emit
  scrape = scraped "progress_basebackup: " emit

  module _ (n : Namespaces) where
    emit_row-IsDeclared :
        (stat : PgStatProgressBasebackup)
        → All (IsDeclared (declared (new_pg_stat_progress_basebackup_collector n))) (emit_row stat)
    unfolding emit_row new_pg_stat_progress_basebackup_collector all_fit emit_gauge
    emit_row-IsDeclared stat = in_order-IsDeclared P _ _ refl

    emit_row-IsLabelled :
        (stat : PgStatProgressBasebackup) → All (IsLabelled (string stat.database)) (emit_row stat)
    unfolding emit_row emit_gauge
    emit_row-IsLabelled stat = in_order-IsLabelled P _ _ refl

    pub collector : Collector P
    unfolding describe collect_into new_pg_stat_progress_basebackup_collector scrape emit names_all
    collector = record {
      scrape_prefix = "scraping: ";
      Input = Fetched (List PgStatProgressBasebackup);
      decls = new_pg_stat_progress_basebackup_collector n;
      describe = describe;
      collect_into = collect_into;
      scrape = scrape;
      scrape-IsDeclared =
          scraped-IsDeclared P _ _ _ (for_each-IsDeclared P _ emit_row emit_row-IsDeclared);
      databases = of_rows (λ stat. string stat.database);
      scrape-IsLabelled =
          scraped-IsLabelled P _ _ _
            (for_each-IsLabelled P emit_row (λ stat. string stat.database) emit_row-IsLabelled);
      describes_all = refl;
      collects_all = refl;
    }
