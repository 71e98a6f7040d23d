-- ===== src/Collectors/ProgressAnalyze.antt =====
-- exporter/collectors/pg_stat_progress.go: PgStatProgressAnalyzeCollector, with its row from exporter/db/model/model.go.
use pgxporter.Prelude.{String, refl, List, [], ◌∷◌, All}
use pgxporter.Prometheus.{Prom}
use pgxporter.Emit.{Int8, Text, Action, Decl, emit_gauge, for_each, in_order, string}
use pgxporter.Emit.Shapes.{IsDeclared}
use pgxporter.Emit.Declared.{declared, in_order-IsDeclared, for_each-IsDeclared, all_fit}
use pgxporter.Emit.Labelled.{IsLabelled, in_order-IsLabelled, for_each-IsLabelled}
use pgxporter.Collectors.Names.{Namespaces, gauge_factory}
use pgxporter.Collectors.{
  Fetched, Outcome, scraped, scraped-IsDeclared, of_rows, scraped-IsLabelled, Collector, names_all,
}

pub record PgStatProgressAnalyze : Type 0 where
  pub database : Text
  pub dat_name : Text
  pub rel_id : Text
  pub phase : Text
  pub sample_blks_total : Int8
  pub sample_blks_scanned : Int8
  pub ext_stats_total : Int8
  pub ext_stats_computed : Int8
  pub child_tables_total : Int8
  pub child_tables_done : Int8

pub new_pg_stat_progress_analyze_collector : Namespaces → List Decl
new_pg_stat_progress_analyze_collector n =
    let labels : List String = "database" ∷ "datname" ∷ "relid" ∷ "phase" ∷ [] in
    let gauge = gauge_factory n "progress_analyze" labels in
    gauge "sample_blks_total" "sample_blks_total" "Total heap blocks to sample"
    ∷ gauge "sample_blks_scanned" "sample_blks_scanned" "Heap blocks scanned so far"
    ∷ gauge "ext_stats_total" "ext_stats_total" "Extended statistics to compute"
    ∷ gauge "ext_stats_computed" "ext_stats_computed" "Extended statistics computed so far"
    ∷ gauge "child_tables_total" "child_tables_total" "Child tables to analyze (partitioned)"
    ∷ gauge "child_tables_done" "child_tables_done" "Child tables analyzed so far"
    ∷ []

pub describe : List String
describe =
    "sample_blks_total" ∷ "sample_blks_scanned" ∷ "ext_stats_total" ∷ "ext_stats_computed"
    ∷ "child_tables_total" ∷ "child_tables_done" ∷ []

pub collect_into : List String
collect_into =
    "sample_blks_total" ∷ "sample_blks_scanned" ∷ "ext_stats_total" ∷ "ext_stats_computed"
    ∷ "child_tables_total" ∷ "child_tables_done" ∷ []

module _ (P : Prom) where
  emit_row : PgStatProgressAnalyze → List (Action P)
  emit_row stat =
      let labels =
        string stat.database ∷ string stat.dat_name ∷ string stat.rel_id ∷ string stat.phase ∷ [] in
      in_order (
        emit_gauge "sample_blks_total" stat.sample_blks_total labels
        ∷ emit_gauge "sample_blks_scanned" stat.sample_blks_scanned labels
        ∷ emit_gauge "ext_stats_total" stat.ext_stats_total labels
        ∷ emit_gauge "ext_stats_computed" stat.ext_stats_computed labels
        ∷ emit_gauge "child_tables_total" stat.child_tables_total labels
        ∷ emit_gauge "child_tables_done" stat.child_tables_done labels
        ∷ [])

  unfoldable pub emit : List PgStatProgressAnalyze → List (Action P)
  unfolding emit_row
  emit = for_each emit_row

  unfoldable pub scrape : Fetched (List PgStatProgressAnalyze) → Outcome P
  unfolding emit
  scrape = scraped "progress_analyze: " emit

  module _ (n : Namespaces) where
    emit_row-IsDeclared :
        (stat : PgStatProgressAnalyze)
        → All (IsDeclared (declared (new_pg_stat_progress_analyze_collector n))) (emit_row stat)
    unfolding emit_row new_pg_stat_progress_analyze_collector all_fit emit_gauge
    emit_row-IsDeclared stat = in_order-IsDeclared P _ _ refl

    emit_row-IsLabelled :
        (stat : PgStatProgressAnalyze) → All (IsLabelled (string stat.database)) (emit_row stat)
    unfolding emit_row emit_gauge
    emit_row-IsLabelled stat = in_order-IsLabelled P _ _ refl

    pub collector : Collector P
    unfolding describe collect_into new_pg_stat_progress_analyze_collector scrape emit names_all
    collector = record {
      scrape_prefix = "scraping: ";
      Input = Fetched (List PgStatProgressAnalyze);
      decls = new_pg_stat_progress_analyze_collector n;
      describe = describe;
      collect_into = collect_into;
      scrape = scrape;
      scrape-IsDeclared =
          scraped-IsDeclared P _ _ _ (for_each-IsDeclared P _ emit_row emit_row-IsDeclared);
      databases = of_rows (λ stat. string stat.database);
      scrape-IsLabelled =
          scraped-IsLabelled P _ _ _
            (for_each-IsLabelled P emit_row (λ stat. string stat.database) emit_row-IsLabelled);
      describes_all = refl;
      collects_all = refl;
    }
