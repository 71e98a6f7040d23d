-- ===== src/Collectors/ProgressCopy.antt =====
-- exporter/collectors/pg_stat_progress.go: PgStatProgressCopyCollector, with its row from exporter/db/model/model.go.
use pgxporter.Prelude.{String, refl, List, [], ◌∷◌, All}
use pgxporter.Prometheus.{Prom}
use pgxporter.Emit.{Int8, Text, Action, Decl, emit_gauge, for_each, in_order, string}
use pgxporter.Emit.Shapes.{IsDeclared}
use pgxporter.Emit.Declared.{declared, in_order-IsDeclared, for_each-IsDeclared, all_fit}
use pgxporter.Emit.Labelled.{IsLabelled, in_order-IsLabelled, for_each-IsLabelled}
use pgxporter.Collectors.Names.{Namespaces, gauge_factory}
use pgxporter.Collectors.{
  Fetched, Outcome, scraped, scraped-IsDeclared, of_rows, scraped-IsLabelled, Collector, names_all,
}

pub record PgStatProgressCopy : Type 0 where
  pub database : Text
  pub dat_name : Text
  pub rel_id : Text
  pub command : Text
  pub type : Text
  pub bytes_total : Int8
  pub bytes_processed : Int8
  pub tuples_processed : Int8
  pub tuples_excluded : Int8

pub new_pg_stat_progress_copy_collector : Namespaces → List Decl
new_pg_stat_progress_copy_collector n =
    let labels : List String = "database" ∷ "datname" ∷ "relid" ∷ "command" ∷ "type" ∷ [] in
    let gauge = gauge_factory n "progress_copy" labels in
    gauge "bytes_total" "bytes_total" "Estimated total bytes to process (0 if unknown)"
    ∷ gauge "bytes_processed" "bytes_processed" "Bytes processed so far"
    ∷ gauge "tuples_processed" "tuples_processed" "Tuples processed so far"
    ∷ gauge "tuples_excluded" "tuples_excluded" "Tuples excluded by WHERE clause"
    ∷ []

pub describe : List String
describe = "bytes_total" ∷ "bytes_processed" ∷ "tuples_processed" ∷ "tuples_excluded" ∷ []

pub collect_into : List String
collect_into = "bytes_total" ∷ "bytes_processed" ∷ "tuples_processed" ∷ "tuples_excluded" ∷ []

module _ (P : Prom) where
  emit_row : PgStatProgressCopy → List (Action P)
  emit_row stat =
      let labels =
        string stat.database
        ∷ string stat.dat_name
        ∷ string stat.rel_id
        ∷ string stat.command
        ∷ string stat.type
        ∷ [] in
      in_order (
        emit_gauge "bytes_total" stat.bytes_total labels
        ∷ emit_gauge "bytes_processed" stat.bytes_processed labels
        ∷ emit_gauge "tuples_processed" stat.tuples_processed labels
        ∷ emit_gauge "tuples_excluded" stat.tuples_excluded labels
        ∷ [])

  unfoldable pub emit : List PgStatProgressCopy → List (Action P)
  unfolding emit_row
  emit = for_each emit_row

  unfoldable pub scrape : Fetched (List PgStatProgressCopy) → Outcome P
  unfolding emit
  scrape = scraped "progress_copy: " emit

  module _ (n : Namespaces) where
    emit_row-IsDeclared :
        (stat : PgStatProgressCopy)
        → All (IsDeclared (declared (new_pg_stat_progress_copy_collector n))) (emit_row stat)
    unfolding emit_row new_pg_stat_progress_copy_collector all_fit emit_gauge
    emit_row-IsDeclared stat = in_order-IsDeclared P _ _ refl

    emit_row-IsLabelled :
        (stat : PgStatProgressCopy) → All (IsLabelled (string stat.database)) (emit_row stat)
    unfolding emit_row emit_gauge
    emit_row-IsLabelled stat = in_order-IsLabelled P _ _ refl

    pub collector : Collector P
    unfolding describe collect_into new_pg_stat_progress_copy_collector scrape emit names_all
    collector = record {
      scrape_prefix = "scraping: ";
      Input = Fetched (List PgStatProgressCopy);
      decls = new_pg_stat_progress_copy_collector n;
      describe = describe;
      collect_into = collect_into;
      scrape = scrape;
      scrape-IsDeclared =
          scraped-IsDeclared P _ _ _ (for_each-IsDeclared P _ emit_row emit_row-IsDeclared);
      databases = of_rows (λ stat. string stat.database);
      scrape-IsLabelled =
          scraped-IsLabelled P _ _ _
            (for_each-IsLabelled P emit_row (λ stat. string stat.database) emit_row-IsLabelled);
      describes_all = refl;
      collects_all = refl;
    }
