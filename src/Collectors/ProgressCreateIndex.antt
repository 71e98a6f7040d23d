-- ===== src/Collectors/ProgressCreateIndex.antt =====
-- exporter/collectors/pg_stat_progress.go: PgStatProgressCreateIndexCollector, with its row from exporter/db/model/model.go.
use pgxporter.Prelude.{String, refl, List, [], ◌∷◌, All}
use pgxporter.Prometheus.{Prom}
use pgxporter.Emit.{Int8, Text, Action, Decl, emit_gauge, for_each, in_order, string}
use pgxporter.Emit.Shapes.{IsDeclared}
use pgxporter.Emit.Declared.{declared, in_order-IsDeclared, for_each-IsDeclared, all_fit}
use pgxporter.Emit.Labelled.{IsLabelled, in_order-IsLabelled, for_each-IsLabelled}
use pgxporter.Collectors.Names.{Namespaces, gauge_factory}
use pgxporter.Collectors.{
  Fetched, Outcome, scraped, scraped-IsDeclared, of_rows, scraped-IsLabelled, Collector, names_all,
}

pub record PgStatProgressCreateIndex : Type 0 where
  pub database : Text
  pub dat_name : Text
  pub rel_id : Text
  pub index_rel_id : Text
  pub command : Text
  pub phase : Text
  pub lockers_total : Int8
  pub lockers_done : Int8
  pub blocks_total : Int8
  pub blocks_done : Int8
  pub tuples_total : Int8
  pub tuples_done : Int8
  pub partitions_total : Int8
  pub partitions_done : Int8

pub new_pg_stat_progress_create_index_collector : Namespaces → List Decl
new_pg_stat_progress_create_index_collector n =
    let labels : List String =
      "database" ∷ "datname" ∷ "relid" ∷ "index_relid" ∷ "command" ∷ "phase" ∷ [] in
    let gauge = gauge_factory n "progress_create_index" labels in
    gauge "lockers_total" "lockers_total" "Transactions holding conflicting locks"
    ∷ gauge "lockers_done" "lockers_done" "Locking transactions that have finished"
    ∷ gauge "blocks_total" "blocks_total" "Blocks to process in this phase"
    ∷ gauge "blocks_done" "blocks_done" "Blocks processed so far"
    ∷ gauge "tuples_total" "tuples_total" "Tuples to process in this phase"
    ∷ gauge "tuples_done" "tuples_done" "Tuples processed so far"
    ∷ gauge "partitions_total" "partitions_total" "Child partitions to process"
    ∷ gauge "partitions_done" "partitions_done" "Child partitions processed so far"
    ∷ []

pub describe : List String
describe =
    "lockers_total" ∷ "lockers_done" ∷ "blocks_total" ∷ "blocks_done" ∷ "tuples_total"
    ∷ "tuples_done" ∷ "partitions_total" ∷ "partitions_done" ∷ []

pub collect_into : List String
collect_into =
    "lockers_total" ∷ "lockers_done" ∷ "blocks_total" ∷ "blocks_done" ∷ "tuples_total"
    ∷ "tuples_done" ∷ "partitions_total" ∷ "partitions_done" ∷ []

module _ (P : Prom) where
  emit_row : PgStatProgressCreateIndex → List (Action P)
  emit_row stat =
      let labels =
        string stat.database
        ∷ string stat.dat_name
        ∷ string stat.rel_id
        ∷ string stat.index_rel_id
        ∷ string stat.command
        ∷ string stat.phase
        ∷ [] in
      in_order (
        emit_gauge "lockers_total" stat.lockers_total labels
        ∷ emit_gauge "lockers_done" stat.lockers_done labels
        ∷ emit_gauge "blocks_total" stat.blocks_total labels
        ∷ emit_gauge "blocks_done" stat.blocks_done labels
        ∷ emit_gauge "tuples_total" stat.tuples_total labels
        ∷ emit_gauge "tuples_done" stat.tuples_done labels
        ∷ emit_gauge "partitions_total" stat.partitions_total labels
        ∷ emit_gauge "partitions_done" stat.partitions_done labels
        ∷ [])

  pub emit : List PgStatProgressCreateIndex → List (Action P)
  unfolding emit_row
  emit = for_each emit_row

  pub scrape : Fetched (List PgStatProgressCreateIndex) → Outcome P
  scrape = scraped "progress_create_index: " emit

  module _ (n : Namespaces) where
    emit_row-IsDeclared :
        (stat : PgStatProgressCreateIndex)
        → All
            (IsDeclared (declared (new_pg_stat_progress_create_index_collector n)))
            (emit_row stat)
    unfolding emit_row new_pg_stat_progress_create_index_collector all_fit emit_gauge
    emit_row-IsDeclared stat = in_order-IsDeclared P _ _ refl

    emit_row-IsLabelled :
        (stat : PgStatProgressCreateIndex) → All (IsLabelled (string stat.database)) (emit_row stat)
    unfolding emit_row emit_gauge
    emit_row-IsLabelled stat = in_order-IsLabelled P _ _ refl

    pub collector : Collector P
    unfolding describe collect_into new_pg_stat_progress_create_index_collector scrape emit
        names_all
    collector = record {
      scrape_prefix = "scraping: ";
      Input = Fetched (List PgStatProgressCreateIndex);
      decls = new_pg_stat_progress_create_index_collector n;
      describe = describe;
      collect_into = collect_into;
      scrape = scrape;
      scrape-IsDeclared =
          scraped-IsDeclared P _ _ _ (for_each-IsDeclared P _ emit_row emit_row-IsDeclared);
      databases = of_rows (λ stat. string stat.database);
      scrape-IsLabelled =
          scraped-IsLabelled P _ _ _
            (for_each-IsLabelled P emit_row (λ stat. string stat.database) emit_row-IsLabelled);
      describes_all = refl;
      collects_all = refl;
    }
