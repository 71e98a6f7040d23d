-- ===== src/Collectors/ProgressCluster.antt =====
-- exporter/collectors/pg_stat_progress.go: PgStatProgressClusterCollector, with its row from exporter/db/model/model.go.
use pgxporter.Prelude.{String, refl, List, [], ◌∷◌, All}
use pgxporter.Prometheus.{Prom}
use pgxporter.Emit.{Int8, Text, Action, Decl, emit_gauge, for_each, in_order, string}
use pgxporter.Emit.Shapes.{IsDeclared}
use pgxporter.Emit.Declared.{declared, in_order-IsDeclared, for_each-IsDeclared, all_fit}
use pgxporter.Emit.Labelled.{IsLabelled, in_order-IsLabelled, for_each-IsLabelled}
use pgxporter.Collectors.Names.{Namespaces, gauge_factory}
use pgxporter.Collectors.{
  Fetched, Outcome, scraped, scraped-IsDeclared, of_rows, scraped-IsLabelled, Collector, names_all,
}

pub record PgStatProgressCluster : Type 0 where
  pub database : Text
  pub dat_name : Text
  pub rel_id : Text
  pub command : Text
  pub phase : Text
  pub heap_tuples_scanned : Int8
  pub heap_tuples_written : Int8
  pub heap_blks_total : Int8
  pub heap_blks_scanned : Int8
  pub index_rebuild_count : Int8

pub new_pg_stat_progress_cluster_collector : Namespaces → List Decl
new_pg_stat_progress_cluster_collector n =
    let labels : List String = "database" ∷ "datname" ∷ "relid" ∷ "command" ∷ "phase" ∷ [] in
    let gauge = gauge_factory n "progress_cluster" labels in
    gauge "heap_tuples_scanned" "heap_tuples_scanned" "Heap tuples scanned so far"
    ∷ gauge "heap_tuples_written" "heap_tuples_written" "Heap tuples written so far"
    ∷ gauge "heap_blks_total" "heap_blks_total" "Total heap blocks in this relation"
    ∷ gauge "heap_blks_scanned" "heap_blks_scanned" "Heap blocks scanned so far (sequential phase)"
    ∷ gauge "index_rebuild_count" "index_rebuild_count" "Indexes rebuilt so far"
    ∷ []

pub describe : List String
describe =
    "heap_tuples_scanned" ∷ "heap_tuples_written" ∷ "heap_blks_total" ∷ "heap_blks_scanned"
    ∷ "index_rebuild_count" ∷ []

pub collect_into : List String
collect_into =
    "heap_tuples_scanned" ∷ "heap_tuples_written" ∷ "heap_blks_total" ∷ "heap_blks_scanned"
    ∷ "index_rebuild_count" ∷ []

module _ (P : Prom) where
  emit_row : PgStatProgressCluster → List (Action P)
  emit_row stat =
      let labels =
        string stat.database
        ∷ string stat.dat_name
        ∷ string stat.rel_id
        ∷ string stat.command
        ∷ string stat.phase
        ∷ [] in
      in_order (
        emit_gauge "heap_tuples_scanned" stat.heap_tuples_scanned labels
        ∷ emit_gauge "heap_tuples_written" stat.heap_tuples_written labels
        ∷ emit_gauge "heap_blks_total" stat.heap_blks_total labels
        ∷ emit_gauge "heap_blks_scanned" stat.heap_blks_scanned labels
        ∷ emit_gauge "index_rebuild_count" stat.index_rebuild_count labels
        ∷ [])

  pub emit : List PgStatProgressCluster → List (Action P)
  unfolding emit_row
  emit = for_each emit_row

  pub scrape : Fetched (List PgStatProgressCluster) → Outcome P
  scrape = scraped "progress_cluster: " emit

  module _ (n : Namespaces) where
    emit_row-IsDeclared :
        (stat : PgStatProgressCluster)
        → All (IsDeclared (declared (new_pg_stat_progress_cluster_collector n))) (emit_row stat)
    unfolding emit_row new_pg_stat_progress_cluster_collector all_fit emit_gauge
    emit_row-IsDeclared stat = in_order-IsDeclared P _ _ refl

    emit_row-IsLabelled :
        (stat : PgStatProgressCluster) → All (IsLabelled (string stat.database)) (emit_row stat)
    unfolding emit_row emit_gauge
    emit_row-IsLabelled stat = in_order-IsLabelled P _ _ refl

    pub collector : Collector P
    unfolding describe collect_into new_pg_stat_progress_cluster_collector scrape emit names_all
    collector = record {
      scrape_prefix = "scraping: ";
      Input = Fetched (List PgStatProgressCluster);
      decls = new_pg_stat_progress_cluster_collector n;
      describe = describe;
      collect_into = collect_into;
      scrape = scrape;
      scrape-IsDeclared =
          scraped-IsDeclared P _ _ _ (for_each-IsDeclared P _ emit_row emit_row-IsDeclared);
      databases = of_rows (λ stat. string stat.database);
      scrape-IsLabelled =
          scraped-IsLabelled P _ _ _
            (for_each-IsLabelled P emit_row (λ stat. string stat.database) emit_row-IsLabelled);
      describes_all = refl;
      collects_all = refl;
    }
