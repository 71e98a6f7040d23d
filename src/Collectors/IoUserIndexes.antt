-- ===== src/Collectors/IoUserIndexes.antt =====
-- exporter/collectors/pg_statio_user_indexes.go: PgStatIOUserIndexesCollector, with its row from exporter/db/model/model.go.
use pgxporter.Prelude.{String, refl, List, [], ◌∷◌, All}
use pgxporter.Prometheus.{Prom}
use pgxporter.Emit.{Int8, Text, Action, Decl, emit_counter, for_each, in_order, string}
use pgxporter.Emit.Shapes.{IsDeclared}
use pgxporter.Emit.Declared.{declared, in_order-IsDeclared, for_each-IsDeclared, all_fit}
use pgxporter.Emit.Labelled.{IsLabelled, in_order-IsLabelled, for_each-IsLabelled}
use pgxporter.Collectors.Names.{Namespaces, counter_factory_io}
use pgxporter.Collectors.{
  Fetched, Outcome, scraped, scraped-IsDeclared, of_rows, scraped-IsLabelled, Collector, names_all,
}

pub record PgStatIoUserIndex : Type 0 where
  pub database : Text
  pub schema_name : Text
  pub rel_name : Text
  pub index_rel_name : Text
  pub index_blks_read : Int8
  pub index_blks_hit : Int8

pub new_pg_stat_io_user_indexes_collector : Namespaces → List Decl
new_pg_stat_io_user_indexes_collector n =
    let variable_labels : List String =
      "database" ∷ "schemaname" ∷ "relname" ∷ "indexrelname" ∷ [] in
    let counter = counter_factory_io n "user_indexes" variable_labels in
    counter "idx_blks_read" "idx_blks_read" "Number of disk blocks read from this index"
    ∷ counter "idx_blks_hit" "idx_blks_hit" "Number of buffer hits in this index"
    ∷ []

pub describe : List String
describe = "idx_blks_read" ∷ "idx_blks_hit" ∷ []

pub collect_into : List String
collect_into = "idx_blks_read" ∷ "idx_blks_hit" ∷ []

module _ (P : Prom) where
  emit_row : PgStatIoUserIndex → List (Action P)
  emit_row stat =
      let labels =
        string stat.database
        ∷ string stat.schema_name
        ∷ string stat.rel_name
        ∷ string stat.index_rel_name
        ∷ [] in
      in_order (
        emit_counter "idx_blks_read" stat.index_blks_read labels
        ∷ emit_counter "idx_blks_hit" stat.index_blks_hit labels
        ∷ [])

  pub emit : List PgStatIoUserIndex → List (Action P)
  unfolding emit_row
  emit = for_each emit_row

  pub scrape : Fetched (List PgStatIoUserIndex) → Outcome P
  scrape = scraped "user index stats: " emit

  module _ (n : Namespaces) where
    emit_row-IsDeclared :
        (stat : PgStatIoUserIndex)
        → All (IsDeclared (declared (new_pg_stat_io_user_indexes_collector n))) (emit_row stat)
    unfolding emit_row new_pg_stat_io_user_indexes_collector all_fit emit_counter
    emit_row-IsDeclared stat = in_order-IsDeclared P _ _ refl

    emit_row-IsLabelled :
        (stat : PgStatIoUserIndex) → All (IsLabelled (string stat.database)) (emit_row stat)
    unfolding emit_row emit_counter
    emit_row-IsLabelled stat = in_order-IsLabelled P _ _ refl

    pub collector : Collector P
    unfolding describe collect_into new_pg_stat_io_user_indexes_collector scrape emit names_all
    collector = record {
      scrape_prefix = "scraping: ";
      Input = Fetched (List PgStatIoUserIndex);
      decls = new_pg_stat_io_user_indexes_collector n;
      describe = describe;
      collect_into = collect_into;
      scrape = scrape;
      scrape-IsDeclared =
          scraped-IsDeclared P _ _ _ (for_each-IsDeclared P _ emit_row emit_row-IsDeclared);
      databases = of_rows (λ stat. string stat.database);
      scrape-IsLabelled =
          scraped-IsLabelled P _ _ _
            (for_each-IsLabelled P emit_row (λ stat. string stat.database) emit_row-IsLabelled);
      describes_all = refl;
      collects_all = refl;
    }
