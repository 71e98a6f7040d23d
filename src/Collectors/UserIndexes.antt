-- ===== src/Collectors/UserIndexes.antt =====
-- exporter/collectors/pg_stat_user_indexes.go: PgStatUserIndexesCollector, with its row from exporter/db/model/model.go.
use pgxporter.Prelude.{String, refl, List, [], ◌∷◌, All}
use pgxporter.Prometheus.{Prom}
use pgxporter.Emit.{Int8, Text, Action, Decl, emit_counter, for_each, in_order, string}
use pgxporter.Emit.Shapes.{IsDeclared}
use pgxporter.Emit.Declared.{declared, in_order-IsDeclared, for_each-IsDeclared, all_fit}
use pgxporter.Emit.Labelled.{IsLabelled, in_order-IsLabelled, for_each-IsLabelled}
use pgxporter.Collectors.Names.{Namespaces, counter_factory}
use pgxporter.Collectors.{
  Fetched, Outcome, scraped, scraped-IsDeclared, of_rows, scraped-IsLabelled, Collector, names_all,
}

pub record PgStatUserIndex : Type 0 where
  pub database : Text
  pub schema_name : Text
  pub rel_name : Text
  pub index_rel_name : Text
  pub index_scan : Int8
  pub index_tup_read : Int8
  pub index_tup_fetch : Int8

pub new_pg_stat_user_indexes_collector : Namespaces → List Decl
new_pg_stat_user_indexes_collector n =
    let variable_labels : List String =
      "database" ∷ "schemaname" ∷ "relname" ∷ "indexrelname" ∷ [] in
    let counter = counter_factory n "user_indexes" variable_labels in
    counter "idx_scan" "index_scan" "Number of index scans initiated on this index"
    ∷ counter "idx_tup_read" "index_tup_read"
        "Number of index entries returned by scans on this index"
    ∷ counter "idx_tup_fetch" "index_tup_fetch"
        "Number of live table rows fetched by simple index scans using this index"
    ∷ []

pub describe : List String
describe = "idx_scan" ∷ "idx_tup_read" ∷ "idx_tup_fetch" ∷ []

pub collect_into : List String
collect_into = "idx_scan" ∷ "idx_tup_read" ∷ "idx_tup_fetch" ∷ []

module _ (P : Prom) where
  emit_row : PgStatUserIndex → List (Action P)
  emit_row stat =
      let labels =
        string stat.database
        ∷ string stat.schema_name
        ∷ string stat.rel_name
        ∷ string stat.index_rel_name
        ∷ [] in
      in_order (
        emit_counter "idx_scan" stat.index_scan labels
        ∷ emit_counter "idx_tup_read" stat.index_tup_read labels
        ∷ emit_counter "idx_tup_fetch" stat.index_tup_fetch labels
        ∷ [])

  pub emit : List PgStatUserIndex → List (Action P)
  unfolding emit_row
  emit = for_each emit_row

  pub scrape : Fetched (List PgStatUserIndex) → Outcome P
  scrape = scraped "user indexes stats: " emit

  module _ (n : Namespaces) where
    emit_row-IsDeclared :
        (stat : PgStatUserIndex)
        → All (IsDeclared (declared (new_pg_stat_user_indexes_collector n))) (emit_row stat)
    unfolding emit_row new_pg_stat_user_indexes_collector all_fit emit_counter
    emit_row-IsDeclared stat = in_order-IsDeclared P _ _ refl

    emit_row-IsLabelled :
        (stat : PgStatUserIndex) → All (IsLabelled (string stat.database)) (emit_row stat)
    unfolding emit_row emit_counter
    emit_row-IsLabelled stat = in_order-IsLabelled P _ _ refl

    pub collector : Collector P
    unfolding describe collect_into new_pg_stat_user_indexes_collector scrape emit names_all
    collector = record {
      scrape_prefix = "scraping: ";
      Input = Fetched (List PgStatUserIndex);
      decls = new_pg_stat_user_indexes_collector n;
      describe = describe;
      collect_into = collect_into;
      scrape = scrape;
      scrape-IsDeclared =
          scraped-IsDeclared P _ _ _ (for_each-IsDeclared P _ emit_row emit_row-IsDeclared);
      databases = of_rows (λ stat. string stat.database);
      scrape-IsLabelled =
          scraped-IsLabelled P _ _ _
            (for_each-IsLabelled P emit_row (λ stat. string stat.database) emit_row-IsLabelled);
      describes_all = refl;
      collects_all = refl;
    }
