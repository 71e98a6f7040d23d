-- ===== src/Collectors/IoUserTables.antt =====
-- exporter/collectors/pg_statio_user_table.go: PgStatIOUserTableCollector, with its row from exporter/db/model/model.go.
use pgxporter.Prelude.{String, refl, List, [], ◌∷◌, All}
use pgxporter.Prometheus.{Prom}
use pgxporter.Emit.{Int8, Text, Action, Decl, emit_counter, for_each, in_order, string}
use pgxporter.Emit.Shapes.{IsDeclared}
use pgxporter.Emit.Declared.{declared, in_order-IsDeclared, for_each-IsDeclared, all_fit}
use pgxporter.Emit.Labelled.{IsLabelled, in_order-IsLabelled, for_each-IsLabelled}
use pgxporter.Collectors.Names.{Namespaces, counter_factory_io}
use pgxporter.Collectors.{
  Fetched, Outcome, scraped, scraped-IsDeclared, of_rows, scraped-IsLabelled, Collector, names_all,
}

pub record PgStatIoUserTable : Type 0 where
  pub database : Text
  pub schema_name : Text
  pub rel_name : Text
  pub heap_blks_read : Int8
  pub heap_blks_hit : Int8
  pub index_blks_read : Int8
  pub index_blks_hit : Int8
  pub toast_blks_read : Int8
  pub toast_blks_hit : Int8
  pub tidx_blks_read : Int8
  pub tidx_blks_hit : Int8

pub new_pg_stat_io_user_table_collector : Namespaces → List Decl
new_pg_stat_io_user_table_collector n =
    let variable_labels : List String = "database" ∷ "schemaname" ∷ "relname" ∷ [] in
    let counter = counter_factory_io n "user_tables" variable_labels in
    counter "heap_blks_read" "heap_blks_read" "Number of disk blocks read from this table"
    ∷ counter "heap_blks_hit" "heap_blks_hit" "Number of buffer hits in this table"
    ∷ counter "idx_blks_read" "idx_blks_read"
        "Number of disk blocks read from all indexes on this table"
    ∷ counter "idx_blks_hit" "idx_blks_hit" "Number of buffer hits in all indexes on this table"
    ∷ counter "toast_blks_read" "toast_blks_read"
        "Number of disk blocks read from this table's TOAST table (if any)"
    ∷ counter "toast_blks_hit" "toast_blks_hit"
        "Number of buffer hits in this table's TOAST table (if any)"
    ∷ counter "tidx_blks_read" "tidx_blks_read"
        "Number of disk blocks read from this table's TOAST table indexes (if any)"
    ∷ counter "tidx_blks_hit" "tidx_blks_hit"
        "Number of buffer hits in this table's TOAST table indexes (if any)"
    ∷ []

pub describe : List String
describe =
    "heap_blks_read" ∷ "heap_blks_hit" ∷ "idx_blks_read" ∷ "idx_blks_hit" ∷ "toast_blks_read"
    ∷ "toast_blks_hit" ∷ "tidx_blks_read" ∷ "tidx_blks_hit" ∷ []

pub collect_into : List String
collect_into =
    "heap_blks_read" ∷ "heap_blks_hit" ∷ "idx_blks_read" ∷ "idx_blks_hit" ∷ "toast_blks_read"
    ∷ "toast_blks_hit" ∷ "tidx_blks_read" ∷ "tidx_blks_hit" ∷ []

module _ (P : Prom) where
  emit_row : PgStatIoUserTable → List (Action P)
  emit_row stat =
      let labels = string stat.database ∷ string stat.schema_name ∷ string stat.rel_name ∷ [] in
      in_order (
        emit_counter "heap_blks_read" stat.heap_blks_read labels
        ∷ emit_counter "heap_blks_hit" stat.heap_blks_hit labels
        ∷ emit_counter "idx_blks_read" stat.index_blks_read labels
        ∷ emit_counter "idx_blks_hit" stat.index_blks_hit labels
        ∷ emit_counter "toast_blks_read" stat.toast_blks_read labels
        ∷ emit_counter "toast_blks_hit" stat.toast_blks_hit labels
        ∷ emit_counter "tidx_blks_read" stat.tidx_blks_read labels
        ∷ emit_counter "tidx_blks_hit" stat.tidx_blks_hit labels
        ∷ [])

  pub emit : List PgStatIoUserTable → List (Action P)
  unfolding emit_row
  emit = for_each emit_row

  pub scrape : Fetched (List PgStatIoUserTable) → Outcome P
  scrape = scraped "user table stats: " emit

  module _ (n : Namespaces) where
    emit_row-IsDeclared :
        (stat : PgStatIoUserTable)
        → All (IsDeclared (declared (new_pg_stat_io_user_table_collector n))) (emit_row stat)
    unfolding emit_row new_pg_stat_io_user_table_collector all_fit emit_counter
    emit_row-IsDeclared stat = in_order-IsDeclared P _ _ refl

    emit_row-IsLabelled :
        (stat : PgStatIoUserTable) → All (IsLabelled (string stat.database)) (emit_row stat)
    unfolding emit_row emit_counter
    emit_row-IsLabelled stat = in_order-IsLabelled P _ _ refl

    pub collector : Collector P
    unfolding describe collect_into new_pg_stat_io_user_table_collector scrape emit names_all
    collector = record {
      scrape_prefix = "scraping: ";
      Input = Fetched (List PgStatIoUserTable);
      decls = new_pg_stat_io_user_table_collector n;
      describe = describe;
      collect_into = collect_into;
      scrape = scrape;
      scrape-IsDeclared =
          scraped-IsDeclared P _ _ _ (for_each-IsDeclared P _ emit_row emit_row-IsDeclared);
      databases = of_rows (λ stat. string stat.database);
      scrape-IsLabelled =
          scraped-IsLabelled P _ _ _
            (for_each-IsLabelled P emit_row (λ stat. string stat.database) emit_row-IsLabelled);
      describes_all = refl;
      collects_all = refl;
    }
