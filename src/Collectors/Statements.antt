-- ===== src/Collectors/Statements.antt =====
-- exporter/collectors/pg_stat_statements.go: PgStatStatementsCollector, with its row from exporter/db/model/model.go.
use pgxporter.Prelude.Decimal.{show_ℤ}
use pgxporter.Prelude.{String, refl, none, some, List, [], ◌∷◌, All}
use pgxporter.Prometheus.{Prom}
use pgxporter.Emit.{
  Float8, Int8, Text, Action, Decl, emit_counter, emit_counter_float, emit_float, for_each,
  in_order, string,
}
use pgxporter.Emit.Shapes.{IsDeclared}
use pgxporter.Emit.Declared.{declared, in_order-IsDeclared, for_each-IsDeclared, all_fit}
use pgxporter.Emit.Labelled.{IsLabelled, in_order-IsLabelled, for_each-IsLabelled}
use pgxporter.Collectors.Names.{Namespaces, counter_factory, gauge_factory}
use pgxporter.Collectors.{
  Fetched, Outcome, scraped, scraped-IsDeclared, of_rows, scraped-IsLabelled, Collector, names_all,
}

pub record PgStatStatement (P : Prom) : Type 0 where
  pub database : Text
  pub rol_name : Text
  pub dat_name : Text
  pub query_id : Int8
  pub query : Text
  pub calls : Int8
  pub total_time_seconds : Float8 P
  pub min_time_seconds : Float8 P
  pub max_time_seconds : Float8 P
  pub mean_time_seconds : Float8 P
  pub std_dev_time_seconds : Float8 P
  pub rows : Int8
  pub shared_blks_hit : Int8
  pub shared_blks_read : Int8
  pub shared_blks_dirtied : Int8
  pub shared_blks_written : Int8
  pub local_blks_hit : Int8
  pub local_blks_read : Int8
  pub local_blks_dirtied : Int8
  pub local_blks_written : Int8
  pub temp_blks_read : Int8
  pub temp_blks_written : Int8
  pub blk_read_time_seconds : Float8 P
  pub blk_write_time_seconds : Float8 P

-- The label of a query's number, empty for NULL.
query_id_label : Int8 → String
query_id_label none = ""
query_id_label (some i) = show_ℤ i

pub new_pg_stat_statements_collector : Namespaces → List Decl
new_pg_stat_statements_collector n =
    let variable_labels : List String =
      "database" ∷ "rolname" ∷ "datname" ∷ "queryid" ∷ "query" ∷ [] in
    let counter = counter_factory n "statements" variable_labels in
    let gauge = gauge_factory n "statements" variable_labels in
    counter "calls" "calls" ""
    ∷ counter "total_time_seconds" "total_time_seconds" ""
    ∷ gauge "min_time_seconds" "min_time_seconds" ""
    ∷ gauge "max_time_seconds" "max_time_seconds" ""
    ∷ gauge "mean_time_seconds" "mean_time_seconds" ""
    ∷ gauge "std_dev_time_seconds" "std_dev_time_seconds" ""
    ∷ counter "rows" "rows" ""
    ∷ counter "shared_blks_hit" "shared_blks_hit" ""
    ∷ counter "shared_blks_read" "shared_blks_read" ""
    ∷ counter "shared_blks_dirtied" "shared_blks_dirtied" ""
    ∷ counter "shared_blks_written" "shared_blks_written" ""
    ∷ counter "local_blks_hit" "local_blks_hit" ""
    ∷ counter "local_blks_read" "local_blks_read" ""
    ∷ counter "local_blks_dirtied" "local_blks_dirtied" ""
    ∷ counter "local_blks_written" "local_blks_written" ""
    ∷ counter "temp_blks_read" "templ_blks_read" ""
    ∷ counter "temp_blks_written" "temp_blks_written" ""
    ∷ counter "blk_read_time_seconds" "blk_read_time_seconds" ""
    ∷ counter "blk_write_time_seconds" "blk_write_time_seconds" ""
    ∷ []

pub describe : List String
describe =
    "calls" ∷ "total_time_seconds" ∷ "min_time_seconds" ∷ "max_time_seconds" ∷ "mean_time_seconds"
    ∷ "std_dev_time_seconds" ∷ "rows" ∷ "shared_blks_hit" ∷ "shared_blks_read"
    ∷ "shared_blks_dirtied" ∷ "shared_blks_written" ∷ "local_blks_hit" ∷ "local_blks_read"
    ∷ "local_blks_dirtied" ∷ "local_blks_written" ∷ "temp_blks_read" ∷ "temp_blks_written"
    ∷ "blk_read_time_seconds" ∷ "blk_write_time_seconds" ∷ []

pub collect_into : List String
collect_into =
    "calls" ∷ "total_time_seconds" ∷ "min_time_seconds" ∷ "max_time_seconds" ∷ "mean_time_seconds"
    ∷ "std_dev_time_seconds" ∷ "rows" ∷ "shared_blks_hit" ∷ "shared_blks_read"
    ∷ "shared_blks_dirtied" ∷ "shared_blks_written" ∷ "local_blks_hit" ∷ "local_blks_read"
    ∷ "local_blks_dirtied" ∷ "local_blks_written" ∷ "temp_blks_read" ∷ "temp_blks_written"
    ∷ "blk_read_time_seconds" ∷ "blk_write_time_seconds" ∷ []

module _ (P : Prom) where
  emit_row : PgStatStatement P → List (Action P)
  emit_row stat =
      let labels =
        string stat.database
        ∷ string stat.rol_name
        ∷ string stat.dat_name
        ∷ query_id_label stat.query_id
        ∷ string stat.query
        ∷ [] in
      in_order (
        emit_counter "calls" stat.calls labels
        ∷ emit_counter_float "total_time_seconds" stat.total_time_seconds labels
        ∷ emit_float "min_time_seconds" stat.min_time_seconds labels
        ∷ emit_float "max_time_seconds" stat.max_time_seconds labels
        ∷ emit_float "mean_time_seconds" stat.mean_time_seconds labels
        ∷ emit_float "std_dev_time_seconds" stat.std_dev_time_seconds labels
        ∷ emit_counter "rows" stat.rows labels
        ∷ emit_counter "shared_blks_hit" stat.shared_blks_hit labels
        ∷ emit_counter "shared_blks_read" stat.shared_blks_read labels
        ∷ emit_counter "shared_blks_dirtied" stat.shared_blks_dirtied labels
        ∷ emit_counter "shared_blks_written" stat.shared_blks_written labels
        ∷ emit_counter "local_blks_hit" stat.local_blks_hit labels
        ∷ emit_counter "local_blks_read" stat.local_blks_read labels
        ∷ emit_counter "local_blks_dirtied" stat.local_blks_dirtied labels
        ∷ emit_counter "local_blks_written" stat.local_blks_written labels
        ∷ emit_counter "temp_blks_read" stat.temp_blks_read labels
        ∷ emit_counter "temp_blks_written" stat.temp_blks_written labels
        ∷ emit_counter_float "blk_read_time_seconds" stat.blk_read_time_seconds labels
        ∷ emit_counter_float "blk_write_time_seconds" stat.blk_write_time_seconds labels
        ∷ [])

  pub emit : List (PgStatStatement P) → List (Action P)
  unfolding emit_row query_id_label
  emit = for_each emit_row

  pub scrape : Fetched (List (PgStatStatement P)) → Outcome P
  scrape = scraped "statement stats: " emit

  module _ (n : Namespaces) where
    emit_row-IsDeclared :
        (stat : PgStatStatement P)
        → All (IsDeclared (declared (new_pg_stat_statements_collector n))) (emit_row stat)
    unfolding emit_row new_pg_stat_statements_collector all_fit emit_counter emit_counter_float
        emit_float
    emit_row-IsDeclared stat = in_order-IsDeclared P _ _ refl

    emit_row-IsLabelled :
        (stat : PgStatStatement P) → All (IsLabelled (string stat.database)) (emit_row stat)
    unfolding emit_row emit_counter emit_counter_float emit_float
    emit_row-IsLabelled stat = in_order-IsLabelled P _ _ refl

    pub collector : Collector P
    unfolding describe collect_into new_pg_stat_statements_collector scrape emit names_all
    collector = record {
      scrape_prefix = "scraping: ";
      Input = Fetched (List (PgStatStatement P));
      decls = new_pg_stat_statements_collector n;
      describe = describe;
      collect_into = collect_into;
      scrape = scrape;
      scrape-IsDeclared =
          scraped-IsDeclared P _ _ _ (for_each-IsDeclared P _ emit_row emit_row-IsDeclared);
      databases = of_rows (λ stat. string stat.database);
      scrape-IsLabelled =
          scraped-IsLabelled P _ _ _
            (for_each-IsLabelled P emit_row (λ stat. string stat.database) emit_row-IsLabelled);
      describes_all = refl;
      collects_all = refl;
    }
