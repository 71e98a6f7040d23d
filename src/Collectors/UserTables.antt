-- ===== src/Collectors/UserTables.antt =====
-- exporter/collectors/pg_stat_user_table.go: PgStatUserTableCollector, with its row from exporter/db/model/model.go.
use pgxporter.Prelude.{String, refl, List, [], ◌∷◌, All}
use pgxporter.Prometheus.{Prom}
use pgxporter.Emit.{
  Int8, Text, Timestamptz, Action, Decl, emit_counter, emit_gauge, emit_time_micro, for_each,
  in_order, string,
}
use pgxporter.Emit.Shapes.{IsDeclared}
use pgxporter.Emit.Declared.{declared, in_order-IsDeclared, for_each-IsDeclared, all_fit}
use pgxporter.Emit.Labelled.{IsLabelled, in_order-IsLabelled, for_each-IsLabelled}
use pgxporter.Collectors.Names.{Namespaces, counter_factory, gauge_factory}
use pgxporter.Collectors.{
  Fetched, Outcome, scraped, scraped-IsDeclared, of_rows, scraped-IsLabelled, Collector, names_all,
}

pub record PgStatUserTable : Type 0 where
  pub database : Text
  pub schema_name : Text
  pub rel_name : Text
  pub seq_scan : Int8
  pub last_seq_scan : Timestamptz
  pub seq_tup_read : Int8
  pub index_scan : Int8
  pub last_idx_scan : Timestamptz
  pub index_tup_fetch : Int8
  pub n_tup_insert : Int8
  pub n_tup_update : Int8
  pub n_tup_delete : Int8
  pub n_tup_hot_update : Int8
  pub n_tup_newpage_update : Int8
  pub n_live_tup : Int8
  pub n_dead_tup : Int8
  pub n_mod_since_analyze : Int8
  pub n_ins_since_vacuum : Int8
  pub last_vacuum : Timestamptz
  pub last_auto_vacuum : Timestamptz
  pub last_analyze : Timestamptz
  pub last_auto_analyze : Timestamptz
  pub vacuum_count : Int8
  pub auto_vacuum_count : Int8
  pub analyze_count : Int8
  pub auto_analyze_count : Int8

pub new_pg_stat_user_table_collector : Namespaces → List Decl
new_pg_stat_user_table_collector n =
    let variable_labels : List String = "database" ∷ "schemaname" ∷ "relname" ∷ [] in
    let counter = counter_factory n "user_tables" variable_labels in
    let gauge = gauge_factory n "user_tables" variable_labels in
    counter "seq_scan" "sequential_scan" "Number of sequential scans initiated on this table"
    ∷ counter "seq_tup_read" "sequential_scan_tup_read"
        "Number of live rows fetched by sequential scans"
    ∷ counter "idx_scan" "index_scan" "Number of index scans initiated on this table"
    ∷ counter "idx_tup_fetch" "index_tup_fetch" "Number of live rows fetched by index scans"
    ∷ counter "n_tup_ins" "n_tup_ins" "Number of rows inserted"
    ∷ counter "n_tup_upd" "n_tup_upd" "Number of rows updated"
    ∷ counter "n_tup_del" "n_tup_del" "Number of rows deleted"
    ∷ counter "n_tup_hot_upd" "n_tup_hot_upd" "Number of rows HOT updated"
    ∷ gauge "n_live_tup" "n_live_tup" "Estimated number of live rows"
    ∷ gauge "n_dead_tup" "n_dead_tup" "Estimated number of dead rows"
    ∷ gauge "n_mod_since_analyze" "n_mod_since_analyze"
        "Estimated number of rows changed since last analyze"
    ∷ gauge "last_vacuum" "last_vacuum"
        "Last time at which this table was manually vacuumed (not counting VACUUM FULL)"
    ∷ gauge "last_auto_vacuum" "last_autovacuum"
        "Last time at which this table was vacuumed by the autovacuum daemon"
    ∷ gauge "last_analyze" "last_analyze" "Last time at which this table was manually analyzed"
    ∷ gauge "last_auto_analyze" "last_autoanalyze"
        "Last time at which this table was analyzed by the autovacuum daemon"
    ∷ counter "vacuum_count" "vacuum_count"
        "Number of times this table has been manually vacuumed (not counting VACUUM FULL)"
    ∷ counter "auto_vacuum_count" "autovacuum_count"
        "Number of times this table has been vacuumed by the autovacuum daemon"
    ∷ counter "analyze_count" "analyze_count"
        "Number of times this table has been manually analyzed"
    ∷ counter "auto_analyze_count" "autoanalyze_count"
        "Number of times this table has been analyzed by the autovacuum daemon"
    ∷ gauge "last_seq_scan" "last_seq_scan"
        "Time of the last sequential scan on this table, as unix microseconds (PG 16+)"
    ∷ gauge "last_idx_scan" "last_idx_scan"
        "Time of the last index scan on this table, as unix microseconds (PG 16+)"
    ∷ counter "n_tup_newpage_upd" "n_tup_newpage_upd"
        "Number of rows updated via a new-page mechanism, i.e. not HOT (PG 17+)"
    ∷ gauge "n_ins_since_vacuum" "n_ins_since_vacuum"
        "Estimated number of rows inserted since this table was last vacuumed (PG 13+)"
    ∷ []

pub describe : List String
describe =
    "seq_scan" ∷ "last_seq_scan" ∷ "seq_tup_read" ∷ "idx_scan" ∷ "last_idx_scan" ∷ "idx_tup_fetch"
    ∷ "n_tup_ins" ∷ "n_tup_upd" ∷ "n_tup_del" ∷ "n_tup_hot_upd" ∷ "n_tup_newpage_upd" ∷ "n_live_tup"
    ∷ "n_dead_tup" ∷ "n_mod_since_analyze" ∷ "n_ins_since_vacuum" ∷ "last_vacuum"
    ∷ "last_auto_vacuum" ∷ "last_analyze" ∷ "last_auto_analyze" ∷ "vacuum_count"
    ∷ "auto_vacuum_count" ∷ "analyze_count" ∷ "auto_analyze_count" ∷ []

pub collect_into : List String
collect_into =
    "seq_scan" ∷ "last_seq_scan" ∷ "seq_tup_read" ∷ "idx_scan" ∷ "last_idx_scan" ∷ "idx_tup_fetch"
    ∷ "n_tup_ins" ∷ "n_tup_upd" ∷ "n_tup_del" ∷ "n_tup_hot_upd" ∷ "n_tup_newpage_upd" ∷ "n_live_tup"
    ∷ "n_dead_tup" ∷ "n_mod_since_analyze" ∷ "n_ins_since_vacuum" ∷ "last_vacuum"
    ∷ "last_auto_vacuum" ∷ "last_analyze" ∷ "last_auto_analyze" ∷ "vacuum_count"
    ∷ "auto_vacuum_count" ∷ "analyze_count" ∷ "auto_analyze_count" ∷ []

module _ (P : Prom) where
  emit_row : PgStatUserTable → List (Action P)
  emit_row stat =
      let labels = string stat.database ∷ string stat.schema_name ∷ string stat.rel_name ∷ [] in
      in_order (
        emit_counter "seq_scan" stat.seq_scan labels
        ∷ emit_time_micro "last_seq_scan" stat.last_seq_scan labels
        ∷ emit_counter "seq_tup_read" stat.seq_tup_read labels
        ∷ emit_counter "idx_scan" stat.index_scan labels
        ∷ emit_time_micro "last_idx_scan" stat.last_idx_scan labels
        ∷ emit_counter "idx_tup_fetch" stat.index_tup_fetch labels
        ∷ emit_counter "n_tup_ins" stat.n_tup_insert labels
        ∷ emit_counter "n_tup_upd" stat.n_tup_update labels
        ∷ emit_counter "n_tup_del" stat.n_tup_delete labels
        ∷ emit_counter "n_tup_hot_upd" stat.n_tup_hot_update labels
        ∷ emit_counter "n_tup_newpage_upd" stat.n_tup_newpage_update labels
        ∷ emit_gauge "n_live_tup" stat.n_live_tup labels
        ∷ emit_gauge "n_dead_tup" stat.n_dead_tup labels
        ∷ emit_gauge "n_mod_since_analyze" stat.n_mod_since_analyze labels
        ∷ emit_gauge "n_ins_since_vacuum" stat.n_ins_since_vacuum labels
        ∷ emit_time_micro "last_vacuum" stat.last_vacuum labels
        ∷ emit_time_micro "last_auto_vacuum" stat.last_auto_vacuum labels
        ∷ emit_time_micro "last_analyze" stat.last_analyze labels
        ∷ emit_time_micro "last_auto_analyze" stat.last_auto_analyze labels
        ∷ emit_counter "vacuum_count" stat.vacuum_count labels
        ∷ emit_counter "auto_vacuum_count" stat.auto_vacuum_count labels
        ∷ emit_counter "analyze_count" stat.analyze_count labels
        ∷ emit_counter "auto_analyze_count" stat.auto_analyze_count labels
        ∷ [])

  pub emit : List PgStatUserTable → List (Action P)
  unfolding emit_row
  emit = for_each emit_row

  pub scrape : Fetched (List PgStatUserTable) → Outcome P
  scrape = scraped "user table stats: " emit

  module _ (n : Namespaces) where
    emit_row-IsDeclared :
        (stat : PgStatUserTable)
        → All (IsDeclared (declared (new_pg_stat_user_table_collector n))) (emit_row stat)
    unfolding emit_row new_pg_stat_user_table_collector all_fit emit_counter emit_gauge
        emit_time_micro
    emit_row-IsDeclared stat = in_order-IsDeclared P _ _ refl

    emit_row-IsLabelled :
        (stat : PgStatUserTable) → All (IsLabelled (string stat.database)) (emit_row stat)
    unfolding emit_row emit_counter emit_gauge emit_time_micro
    emit_row-IsLabelled stat = in_order-IsLabelled P _ _ refl

    pub collector : Collector P
    unfolding describe collect_into new_pg_stat_user_table_collector scrape emit names_all
    collector = record {
      scrape_prefix = "scraping: ";
      Input = Fetched (List PgStatUserTable);
      decls = new_pg_stat_user_table_collector n;
      describe = describe;
      collect_into = collect_into;
      scrape = scrape;
      scrape-IsDeclared =
          scraped-IsDeclared P _ _ _ (for_each-IsDeclared P _ emit_row emit_row-IsDeclared);
      databases = of_rows (λ stat. string stat.database);
      scrape-IsLabelled =
          scraped-IsLabelled P _ _ _
            (for_each-IsLabelled P emit_row (λ stat. string stat.database) emit_row-IsLabelled);
      describes_all = refl;
      collects_all = refl;
    }
