-- ===== src/Collectors/Activity.antt =====
-- exporter/collectors/pg_stat_activity.go: PgStatActivityCollector, with its row from exporter/db/model/model.go.
use pgxporter.Prelude.{String, refl, List, [], ◌∷◌, All}
use pgxporter.Prometheus.{Prom}
use pgxporter.Emit.{
  Float8, Int8, Text, Action, Decl, emit_float, emit_gauge, for_each, in_order, string,
}
use pgxporter.Emit.Shapes.{IsDeclared}
use pgxporter.Emit.Declared.{declared, in_order-IsDeclared, for_each-IsDeclared, all_fit}
use pgxporter.Emit.Labelled.{IsLabelled, in_order-IsLabelled, for_each-IsLabelled}
use pgxporter.Collectors.Names.{Namespaces, gauge_factory}
use pgxporter.Collectors.{
  Fetched, Outcome, scraped, scraped-IsDeclared, of_rows, scraped-IsLabelled, Collector, names_all,
}

pub record PgStatActivity (P : Prom) : Type 0 where
  pub database : Text
  pub dat_name : Text
  pub state : Text
  pub wait_event_type : Text
  pub backend_type : Text
  pub count : Int8
  pub max_tx_duration_seconds : Float8 P
  pub max_query_duration_seconds : Float8 P
  pub max_backend_age_seconds : Float8 P

pub new_pg_stat_activity_collector : Namespaces → List Decl
new_pg_stat_activity_collector n =
    let labels : List String =
      "database" ∷ "datname" ∷ "state" ∷ "wait_event_type" ∷ "backend_type" ∷ [] in
    let gauge = gauge_factory n "activity" labels in
    gauge "count" "count" "Connections in this (state, wait_event_type, backend_type) bucket"
    ∷ gauge "max_tx_duration_seconds" "max_tx_duration_seconds"
        "Longest open transaction in this bucket"
    ∷ gauge "max_query_duration_seconds" "max_query_duration_seconds"
        "Longest running query in this bucket"
    ∷ gauge "max_backend_age_seconds" "max_backend_age_seconds"
        "Oldest backend_start in this bucket"
    ∷ []

pub describe : List String
describe =
    "count" ∷ "max_tx_duration_seconds" ∷ "max_query_duration_seconds" ∷ "max_backend_age_seconds"
    ∷ []

pub collect_into : List String
collect_into =
    "count" ∷ "max_tx_duration_seconds" ∷ "max_query_duration_seconds" ∷ "max_backend_age_seconds"
    ∷ []

module _ (P : Prom) where
  emit_row : PgStatActivity P → List (Action P)
  emit_row stat =
      let labels =
        string stat.database
        ∷ string stat.dat_name
        ∷ string stat.state
        ∷ string stat.wait_event_type
        ∷ string stat.backend_type
        ∷ [] in
      in_order (
        emit_gauge "count" stat.count labels
        ∷ emit_float "max_tx_duration_seconds" stat.max_tx_duration_seconds labels
        ∷ emit_float "max_query_duration_seconds" stat.max_query_duration_seconds labels
        ∷ emit_float "max_backend_age_seconds" stat.max_backend_age_seconds labels
        ∷ [])

  pub emit : List (PgStatActivity P) → List (Action P)
  unfolding emit_row
  emit = for_each emit_row

  pub scrape : Fetched (List (PgStatActivity P)) → Outcome P
  scrape = scraped "activity stats: " emit

  module _ (n : Namespaces) where
    emit_row-IsDeclared :
        (stat : PgStatActivity P)
        → All (IsDeclared (declared (new_pg_stat_activity_collector n))) (emit_row stat)
    unfolding emit_row new_pg_stat_activity_collector all_fit emit_float emit_gauge
    emit_row-IsDeclared stat = in_order-IsDeclared P _ _ refl

    emit_row-IsLabelled :
        (stat : PgStatActivity P) → All (IsLabelled (string stat.database)) (emit_row stat)
    unfolding emit_row emit_float emit_gauge
    emit_row-IsLabelled stat = in_order-IsLabelled P _ _ refl

    pub collector : Collector P
    unfolding describe collect_into new_pg_stat_activity_collector scrape emit names_all
    collector = record {
      scrape_prefix = "scraping: ";
      Input = Fetched (List (PgStatActivity P));
      decls = new_pg_stat_activity_collector n;
      describe = describe;
      collect_into = collect_into;
      scrape = scrape;
      scrape-IsDeclared =
          scraped-IsDeclared P _ _ _ (for_each-IsDeclared P _ emit_row emit_row-IsDeclared);
      databases = of_rows (λ stat. string stat.database);
      scrape-IsLabelled =
          scraped-IsLabelled P _ _ _
            (for_each-IsLabelled P emit_row (λ stat. string stat.database) emit_row-IsLabelled);
      describes_all = refl;
      collects_all = refl;
    }
