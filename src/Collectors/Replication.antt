-- ===== src/Collectors/Replication.antt =====
-- exporter/collectors/pg_stat_replication.go: PgStatReplicationCollector, with its row from exporter/db/model/model.go.
use pgxporter.Prelude.{String, refl, List, [], ◌∷◌, All}
use pgxporter.Prometheus.{Prom}
use pgxporter.Emit.{Float8, Int8, Text, Action, Decl, emit_float, for_each, in_order, string}
use pgxporter.Emit.Shapes.{IsDeclared}
use pgxporter.Emit.Declared.{declared, in_order-IsDeclared, for_each-IsDeclared, all_fit}
use pgxporter.Emit.Labelled.{IsLabelled, in_order-IsLabelled, for_each-IsLabelled}
use pgxporter.Collectors.Names.{Namespaces, gauge_factory}
use pgxporter.Collectors.{
  Fetched, Outcome, scraped, scraped-IsDeclared, of_rows, scraped-IsLabelled, Collector, names_all,
}

pub record PgStatReplication (P : Prom) : Type 0 where
  pub database : Text
  pub pid : Int8
  pub application_name : Text
  pub client_addr : Text
  pub state : Text
  pub sync_state : Text
  pub sent_lag_bytes : Float8 P
  pub write_lag_bytes : Float8 P
  pub flush_lag_bytes : Float8 P
  pub replay_lag_bytes : Float8 P
  pub write_lag_seconds : Float8 P
  pub flush_lag_seconds : Float8 P
  pub replay_lag_seconds : Float8 P

pub new_pg_stat_replication_collector : Namespaces → List Decl
new_pg_stat_replication_collector n =
    let labels : List String =
      "database" ∷ "application_name" ∷ "client_addr" ∷ "state" ∷ "sync_state" ∷ [] in
    let gauge = gauge_factory n "replication" labels in
    gauge "sent_lag_bytes" "sent_lag_bytes"
      "WAL bytes generated on primary but not yet sent to replica"
    ∷ gauge "write_lag_bytes" "write_lag_bytes"
        "WAL bytes sent to replica but not yet written to its OS buffers"
    ∷ gauge "flush_lag_bytes" "flush_lag_bytes"
        "WAL bytes written on replica but not yet flushed to disk"
    ∷ gauge "replay_lag_bytes" "replay_lag_bytes"
        "WAL bytes flushed on replica but not yet replayed"
    ∷ gauge "write_lag_seconds" "write_lag_seconds"
        "Time elapsed between local flush and receipt of write confirmation from replica"
    ∷ gauge "flush_lag_seconds" "flush_lag_seconds"
        "Time elapsed between local flush and receipt of flush confirmation from replica"
    ∷ gauge "replay_lag_seconds" "replay_lag_seconds"
        "Time elapsed between local flush and receipt of replay confirmation from replica"
    ∷ []

pub describe : List String
describe =
    "sent_lag_bytes" ∷ "write_lag_bytes" ∷ "flush_lag_bytes" ∷ "replay_lag_bytes"
    ∷ "write_lag_seconds" ∷ "flush_lag_seconds" ∷ "replay_lag_seconds" ∷ []

pub collect_into : List String
collect_into =
    "sent_lag_bytes" ∷ "write_lag_bytes" ∷ "flush_lag_bytes" ∷ "replay_lag_bytes"
    ∷ "write_lag_seconds" ∷ "flush_lag_seconds" ∷ "replay_lag_seconds" ∷ []

module _ (P : Prom) where
  emit_row : PgStatReplication P → List (Action P)
  emit_row stat =
      let labels =
        string stat.database
        ∷ string stat.application_name
        ∷ string stat.client_addr
        ∷ string stat.state
        ∷ string stat.sync_state
        ∷ [] in
      in_order (
        emit_float "sent_lag_bytes" stat.sent_lag_bytes labels
        ∷ emit_float "write_lag_bytes" stat.write_lag_bytes labels
        ∷ emit_float "flush_lag_bytes" stat.flush_lag_bytes labels
        ∷ emit_float "replay_lag_bytes" stat.replay_lag_bytes labels
        ∷ emit_float "write_lag_seconds" stat.write_lag_seconds labels
        ∷ emit_float "flush_lag_seconds" stat.flush_lag_seconds labels
        ∷ emit_float "replay_lag_seconds" stat.replay_lag_seconds labels
        ∷ [])

  pub emit : List (PgStatReplication P) → List (Action P)
  unfolding emit_row
  emit = for_each emit_row

  pub scrape : Fetched (List (PgStatReplication P)) → Outcome P
  scrape = scraped "replication stats: " emit

  module _ (n : Namespaces) where
    emit_row-IsDeclared :
        (stat : PgStatReplication P)
        → All (IsDeclared (declared (new_pg_stat_replication_collector n))) (emit_row stat)
    unfolding emit_row new_pg_stat_replication_collector all_fit emit_float
    emit_row-IsDeclared stat = in_order-IsDeclared P _ _ refl

    emit_row-IsLabelled :
        (stat : PgStatReplication P) → All (IsLabelled (string stat.database)) (emit_row stat)
    unfolding emit_row emit_float
    emit_row-IsLabelled stat = in_order-IsLabelled P _ _ refl

    pub collector : Collector P
    unfolding describe collect_into new_pg_stat_replication_collector scrape emit names_all
    collector = record {
      scrape_prefix = "scraping: ";
      Input = Fetched (List (PgStatReplication P));
      decls = new_pg_stat_replication_collector n;
      describe = describe;
      collect_into = collect_into;
      scrape = scrape;
      scrape-IsDeclared =
          scraped-IsDeclared P _ _ _ (for_each-IsDeclared P _ emit_row emit_row-IsDeclared);
      databases = of_rows (λ stat. string stat.database);
      scrape-IsLabelled =
          scraped-IsLabelled P _ _ _
            (for_each-IsLabelled P emit_row (λ stat. string stat.database) emit_row-IsLabelled);
      describes_all = refl;
      collects_all = refl;
    }
