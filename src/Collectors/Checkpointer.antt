-- ===== src/Collectors/Checkpointer.antt =====
-- exporter/collectors/pg_stat_checkpointer.go: PgStatCheckpointerCollector, with its row from exporter/db/model/model.go.
use pgxporter.Prelude.{String, refl, List, [], ◌∷◌, All}
use pgxporter.Prometheus.{Prom}
use pgxporter.Emit.{
  Float8, Int8, Text, Timestamptz, Action, Decl, emit_counter, emit_millis_as_secs, emit_time,
  for_each, in_order, string,
}
use pgxporter.Emit.Shapes.{IsDeclared}
use pgxporter.Emit.Declared.{declared, in_order-IsDeclared, for_each-IsDeclared, all_fit}
use pgxporter.Emit.Labelled.{IsLabelled, in_order-IsLabelled, for_each-IsLabelled}
use pgxporter.Collectors.Names.{Namespaces, counter_factory, gauge_factory}
use pgxporter.Collectors.{
  Fetched, Outcome, scraped, scraped-IsDeclared, of_rows, scraped-IsLabelled, Collector, names_all,
}

pub record PgStatCheckpointer (P : Prom) : Type 0 where
  pub database : Text
  pub num_timed : Int8
  pub num_requested : Int8
  pub restartpoints_timed : Int8
  pub restartpoints_req : Int8
  pub restartpoints_done : Int8
  pub write_time : Float8 P
  pub sync_time : Float8 P
  pub buffers_written : Int8
  pub stats_reset : Timestamptz

pub new_pg_stat_checkpointer_collector : Namespaces → List Decl
new_pg_stat_checkpointer_collector n =
    let labels : List String = "database" ∷ [] in
    let counter = counter_factory n "checkpointer" labels in
    let gauge = gauge_factory n "checkpointer" labels in
    counter "num_timed" "num_timed_total" "Scheduled checkpoints performed"
    ∷ counter "num_requested" "num_requested_total"
        "Requested (non-scheduled) checkpoints performed"
    ∷ counter "restartpoints_timed" "restartpoints_timed_total"
        "Scheduled restartpoints performed (standby)"
    ∷ counter "restartpoints_req" "restartpoints_req_total"
        "Requested restartpoints performed (standby)"
    ∷ counter "restartpoints_done" "restartpoints_done_total"
        "Restartpoints that were successfully completed (standby)"
    ∷ counter "write_time" "write_time_seconds_total"
        "Total time spent writing files to disk during checkpoints, seconds"
    ∷ counter "sync_time" "sync_time_seconds_total"
        "Total time spent synchronizing files to disk during checkpoints, seconds"
    ∷ counter "buffers_written" "buffers_written_total" "Buffers written during checkpoints"
    ∷ gauge "stats_reset" "stats_reset_timestamp_seconds"
        "Unix time at which these stats were last reset"
    ∷ []

pub describe : List String
describe =
    "num_timed" ∷ "num_requested" ∷ "restartpoints_timed" ∷ "restartpoints_req"
    ∷ "restartpoints_done" ∷ "write_time" ∷ "sync_time" ∷ "buffers_written" ∷ "stats_reset" ∷ []

pub collect_into : List String
collect_into =
    "num_timed" ∷ "num_requested" ∷ "restartpoints_timed" ∷ "restartpoints_req"
    ∷ "restartpoints_done" ∷ "write_time" ∷ "sync_time" ∷ "buffers_written" ∷ "stats_reset" ∷ []

module _ (P : Prom) where
  emit_row : PgStatCheckpointer P → List (Action P)
  emit_row stat =
      let labels = string stat.database ∷ [] in
      in_order (
        emit_counter "num_timed" stat.num_timed labels
        ∷ emit_counter "num_requested" stat.num_requested labels
        ∷ emit_counter "restartpoints_timed" stat.restartpoints_timed labels
        ∷ emit_counter "restartpoints_req" stat.restartpoints_req labels
        ∷ emit_counter "restartpoints_done" stat.restartpoints_done labels
        ∷ emit_millis_as_secs "write_time" stat.write_time labels
        ∷ emit_millis_as_secs "sync_time" stat.sync_time labels
        ∷ emit_counter "buffers_written" stat.buffers_written labels
        ∷ emit_time "stats_reset" stat.stats_reset labels
        ∷ [])

  unfoldable pub emit : List (PgStatCheckpointer P) → List (Action P)
  unfolding emit_row
  emit = for_each emit_row

  unfoldable pub scrape : Fetched (List (PgStatCheckpointer P)) → Outcome P
  unfolding emit
  scrape = scraped "checkpointer stats: " emit

  module _ (n : Namespaces) where
    emit_row-IsDeclared :
        (stat : PgStatCheckpointer P)
        → All (IsDeclared (declared (new_pg_stat_checkpointer_collector n))) (emit_row stat)
    unfolding emit_row new_pg_stat_checkpointer_collector all_fit emit_counter emit_millis_as_secs
        emit_time
    emit_row-IsDeclared stat = in_order-IsDeclared P _ _ refl

    emit_row-IsLabelled :
        (stat : PgStatCheckpointer P) → All (IsLabelled (string stat.database)) (emit_row stat)
    unfolding emit_row emit_counter emit_millis_as_secs emit_time
    emit_row-IsLabelled stat = in_order-IsLabelled P _ _ refl

    pub collector : Collector P
    unfolding describe collect_into new_pg_stat_checkpointer_collector scrape emit names_all
    collector = record {
      scrape_prefix = "scraping: ";
      Input = Fetched (List (PgStatCheckpointer P));
      decls = new_pg_stat_checkpointer_collector n;
      describe = describe;
      collect_into = collect_into;
      scrape = scrape;
      scrape-IsDeclared =
          scraped-IsDeclared P _ _ _ (for_each-IsDeclared P _ emit_row emit_row-IsDeclared);
      databases = of_rows (λ stat. string stat.database);
      scrape-IsLabelled =
          scraped-IsLabelled P _ _ _
            (for_each-IsLabelled P emit_row (λ stat. string stat.database) emit_row-IsLabelled);
      describes_all = refl;
      collects_all = refl;
    }
