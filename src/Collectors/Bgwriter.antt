-- ===== src/Collectors/Bgwriter.antt =====
-- exporter/collectors/pg_stat_bgwriter.go: PgStatBgwriterCollector, with its row from exporter/db/model/model.go.
use pgxporter.Prelude.{String, refl, List, [], ◌∷◌, All}
use pgxporter.Prometheus.{Prom}
use pgxporter.Emit.{
  Float8, Int8, Text, Timestamptz, Action, Decl, emit_counter, emit_millis_as_secs, emit_time,
  for_each, in_order, string,
}
use pgxporter.Emit.Shapes.{IsDeclared}
use pgxporter.Emit.Declared.{declared, in_order-IsDeclared, for_each-IsDeclared, all_fit}
use pgxporter.Emit.Labelled.{IsLabelled, in_order-IsLabelled, for_each-IsLabelled}
use pgxporter.Collectors.Names.{Namespaces, counter_factory, gauge_factory}
use pgxporter.Collectors.{
  Fetched, Outcome, scraped, scraped-IsDeclared, of_rows, scraped-IsLabelled, Collector, names_all,
}

pub record PgStatBgwriter (P : Prom) : Type 0 where
  pub database : Text
  pub buffers_clean : Int8
  pub maxwritten_clean : Int8
  pub buffers_alloc : Int8
  pub stats_reset : Timestamptz
  pub checkpoints_timed : Int8
  pub checkpoints_req : Int8
  pub checkpoint_write_time : Float8 P
  pub checkpoint_sync_time : Float8 P
  pub buffers_checkpoint : Int8
  pub buffers_backend : Int8
  pub buffers_backend_fsync : Int8

pub new_pg_stat_bgwriter_collector : Namespaces → List Decl
new_pg_stat_bgwriter_collector n =
    let labels : List String = "database" ∷ [] in
    let counter = counter_factory n "bgwriter" labels in
    let gauge = gauge_factory n "bgwriter" labels in
    counter "buffers_clean" "buffers_clean_total" "Buffers written by the background writer"
    ∷ counter "maxwritten_clean" "maxwritten_clean_total"
        "Times the background writer stopped a cleaning scan because it had written too many buffers"
    ∷ counter "buffers_alloc" "buffers_alloc_total" "Buffers allocated"
    ∷ gauge "stats_reset" "stats_reset_timestamp_seconds"
        "Unix time at which these stats were last reset"
    ∷ counter "checkpoints_timed" "checkpoints_timed_total"
        "Scheduled checkpoints performed (PG <17 only — see pg_stat_checkpointer on PG 17+)"
    ∷ counter "checkpoints_req" "checkpoints_req_total"
        "Requested (non-scheduled) checkpoints performed (PG <17)"
    ∷ counter "checkpoint_write_time" "checkpoint_write_time_seconds_total"
        "Total time spent writing files to disk during checkpoints, seconds (PG <17)"
    ∷ counter "checkpoint_sync_time" "checkpoint_sync_time_seconds_total"
        "Total time spent synchronizing files to disk during checkpoints, seconds (PG <17)"
    ∷ counter "buffers_checkpoint" "buffers_checkpoint_total"
        "Buffers written during checkpoints (PG <17)"
    ∷ counter "buffers_backend" "buffers_backend_total"
        "Buffers written directly by a backend (PG <17)"
    ∷ counter "buffers_backend_fsync" "buffers_backend_fsync_total"
        "Times a backend had to execute its own fsync (PG <17)"
    ∷ []

pub describe : List String
describe =
    "buffers_clean" ∷ "maxwritten_clean" ∷ "buffers_alloc" ∷ "stats_reset" ∷ "checkpoints_timed"
    ∷ "checkpoints_req" ∷ "checkpoint_write_time" ∷ "checkpoint_sync_time" ∷ "buffers_checkpoint"
    ∷ "buffers_backend" ∷ "buffers_backend_fsync" ∷ []

pub collect_into : List String
collect_into =
    "buffers_clean" ∷ "maxwritten_clean" ∷ "buffers_alloc" ∷ "stats_reset" ∷ "checkpoints_timed"
    ∷ "checkpoints_req" ∷ "checkpoint_write_time" ∷ "checkpoint_sync_time" ∷ "buffers_checkpoint"
    ∷ "buffers_backend" ∷ "buffers_backend_fsync" ∷ []

module _ (P : Prom) where
  emit_row : PgStatBgwriter P → List (Action P)
  emit_row stat =
      let labels = string stat.database ∷ [] in
      in_order (
        emit_counter "buffers_clean" stat.buffers_clean labels
        ∷ emit_counter "maxwritten_clean" stat.maxwritten_clean labels
        ∷ emit_counter "buffers_alloc" stat.buffers_alloc labels
        ∷ emit_time "stats_reset" stat.stats_reset labels
        ∷ emit_counter "checkpoints_timed" stat.checkpoints_timed labels
        ∷ emit_counter "checkpoints_req" stat.checkpoints_req labels
        ∷ emit_millis_as_secs "checkpoint_write_time" stat.checkpoint_write_time labels
        ∷ emit_millis_as_secs "checkpoint_sync_time" stat.checkpoint_sync_time labels
        ∷ emit_counter "buffers_checkpoint" stat.buffers_checkpoint labels
        ∷ emit_counter "buffers_backend" stat.buffers_backend labels
        ∷ emit_counter "buffers_backend_fsync" stat.buffers_backend_fsync labels
        ∷ [])

  pub emit : List (PgStatBgwriter P) → List (Action P)
  unfolding emit_row
  emit = for_each emit_row

  pub scrape : Fetched (List (PgStatBgwriter P)) → Outcome P
  scrape = scraped "bgwriter stats: " emit

  module _ (n : Namespaces) where
    emit_row-IsDeclared :
        (stat : PgStatBgwriter P)
        → All (IsDeclared (declared (new_pg_stat_bgwriter_collector n))) (emit_row stat)
    unfolding emit_row new_pg_stat_bgwriter_collector all_fit emit_counter emit_millis_as_secs
        emit_time
    emit_row-IsDeclared stat = in_order-IsDeclared P _ _ refl

    emit_row-IsLabelled :
        (stat : PgStatBgwriter P) → All (IsLabelled (string stat.database)) (emit_row stat)
    unfolding emit_row emit_counter emit_millis_as_secs emit_time
    emit_row-IsLabelled stat = in_order-IsLabelled P _ _ refl

    pub collector : Collector P
    unfolding describe collect_into new_pg_stat_bgwriter_collector scrape emit names_all
    collector = record {
      scrape_prefix = "scraping: ";
      Input = Fetched (List (PgStatBgwriter P));
      decls = new_pg_stat_bgwriter_collector n;
      describe = describe;
      collect_into = collect_into;
      scrape = scrape;
      scrape-IsDeclared =
          scraped-IsDeclared P _ _ _ (for_each-IsDeclared P _ emit_row emit_row-IsDeclared);
      databases = of_rows (λ stat. string stat.database);
      scrape-IsLabelled =
          scraped-IsLabelled P _ _ _
            (for_each-IsLabelled P emit_row (λ stat. string stat.database) emit_row-IsLabelled);
      describes_all = refl;
      collects_all = refl;
    }
