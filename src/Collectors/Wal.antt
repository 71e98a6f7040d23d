-- ===== src/Collectors/Wal.antt =====
-- exporter/collectors/pg_stat_wal.go: PgStatWalCollector, with its row from exporter/db/model/model.go.
use pgxporter.Prelude.{String, refl, List, [], ◌∷◌, All}
use pgxporter.Prometheus.{Prom}
use pgxporter.Emit.{
  Float8, Int8, Text, Timestamptz, Action, Decl, emit_counter, emit_counter_float,
  emit_millis_as_secs, emit_time, for_each, in_order, string,
}
use pgxporter.Emit.Shapes.{IsDeclared}
use pgxporter.Emit.Declared.{declared, in_order-IsDeclared, for_each-IsDeclared, all_fit}
use pgxporter.Emit.Labelled.{IsLabelled, in_order-IsLabelled, for_each-IsLabelled}
use pgxporter.Collectors.Names.{Namespaces, counter_factory, gauge_factory}
use pgxporter.Collectors.{
  Fetched, Outcome, scraped, scraped-IsDeclared, of_rows, scraped-IsLabelled, Collector, names_all,
}

pub record PgStatWal (P : Prom) : Type 0 where
  pub database : Text
  pub wal_records : Int8
  pub wal_fpi : Int8
  pub wal_bytes : Float8 P
  pub wal_buffers_full : Int8
  pub wal_write : Int8
  pub wal_sync : Int8
  pub wal_write_time : Float8 P
  pub wal_sync_time : Float8 P
  pub stats_reset : Timestamptz

pub new_pg_stat_wal_collector : Namespaces → List Decl
new_pg_stat_wal_collector n =
    let labels : List String = "database" ∷ [] in
    let counter = counter_factory n "wal" labels in
    let gauge = gauge_factory n "wal" labels in
    counter "wal_records" "records_total" "WAL records generated"
    ∷ counter "wal_fpi" "fpi_total" "WAL full-page images generated"
    ∷ counter "wal_bytes" "bytes_total" "Total WAL bytes generated"
    ∷ counter "wal_buffers_full" "buffers_full_total"
        "Times WAL data was written because buffers were full"
    ∷ counter "wal_write" "write_total"
        "WAL writes issued (PG 14 only — merged into pg_stat_io in PG 15)"
    ∷ counter "wal_sync" "sync_total" "WAL syncs issued (PG 14 only)"
    ∷ counter "wal_write_time" "write_time_seconds_total"
        "Total time spent in WAL writes, seconds (PG 14 only)"
    ∷ counter "wal_sync_time" "sync_time_seconds_total"
        "Total time spent in WAL syncs, seconds (PG 14 only)"
    ∷ gauge "stats_reset" "stats_reset_timestamp_seconds"
        "Unix time at which these stats were last reset"
    ∷ []

pub describe : List String
describe =
    "wal_records" ∷ "wal_fpi" ∷ "wal_bytes" ∷ "wal_buffers_full" ∷ "wal_write" ∷ "wal_sync"
    ∷ "wal_write_time" ∷ "wal_sync_time" ∷ "stats_reset" ∷ []

pub collect_into : List String
collect_into =
    "wal_records" ∷ "wal_fpi" ∷ "wal_bytes" ∷ "wal_buffers_full" ∷ "wal_write" ∷ "wal_sync"
    ∷ "wal_write_time" ∷ "wal_sync_time" ∷ "stats_reset" ∷ []

module _ (P : Prom) where
  emit_row : PgStatWal P → List (Action P)
  emit_row stat =
      let labels = string stat.database ∷ [] in
      in_order (
        emit_counter "wal_records" stat.wal_records labels
        ∷ emit_counter "wal_fpi" stat.wal_fpi labels
        ∷ emit_counter_float "wal_bytes" stat.wal_bytes labels
        ∷ emit_counter "wal_buffers_full" stat.wal_buffers_full labels
        ∷ emit_counter "wal_write" stat.wal_write labels
        ∷ emit_counter "wal_sync" stat.wal_sync labels
        ∷ emit_millis_as_secs "wal_write_time" stat.wal_write_time labels
        ∷ emit_millis_as_secs "wal_sync_time" stat.wal_sync_time labels
        ∷ emit_time "stats_reset" stat.stats_reset labels
        ∷ [])

  unfoldable pub emit : List (PgStatWal P) → List (Action P)
  unfolding emit_row
  emit = for_each emit_row

  unfoldable pub scrape : Fetched (List (PgStatWal P)) → Outcome P
  unfolding emit
  scrape = scraped "wal stats: " emit

  module _ (n : Namespaces) where
    emit_row-IsDeclared :
        (stat : PgStatWal P)
        → All (IsDeclared (declared (new_pg_stat_wal_collector n))) (emit_row stat)
    unfolding emit_row new_pg_stat_wal_collector all_fit emit_counter emit_counter_float
        emit_millis_as_secs emit_time
    emit_row-IsDeclared stat = in_order-IsDeclared P _ _ refl

    emit_row-IsLabelled :
        (stat : PgStatWal P) → All (IsLabelled (string stat.database)) (emit_row stat)
    unfolding emit_row emit_counter emit_counter_float emit_millis_as_secs emit_time
    emit_row-IsLabelled stat = in_order-IsLabelled P _ _ refl

    pub collector : Collector P
    unfolding describe collect_into new_pg_stat_wal_collector scrape emit names_all
    collector = record {
      scrape_prefix = "scraping: ";
      Input = Fetched (List (PgStatWal P));
      decls = new_pg_stat_wal_collector n;
      describe = describe;
      collect_into = collect_into;
      scrape = scrape;
      scrape-IsDeclared =
          scraped-IsDeclared P _ _ _ (for_each-IsDeclared P _ emit_row emit_row-IsDeclared);
      databases = of_rows (λ stat. string stat.database);
      scrape-IsLabelled =
          scraped-IsLabelled P _ _ _
            (for_each-IsLabelled P emit_row (λ stat. string stat.database) emit_row-IsLabelled);
      describes_all = refl;
      collects_all = refl;
    }
