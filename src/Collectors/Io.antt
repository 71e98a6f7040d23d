-- ===== src/Collectors/Io.antt =====
-- exporter/collectors/pg_stat_io.go: PgStatIOCollector, with its row from exporter/db/model/model.go.
use pgxporter.Prelude.{String, refl, List, [], ◌∷◌, All}
use pgxporter.Prometheus.{Prom}
use pgxporter.Emit.{
  Float8, Int8, Text, Timestamptz, Action, Decl, emit_counter, emit_gauge, emit_millis_as_secs,
  emit_time, for_each, in_order, string,
}
use pgxporter.Emit.Shapes.{IsDeclared}
use pgxporter.Emit.Declared.{declared, in_order-IsDeclared, for_each-IsDeclared, all_fit}
use pgxporter.Emit.Labelled.{IsLabelled, in_order-IsLabelled, for_each-IsLabelled}
use pgxporter.Collectors.Names.{Namespaces, counter_factory, gauge_factory}
use pgxporter.Collectors.{
  Fetched, Outcome, scraped, scraped-IsDeclared, of_rows, scraped-IsLabelled, Collector, names_all,
}

pub record PgStatIo (P : Prom) : Type 0 where
  pub database : Text
  pub backend_type : Text
  pub object : Text
  pub context : Text
  pub reads : Int8
  pub read_time : Float8 P
  pub writes : Int8
  pub write_time : Float8 P
  pub writebacks : Int8
  pub writeback_time : Float8 P
  pub extends : Int8
  pub extend_time : Float8 P
  pub op_bytes : Int8
  pub hits : Int8
  pub evictions : Int8
  pub reuses : Int8
  pub fsyncs : Int8
  pub fsync_time : Float8 P
  pub stats_reset : Timestamptz

pub new_pg_stat_io_collector : Namespaces → List Decl
new_pg_stat_io_collector n =
    let labels : List String = "database" ∷ "backend_type" ∷ "object" ∷ "context" ∷ [] in
    let counter = counter_factory n "io" labels in
    let gauge = gauge_factory n "io" labels in
    counter "reads" "reads_total" "Read operations issued"
    ∷ counter "read_time" "read_time_seconds_total" "Total time spent in read operations, seconds"
    ∷ counter "writes" "writes_total" "Write operations issued"
    ∷ counter "write_time" "write_time_seconds_total"
        "Total time spent in write operations, seconds"
    ∷ counter "writebacks" "writebacks_total" "Writeback operations (dirty buffers flushed)"
    ∷ counter "writeback_time" "writeback_time_seconds_total"
        "Total time spent in writeback operations, seconds"
    ∷ counter "extends" "extends_total" "Relation-extension operations"
    ∷ counter "extend_time" "extend_time_seconds_total"
        "Total time spent extending relations, seconds"
    ∷ gauge "op_bytes" "op_bytes"
        "Block size for I/O operations in this bucket, bytes (typically 8192)"
    ∷ counter "hits" "hits_total" "Shared-buffer hits"
    ∷ counter "evictions" "evictions_total" "Buffers evicted to make room"
    ∷ counter "reuses" "reuses_total" "Buffers reused from a previous strategy ring"
    ∷ counter "fsyncs" "fsyncs_total" "fsync operations issued"
    ∷ counter "fsync_time" "fsync_time_seconds_total"
        "Total time spent in fsync operations, seconds"
    ∷ gauge "stats_reset" "stats_reset_timestamp_seconds"
        "Unix time at which these stats were last reset"
    ∷ []

pub describe : List String
describe =
    "reads" ∷ "read_time" ∷ "writes" ∷ "write_time" ∷ "writebacks" ∷ "writeback_time" ∷ "extends"
    ∷ "extend_time" ∷ "op_bytes" ∷ "hits" ∷ "evictions" ∷ "reuses" ∷ "fsyncs" ∷ "fsync_time"
    ∷ "stats_reset" ∷ []

pub collect_into : List String
collect_into =
    "reads" ∷ "read_time" ∷ "writes" ∷ "write_time" ∷ "writebacks" ∷ "writeback_time" ∷ "extends"
    ∷ "extend_time" ∷ "op_bytes" ∷ "hits" ∷ "evictions" ∷ "reuses" ∷ "fsyncs" ∷ "fsync_time"
    ∷ "stats_reset" ∷ []

module _ (P : Prom) where
  emit_row : PgStatIo P → List (Action P)
  emit_row stat =
      let labels =
        string stat.database
        ∷ string stat.backend_type
        ∷ string stat.object
        ∷ string stat.context
        ∷ [] in
      in_order (
        emit_counter "reads" stat.reads labels
        ∷ emit_millis_as_secs "read_time" stat.read_time labels
        ∷ emit_counter "writes" stat.writes labels
        ∷ emit_millis_as_secs "write_time" stat.write_time labels
        ∷ emit_counter "writebacks" stat.writebacks labels
        ∷ emit_millis_as_secs "writeback_time" stat.writeback_time labels
        ∷ emit_counter "extends" stat.extends labels
        ∷ emit_millis_as_secs "extend_time" stat.extend_time labels
        ∷ emit_gauge "op_bytes" stat.op_bytes labels
        ∷ emit_counter "hits" stat.hits labels
        ∷ emit_counter "evictions" stat.evictions labels
        ∷ emit_counter "reuses" stat.reuses labels
        ∷ emit_counter "fsyncs" stat.fsyncs labels
        ∷ emit_millis_as_secs "fsync_time" stat.fsync_time labels
        ∷ emit_time "stats_reset" stat.stats_reset labels
        ∷ [])

  unfoldable pub emit : List (PgStatIo P) → List (Action P)
  unfolding emit_row
  emit = for_each emit_row

  unfoldable pub scrape : Fetched (List (PgStatIo P)) → Outcome P
  unfolding emit
  scrape = scraped "io stats: " emit

  module _ (n : Namespaces) where
    emit_row-IsDeclared :
        (stat : PgStatIo P)
        → All (IsDeclared (declared (new_pg_stat_io_collector n))) (emit_row stat)
    unfolding emit_row new_pg_stat_io_collector all_fit emit_counter emit_gauge emit_millis_as_secs
        emit_time
    emit_row-IsDeclared stat = in_order-IsDeclared P _ _ refl

    emit_row-IsLabelled :
        (stat : PgStatIo P) → All (IsLabelled (string stat.database)) (emit_row stat)
    unfolding emit_row emit_counter emit_gauge emit_millis_as_secs emit_time
    emit_row-IsLabelled stat = in_order-IsLabelled P _ _ refl

    pub collector : Collector P
    unfolding describe collect_into new_pg_stat_io_collector scrape emit names_all
    collector = record {
      scrape_prefix = "scraping: ";
      Input = Fetched (List (PgStatIo P));
      decls = new_pg_stat_io_collector n;
      describe = describe;
      collect_into = collect_into;
      scrape = scrape;
      scrape-IsDeclared =
          scraped-IsDeclared P _ _ _ (for_each-IsDeclared P _ emit_row emit_row-IsDeclared);
      databases = of_rows (λ stat. string stat.database);
      scrape-IsLabelled =
          scraped-IsLabelled P _ _ _
            (for_each-IsLabelled P emit_row (λ stat. string stat.database) emit_row-IsLabelled);
      describes_all = refl;
      collects_all = refl;
    }
