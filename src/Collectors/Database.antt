-- ===== src/Collectors/Database.antt =====
-- exporter/collectors/pg_stat_database.go: PgStatDatabaseCollector, with its row from exporter/db/model/model.go.
use pgxporter.Prelude.{String, refl, List, [], ◌∷◌, All}
use pgxporter.Prometheus.{Prom}
use pgxporter.Emit.{
  Float8, Int8, Text, Timestamptz, Action, Decl, emit_counter, emit_gauge, emit_millis_as_secs,
  emit_time, for_each, in_order, string,
}
use pgxporter.Emit.Shapes.{IsDeclared}
use pgxporter.Emit.Declared.{declared, in_order-IsDeclared, for_each-IsDeclared, all_fit}
use pgxporter.Emit.Labelled.{IsLabelled, in_order-IsLabelled, for_each-IsLabelled}
use pgxporter.Collectors.Names.{Namespaces, counter_factory, gauge_factory}
use pgxporter.Collectors.{
  Fetched, Outcome, scraped, scraped-IsDeclared, of_rows, scraped-IsLabelled, Collector, names_all,
}

pub record PgStatDatabase (P : Prom) : Type 0 where
  pub database : Text
  pub dat_id : Int8
  pub dat_name : Text
  pub num_backends : Int8
  pub xact_commit : Int8
  pub xact_rollback : Int8
  pub blks_read : Int8
  pub blks_hit : Int8
  pub tup_returned : Int8
  pub tup_fetched : Int8
  pub tup_inserted : Int8
  pub tup_updated : Int8
  pub tup_deleted : Int8
  pub conflicts : Int8
  pub temp_files : Int8
  pub temp_bytes : Int8
  pub deadlocks : Int8
  pub checksum_failures : Int8
  pub checksum_last_failure : Timestamptz
  pub blk_read_time : Float8 P
  pub blk_write_time : Float8 P
  pub session_time : Float8 P
  pub active_time : Float8 P
  pub idle_in_transaction_time : Float8 P
  pub sessions : Int8
  pub sessions_abandoned : Int8
  pub sessions_fatal : Int8
  pub sessions_killed : Int8
  pub stats_reset : Timestamptz

pub new_pg_stat_database_collector : Namespaces → List Decl
new_pg_stat_database_collector n =
    let labels : List String = "database" ∷ "datname" ∷ [] in
    let counter = counter_factory n "database" labels in
    let gauge = gauge_factory n "database" labels in
    gauge "num_backends" "numbackends" "Number of backends currently connected to this database"
    ∷ counter "xact_commit" "xact_commit_total" "Transactions committed in this database"
    ∷ counter "xact_rollback" "xact_rollback_total" "Transactions rolled back in this database"
    ∷ counter "blks_read" "blks_read_total" "Disk blocks read in this database"
    ∷ counter "blks_hit" "blks_hit_total" "Buffer cache hits in this database"
    ∷ counter "tup_returned" "tup_returned_total"
        "Live rows fetched by sequential scans + index entries returned by index scans"
    ∷ counter "tup_fetched" "tup_fetched_total" "Live rows fetched by index scans"
    ∷ counter "tup_inserted" "tup_inserted_total" "Rows inserted by queries in this database"
    ∷ counter "tup_updated" "tup_updated_total" "Rows updated by queries in this database"
    ∷ counter "tup_deleted" "tup_deleted_total" "Rows deleted by queries in this database"
    ∷ counter "conflicts" "conflicts_total"
        "Queries canceled due to conflicts with recovery on standbys"
    ∷ counter "temp_files" "temp_files_total" "Temporary files created by queries in this database"
    ∷ counter "temp_bytes" "temp_bytes_total" "Bytes written to temporary files in this database"
    ∷ counter "deadlocks" "deadlocks_total" "Deadlocks detected in this database"
    ∷ counter "blk_read_time" "blk_read_time_seconds_total"
        "Time spent reading data blocks by backends in this database (seconds)"
    ∷ counter "blk_write_time" "blk_write_time_seconds_total"
        "Time spent writing data blocks by backends in this database (seconds)"
    ∷ gauge "stats_reset" "stats_reset_timestamp_seconds"
        "Unix time at which these stats were last reset"
    ∷ counter "checksum_failures" "checksum_failures_total"
        "Data page checksum failures detected in this database (PG 12+)"
    ∷ gauge "checksum_last_failure" "checksum_last_failure_timestamp_seconds"
        "Unix time of the last data page checksum failure (PG 12+)"
    ∷ counter "session_time" "session_time_seconds_total"
        "Total session time in this database (seconds, PG 14+)"
    ∷ counter "active_time" "active_time_seconds_total"
        "Total active-query time in this database (seconds, PG 14+)"
    ∷ counter "idle_in_transaction_time" "idle_in_transaction_time_seconds_total"
        "Total idle-in-transaction time in this database (seconds, PG 14+)"
    ∷ counter "sessions" "sessions_total" "Sessions established in this database (PG 14+)"
    ∷ counter "sessions_abandoned" "sessions_abandoned_total"
        "Sessions abandoned due to connection loss (PG 14+)"
    ∷ counter "sessions_fatal" "sessions_fatal_total" "Sessions terminated by fatal errors (PG 14+)"
    ∷ counter "sessions_killed" "sessions_killed_total"
        "Sessions terminated by operator intervention (PG 14+)"
    ∷ []

pub describe : List String
describe =
    "num_backends" ∷ "xact_commit" ∷ "xact_rollback" ∷ "blks_read" ∷ "blks_hit" ∷ "tup_returned"
    ∷ "tup_fetched" ∷ "tup_inserted" ∷ "tup_updated" ∷ "tup_deleted" ∷ "conflicts" ∷ "temp_files"
    ∷ "temp_bytes" ∷ "deadlocks" ∷ "blk_read_time" ∷ "blk_write_time" ∷ "stats_reset"
    ∷ "checksum_failures" ∷ "checksum_last_failure" ∷ "session_time" ∷ "active_time"
    ∷ "idle_in_transaction_time" ∷ "sessions" ∷ "sessions_abandoned" ∷ "sessions_fatal"
    ∷ "sessions_killed" ∷ []

pub collect_into : List String
collect_into =
    "num_backends" ∷ "xact_commit" ∷ "xact_rollback" ∷ "blks_read" ∷ "blks_hit" ∷ "tup_returned"
    ∷ "tup_fetched" ∷ "tup_inserted" ∷ "tup_updated" ∷ "tup_deleted" ∷ "conflicts" ∷ "temp_files"
    ∷ "temp_bytes" ∷ "deadlocks" ∷ "blk_read_time" ∷ "blk_write_time" ∷ "stats_reset"
    ∷ "checksum_failures" ∷ "checksum_last_failure" ∷ "session_time" ∷ "active_time"
    ∷ "idle_in_transaction_time" ∷ "sessions" ∷ "sessions_abandoned" ∷ "sessions_fatal"
    ∷ "sessions_killed" ∷ []

module _ (P : Prom) where
  emit_row : PgStatDatabase P → List (Action P)
  emit_row stat =
      let labels = string stat.database ∷ string stat.dat_name ∷ [] in
      in_order (
        emit_gauge "num_backends" stat.num_backends labels
        ∷ emit_counter "xact_commit" stat.xact_commit labels
        ∷ emit_counter "xact_rollback" stat.xact_rollback labels
        ∷ emit_counter "blks_read" stat.blks_read labels
        ∷ emit_counter "blks_hit" stat.blks_hit labels
        ∷ emit_counter "tup_returned" stat.tup_returned labels
        ∷ emit_counter "tup_fetched" stat.tup_fetched labels
        ∷ emit_counter "tup_inserted" stat.tup_inserted labels
        ∷ emit_counter "tup_updated" stat.tup_updated labels
        ∷ emit_counter "tup_deleted" stat.tup_deleted labels
        ∷ emit_counter "conflicts" stat.conflicts labels
        ∷ emit_counter "temp_files" stat.temp_files labels
        ∷ emit_counter "temp_bytes" stat.temp_bytes labels
        ∷ emit_counter "deadlocks" stat.deadlocks labels
        ∷ emit_millis_as_secs "blk_read_time" stat.blk_read_time labels
        ∷ emit_millis_as_secs "blk_write_time" stat.blk_write_time labels
        ∷ emit_time "stats_reset" stat.stats_reset labels
        ∷ emit_counter "checksum_failures" stat.checksum_failures labels
        ∷ emit_time "checksum_last_failure" stat.checksum_last_failure labels
        ∷ emit_millis_as_secs "session_time" stat.session_time labels
        ∷ emit_millis_as_secs "active_time" stat.active_time labels
        ∷ emit_millis_as_secs "idle_in_transaction_time" stat.idle_in_transaction_time labels
        ∷ emit_counter "sessions" stat.sessions labels
        ∷ emit_counter "sessions_abandoned" stat.sessions_abandoned labels
        ∷ emit_counter "sessions_fatal" stat.sessions_fatal labels
        ∷ emit_counter "sessions_killed" stat.sessions_killed labels
        ∷ [])

  pub emit : List (PgStatDatabase P) → List (Action P)
  unfolding emit_row
  emit = for_each emit_row

  pub scrape : Fetched (List (PgStatDatabase P)) → Outcome P
  scrape = scraped "database stats: " emit

  module _ (n : Namespaces) where
    emit_row-IsDeclared :
        (stat : PgStatDatabase P)
        → All (IsDeclared (declared (new_pg_stat_database_collector n))) (emit_row stat)
    unfolding emit_row new_pg_stat_database_collector all_fit emit_counter emit_gauge
        emit_millis_as_secs emit_time
    emit_row-IsDeclared stat = in_order-IsDeclared P _ _ refl

    emit_row-IsLabelled :
        (stat : PgStatDatabase P) → All (IsLabelled (string stat.database)) (emit_row stat)
    unfolding emit_row emit_counter emit_gauge emit_millis_as_secs emit_time
    emit_row-IsLabelled stat = in_order-IsLabelled P _ _ refl

    pub collector : Collector P
    unfolding describe collect_into new_pg_stat_database_collector scrape emit names_all
    collector = record {
      scrape_prefix = "scraping: ";
      Input = Fetched (List (PgStatDatabase P));
      decls = new_pg_stat_database_collector n;
      describe = describe;
      collect_into = collect_into;
      scrape = scrape;
      scrape-IsDeclared =
          scraped-IsDeclared P _ _ _ (for_each-IsDeclared P _ emit_row emit_row-IsDeclared);
      databases = of_rows (λ stat. string stat.database);
      scrape-IsLabelled =
          scraped-IsLabelled P _ _ _
            (for_each-IsLabelled P emit_row (λ stat. string stat.database) emit_row-IsLabelled);
      describes_all = refl;
      collects_all = refl;
    }
