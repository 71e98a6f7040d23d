-- ===== src/Collectors/WalReceiver.antt =====
-- exporter/collectors/pg_stat_wal_receiver.go: PgStatWalReceiverCollector, with its row from exporter/db/model/model.go.
use pgxporter.Prelude.{String, refl, List, [], ◌∷◌, All}
use pgxporter.Prometheus.{Prom}
use pgxporter.Emit.{
  Float8, Int8, Text, Timestamptz, Action, Decl, emit_float, emit_time, for_each, in_order, string,
}
use pgxporter.Emit.Shapes.{IsDeclared}
use pgxporter.Emit.Declared.{declared, in_order-IsDeclared, for_each-IsDeclared, all_fit}
use pgxporter.Emit.Labelled.{IsLabelled, in_order-IsLabelled, for_each-IsLabelled}
use pgxporter.Collectors.Names.{Namespaces, gauge_factory}
use pgxporter.Collectors.{
  Fetched, Outcome, scraped, scraped-IsDeclared, of_rows, scraped-IsLabelled, Collector, names_all,
}

pub record PgStatWalReceiver (P : Prom) : Type 0 where
  pub database : Text
  pub pid : Int8
  pub status : Text
  pub receive_start_lsn_bytes : Float8 P
  pub written_lsn_bytes : Float8 P
  pub flushed_lsn_bytes : Float8 P
  pub latest_end_lsn_bytes : Float8 P
  pub last_msg_send_time : Timestamptz
  pub last_msg_receipt_time : Timestamptz
  pub latest_end_time : Timestamptz
  pub slot_name : Text
  pub sender_host : Text

pub new_pg_stat_wal_receiver_collector : Namespaces → List Decl
new_pg_stat_wal_receiver_collector n =
    let labels : List String = "database" ∷ "status" ∷ "slot_name" ∷ "sender_host" ∷ [] in
    let gauge = gauge_factory n "wal_receiver" labels in
    gauge "receive_start_lsn" "receive_start_lsn_bytes"
      "WAL location at which streaming started, as a byte offset"
    ∷ gauge "written_lsn" "written_lsn_bytes" "Last WAL byte written to disk by the receiver"
    ∷ gauge "flushed_lsn" "flushed_lsn_bytes" "Last WAL byte flushed to disk by the receiver"
    ∷ gauge "latest_end_lsn" "latest_end_lsn_bytes"
        "Last WAL byte reported to the upstream by the receiver"
    ∷ gauge "last_msg_send_time" "last_msg_send_timestamp_seconds"
        "Unix time when the last message was sent from the upstream"
    ∷ gauge "last_msg_receipt_time" "last_msg_receipt_timestamp_seconds"
        "Unix time when the last message was received from the upstream"
    ∷ gauge "latest_end_time" "latest_end_timestamp_seconds"
        "Unix time of the last message the receiver replied to"
    ∷ []

pub describe : List String
describe =
    "receive_start_lsn" ∷ "written_lsn" ∷ "flushed_lsn" ∷ "latest_end_lsn" ∷ "last_msg_send_time"
    ∷ "last_msg_receipt_time" ∷ "latest_end_time" ∷ []

pub collect_into : List String
collect_into =
    "receive_start_lsn" ∷ "written_lsn" ∷ "flushed_lsn" ∷ "latest_end_lsn" ∷ "last_msg_send_time"
    ∷ "last_msg_receipt_time" ∷ "latest_end_time" ∷ []

module _ (P : Prom) where
  emit_row : PgStatWalReceiver P → List (Action P)
  emit_row stat =
      let labels =
        string stat.database
        ∷ string stat.status
        ∷ string stat.slot_name
        ∷ string stat.sender_host
        ∷ [] in
      in_order (
        emit_float "receive_start_lsn" stat.receive_start_lsn_bytes labels
        ∷ emit_float "written_lsn" stat.written_lsn_bytes labels
        ∷ emit_float "flushed_lsn" stat.flushed_lsn_bytes labels
        ∷ emit_float "latest_end_lsn" stat.latest_end_lsn_bytes labels
        ∷ emit_time "last_msg_send_time" stat.last_msg_send_time labels
        ∷ emit_time "last_msg_receipt_time" stat.last_msg_receipt_time labels
        ∷ emit_time "latest_end_time" stat.latest_end_time labels
        ∷ [])

  pub emit : List (PgStatWalReceiver P) → List (Action P)
  unfolding emit_row
  emit = for_each emit_row

  pub scrape : Fetched (List (PgStatWalReceiver P)) → Outcome P
  scrape = scraped "wal_receiver stats: " emit

  module _ (n : Namespaces) where
    emit_row-IsDeclared :
        (stat : PgStatWalReceiver P)
        → All (IsDeclared (declared (new_pg_stat_wal_receiver_collector n))) (emit_row stat)
    unfolding emit_row new_pg_stat_wal_receiver_collector all_fit emit_float emit_time
    emit_row-IsDeclared stat = in_order-IsDeclared P _ _ refl

    emit_row-IsLabelled :
        (stat : PgStatWalReceiver P) → All (IsLabelled (string stat.database)) (emit_row stat)
    unfolding emit_row emit_float emit_time
    emit_row-IsLabelled stat = in_order-IsLabelled P _ _ refl

    pub collector : Collector P
    unfolding describe collect_into new_pg_stat_wal_receiver_collector scrape emit names_all
    collector = record {
      scrape_prefix = "scraping: ";
      Input = Fetched (List (PgStatWalReceiver P));
      decls = new_pg_stat_wal_receiver_collector n;
      describe = describe;
      collect_into = collect_into;
      scrape = scrape;
      scrape-IsDeclared =
          scraped-IsDeclared P _ _ _ (for_each-IsDeclared P _ emit_row emit_row-IsDeclared);
      databases = of_rows (λ stat. string stat.database);
      scrape-IsLabelled =
          scraped-IsLabelled P _ _ _
            (for_each-IsLabelled P emit_row (λ stat. string stat.database) emit_row-IsLabelled);
      describes_all = refl;
      collects_all = refl;
    }
