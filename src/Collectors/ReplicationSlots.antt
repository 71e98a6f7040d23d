-- ===== src/Collectors/ReplicationSlots.antt =====
-- exporter/collectors/pg_replication_slots.go: PgReplicationSlotsCollector, with its row from exporter/db/model/model.go.
use pgxporter.Prelude.{String, refl, List, [], ◌∷◌, All}
use pgxporter.Prometheus.{Prom}
use pgxporter.Emit.{
  Float8, Int8, PgBool, Text, Action, Decl, emit_bool, emit_float, emit_gauge, for_each, in_order,
  string,
}
use pgxporter.Emit.Shapes.{IsDeclared}
use pgxporter.Emit.Declared.{declared, in_order-IsDeclared, for_each-IsDeclared, all_fit}
use pgxporter.Emit.Labelled.{IsLabelled, in_order-IsLabelled, for_each-IsLabelled}
use pgxporter.Collectors.Names.{Namespaces, gauge_factory_raw_pg}
use pgxporter.Collectors.{
  Fetched, Outcome, scraped, scraped-IsDeclared, of_rows, scraped-IsLabelled, Collector, names_all,
}

pub record PgReplicationSlot (P : Prom) : Type 0 where
  pub database : Text
  pub slot_name : Text
  pub plugin : Text
  pub slot_type : Text
  pub dat_name : Text
  pub active : PgBool
  pub temporary : PgBool
  pub restart_lsn_bytes : Float8 P
  pub confirmed_flush_lsn : Float8 P
  pub retained_wal_bytes : Float8 P
  pub wal_status : Text
  pub safe_wal_size_bytes : Int8
  pub conflicting : PgBool

pub new_pg_replication_slots_collector : Namespaces → List Decl
new_pg_replication_slots_collector n =
    let labels : List String =
      "database" ∷ "slot_name" ∷ "slot_type" ∷ "plugin" ∷ "datname" ∷ "wal_status" ∷ [] in
    let gauge = gauge_factory_raw_pg n "replication_slots" labels in
    gauge "active" "active" "1 if the slot is currently active, 0 otherwise"
    ∷ gauge "temporary" "temporary" "1 if the slot is temporary (dies with session), 0 otherwise"
    ∷ gauge "restart_lsn" "restart_lsn_bytes"
        "Oldest WAL location the slot requires, as a byte offset"
    ∷ gauge "confirmed_flush_lsn" "confirmed_flush_lsn_bytes"
        "Logical-slot: last LSN confirmed flushed by the consumer"
    ∷ gauge "retained_wal_bytes" "retained_wal_bytes"
        "WAL bytes retained by this slot (pg_current_wal_lsn - restart_lsn); NULL on standby"
    ∷ gauge "safe_wal_size_bytes" "safe_wal_size_bytes"
        "WAL bytes remaining before the slot becomes 'lost' (PG 13+)"
    ∷ gauge "conflicting" "conflicting"
        "1 if the slot is conflicting with recovery, 0 otherwise (PG 16+)"
    ∷ []

pub describe : List String
describe =
    "active" ∷ "temporary" ∷ "restart_lsn" ∷ "confirmed_flush_lsn" ∷ "retained_wal_bytes"
    ∷ "safe_wal_size_bytes" ∷ "conflicting" ∷ []

pub collect_into : List String
collect_into =
    "active" ∷ "temporary" ∷ "restart_lsn" ∷ "confirmed_flush_lsn" ∷ "retained_wal_bytes"
    ∷ "safe_wal_size_bytes" ∷ "conflicting" ∷ []

module _ (P : Prom) where
  emit_row : PgReplicationSlot P → List (Action P)
  emit_row stat =
      let labels =
        string stat.database
        ∷ string stat.slot_name
        ∷ string stat.slot_type
        ∷ string stat.plugin
        ∷ string stat.dat_name
        ∷ string stat.wal_status
        ∷ [] in
      in_order (
        emit_bool "active" stat.active labels
        ∷ emit_bool "temporary" stat.temporary labels
        ∷ emit_float "restart_lsn" stat.restart_lsn_bytes labels
        ∷ emit_float "confirmed_flush_lsn" stat.confirmed_flush_lsn labels
        ∷ emit_float "retained_wal_bytes" stat.retained_wal_bytes labels
        ∷ emit_gauge "safe_wal_size_bytes" stat.safe_wal_size_bytes labels
        ∷ emit_bool "conflicting" stat.conflicting labels
        ∷ [])

  pub emit : List (PgReplicationSlot P) → List (Action P)
  unfolding emit_row
  emit = for_each emit_row

  pub scrape : Fetched (List (PgReplicationSlot P)) → Outcome P
  scrape = scraped "replication_slots stats: " emit

  module _ (n : Namespaces) where
    emit_row-IsDeclared :
        (stat : PgReplicationSlot P)
        → All (IsDeclared (declared (new_pg_replication_slots_collector n))) (emit_row stat)
    unfolding emit_row new_pg_replication_slots_collector all_fit emit_bool emit_float emit_gauge
    emit_row-IsDeclared stat = in_order-IsDeclared P _ _ refl

    emit_row-IsLabelled :
        (stat : PgReplicationSlot P) → All (IsLabelled (string stat.database)) (emit_row stat)
    unfolding emit_row emit_bool emit_float emit_gauge
    emit_row-IsLabelled stat = in_order-IsLabelled P _ _ refl

    pub collector : Collector P
    unfolding describe collect_into new_pg_replication_slots_collector scrape emit names_all
    collector = record {
      scrape_prefix = "scraping: ";
      Input = Fetched (List (PgReplicationSlot P));
      decls = new_pg_replication_slots_collector n;
      describe = describe;
      collect_into = collect_into;
      scrape = scrape;
      scrape-IsDeclared =
          scraped-IsDeclared P _ _ _ (for_each-IsDeclared P _ emit_row emit_row-IsDeclared);
      databases = of_rows (λ stat. string stat.database);
      scrape-IsLabelled =
          scraped-IsLabelled P _ _ _
            (for_each-IsLabelled P emit_row (λ stat. string stat.database) emit_row-IsLabelled);
      describes_all = refl;
      collects_all = refl;
    }
