-- ===== src/Collectors/Subscription.antt =====
-- exporter/collectors/pg_stat_subscription.go: PgStatSubscriptionCollector, with its rows from exporter/db/model/model.go.
use pgxporter.Prelude.{
  String, ◌<>◌, refl, List, [], ◌∷◌, ◌++◌, ◌&&◌, map, All, All-append, none, some,
}
use pgxporter.Prometheus.{Prom}
use pgxporter.Emit.{
  Text, Int8, PgBool, Timestamptz, Action, Decl, string, valid, in_order, for_each, keep_if,
  emit_counter, emit_gauge, emit_time, emit_bool,
}
use pgxporter.Emit.Shapes.{IsDeclared}
use pgxporter.Emit.Declared.{
  declared, in_order-IsDeclared, for_each-IsDeclared, keep_if-IsDeclared, all_fit,
}
use pgxporter.Emit.Labelled.{
  IsLabelled, AreAll, AreAll-split, in_order-IsLabelled, keep_if-IsLabelled, for_each-IsLabelled,
}
use pgxporter.Collectors.Names.{Namespaces, counter_factory, gauge_factory}
use pgxporter.Collectors.{Fetched, of_rows, rows, failed, Outcome, Collector, names_all}

pub record PgStatSubscription : Type 0 where
  pub database : Text
  pub sub_name : Text
  pub active : PgBool
  pub received_lsn_bytes : Int8
  pub last_msg_send_time : Timestamptz
  pub last_msg_receipt_time : Timestamptz
  pub latest_end_lsn_bytes : Int8
  pub latest_end_time : Timestamptz

pub record PgStatSubscriptionStats : Type 0 where
  pub database : Text
  pub sub_name : Text
  pub apply_error_count : Int8
  pub sync_error_count : Int8
  pub stats_reset : Timestamptz

pub new_pg_stat_subscription_collector : Namespaces → List Decl
new_pg_stat_subscription_collector n =
    let labels : List String = "database" ∷ "subname" ∷ [] in
    let gauge = gauge_factory n "subscription" labels in
    let counter = counter_factory n "subscription" labels in
    gauge "active" "active" "1 if any worker for the subscription is running, 0 otherwise"
    ∷ gauge "received_lsn" "received_lsn_bytes"
        "Last write-ahead log location received, as a byte offset"
    ∷ gauge "last_msg_send_time" "last_msg_send_time_seconds"
        "Send time of the last message received from the origin"
    ∷ gauge "last_msg_receipt_time" "last_msg_receipt_time_seconds"
        "Receipt time of the last message received from the origin"
    ∷ gauge "latest_end_lsn" "latest_end_lsn_bytes"
        "Last WAL location reported to the origin, as a byte offset"
    ∷ gauge "latest_end_time" "latest_end_time_seconds"
        "Time of the last message reported to the origin"
    ∷ counter "apply_error_count" "apply_error_count_total"
        "Number of times an error occurred while applying changes"
    ∷ counter "sync_error_count" "sync_error_count_total"
        "Number of times an error occurred during initial table sync"
    ∷ gauge "stats_reset_second" "stats_reset_timestamp_seconds"
        "Unix time at which subscription stats were last reset"
    ∷ []

pub describe : List String
describe =
    "active" ∷ "received_lsn" ∷ "last_msg_send_time" ∷ "last_msg_receipt_time" ∷ "latest_end_lsn"
    ∷ "latest_end_time" ∷ "apply_error_count" ∷ "sync_error_count" ∷ "stats_reset_second" ∷ []

pub collect_into : List String
collect_into =
    "active" ∷ "received_lsn" ∷ "last_msg_send_time" ∷ "last_msg_receipt_time" ∷ "latest_end_lsn"
    ∷ "latest_end_time" ∷ "apply_error_count" ∷ "sync_error_count" ∷ "stats_reset_second" ∷ []

module _ (P : Prom) where
  emit_row : PgStatSubscription → List (Action P)
  emit_row stat =
      let labels = string stat.database ∷ string stat.sub_name ∷ [] in
      keep_if (valid stat.database && valid stat.sub_name) (
        in_order (
          emit_bool "active" stat.active labels
          ∷ emit_gauge "received_lsn" stat.received_lsn_bytes labels
          ∷ emit_time "last_msg_send_time" stat.last_msg_send_time labels
          ∷ emit_time "last_msg_receipt_time" stat.last_msg_receipt_time labels
          ∷ emit_gauge "latest_end_lsn" stat.latest_end_lsn_bytes labels
          ∷ emit_time "latest_end_time" stat.latest_end_time labels
          ∷ []))

  emit_stats_row : PgStatSubscriptionStats → List (Action P)
  emit_stats_row stat =
      let labels = string stat.database ∷ string stat.sub_name ∷ [] in
      keep_if (valid stat.database && valid stat.sub_name) (
        in_order (
          emit_counter "apply_error_count" stat.apply_error_count labels
          ∷ emit_counter "sync_error_count" stat.sync_error_count labels
          ∷ emit_time "stats_reset_second" stat.stats_reset labels
          ∷ []))

  pub emit : List PgStatSubscription → List (Action P)
  unfolding emit_row
  emit = for_each emit_row

  pub emit_stats : List PgStatSubscriptionStats → List (Action P)
  unfolding emit_stats_row
  emit_stats = for_each emit_stats_row

  -- The rows of the first Select are emitted before the second is made.
  pub scrape :
      Fetched (List PgStatSubscription) × Fetched (List PgStatSubscriptionStats) → Outcome P
  scrape (failed e, second) = record { calls = []; error = some ("subscription stats: " <> e) }
  scrape (rows subs, failed e) = record {
    calls = emit subs;
    error = some ("subscription_stats: " <> e);
  }
  scrape (rows subs, rows stats) = record { calls = emit subs ++ emit_stats stats; error = none }

  module _ (n : Namespaces) where
    emit_row-IsDeclared :
        (stat : PgStatSubscription)
        → All (IsDeclared (declared (new_pg_stat_subscription_collector n))) (emit_row stat)
    unfolding emit_row new_pg_stat_subscription_collector all_fit emit_bool emit_gauge emit_time
    emit_row-IsDeclared stat = keep_if-IsDeclared P _ _ _ (in_order-IsDeclared P _ _ refl)

    emit_stats_row-IsDeclared :
        (stat : PgStatSubscriptionStats)
        → All (IsDeclared (declared (new_pg_stat_subscription_collector n))) (emit_stats_row stat)
    unfolding emit_stats_row new_pg_stat_subscription_collector all_fit emit_counter emit_time
    emit_stats_row-IsDeclared stat = keep_if-IsDeclared P _ _ _ (in_order-IsDeclared P _ _ refl)

    scrape-IsDeclared :
        (i : Fetched (List PgStatSubscription) × Fetched (List PgStatSubscriptionStats))
        → All (IsDeclared (declared (new_pg_stat_subscription_collector n))) (scrape i).calls
    unfolding scrape emit emit_stats
    scrape-IsDeclared (failed e, second) = tt
    scrape-IsDeclared (rows subs, failed e) =
        for_each-IsDeclared P _ emit_row emit_row-IsDeclared subs
    scrape-IsDeclared (rows subs, rows stats) =
        All-append (IsDeclared (declared (new_pg_stat_subscription_collector n))) _ _
          (for_each-IsDeclared P _ emit_row emit_row-IsDeclared subs)
          (for_each-IsDeclared P _ emit_stats_row emit_stats_row-IsDeclared stats)

    emit_row-IsLabelled :
        (stat : PgStatSubscription) → All (IsLabelled (string stat.database)) (emit_row stat)
    unfolding emit_row emit_bool emit_gauge emit_time
    emit_row-IsLabelled stat = keep_if-IsLabelled P _ _ _ (in_order-IsLabelled P _ _ refl)

    emit_stats_row-IsLabelled :
        (stat : PgStatSubscriptionStats)
        → All (IsLabelled (string stat.database)) (emit_stats_row stat)
    unfolding emit_stats_row emit_counter emit_time
    emit_stats_row-IsLabelled stat = keep_if-IsLabelled P _ _ _ (in_order-IsLabelled P _ _ refl)

    databases :
        Fetched (List PgStatSubscription) × Fetched (List PgStatSubscriptionStats) → List String
    databases (subs, stats) =
        of_rows (λ (stat : PgStatSubscription). string stat.database) subs
        ++ of_rows (λ (stat : PgStatSubscriptionStats). string stat.database) stats

    scrape-IsLabelled :
        (i : Fetched (List PgStatSubscription) × Fetched (List PgStatSubscriptionStats))
        (d : String)
        → AreAll d (databases i)
        → All (IsLabelled d) (scrape i).calls
    unfolding scrape emit emit_stats databases
    scrape-IsLabelled (failed e, second) d h = tt
    scrape-IsLabelled (rows subs, failed e) d h =
        let (k, l) = AreAll-split d (map (λ stat. string stat.database) subs) _ h in
        for_each-IsLabelled P emit_row (λ stat. string stat.database) emit_row-IsLabelled subs d k
    scrape-IsLabelled (rows subs, rows stats) d h =
        let (k, l) = AreAll-split d (map (λ stat. string stat.database) subs) _ h in
        All-append (IsLabelled d) _ _
          (for_each-IsLabelled P emit_row (λ stat. string stat.database) emit_row-IsLabelled subs d
            k)
          (for_each-IsLabelled P emit_stats_row (λ stat. string stat.database)
            emit_stats_row-IsLabelled stats d l)

    pub collector : Collector P
    unfolding describe collect_into new_pg_stat_subscription_collector names_all databases
    collector = record {
      scrape_prefix = "scraping: ";
      Input = Fetched (List PgStatSubscription) × Fetched (List PgStatSubscriptionStats);
      decls = new_pg_stat_subscription_collector n;
      describe = describe;
      collect_into = collect_into;
      scrape = scrape;
      scrape-IsDeclared = scrape-IsDeclared;
      databases = databases;
      scrape-IsLabelled = scrape-IsLabelled;
      describes_all = refl;
      collects_all = refl;
    }
