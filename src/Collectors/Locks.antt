-- ===== src/Collectors/Locks.antt =====
-- exporter/collectors/pg_locks.go: PgLocksCollector, with its rows from exporter/db/model/model.go.
use pgxporter.Prelude.{String, ◌<>◌, refl, List, [], ◌∷◌, ◌++◌, map, All, All-append, none, some}
use pgxporter.Prometheus.{Prom}
use pgxporter.Emit.{
  Text, Int8, PgBool, Action, Decl, string, valid, format_bool, in_order, for_each, keep_if,
  emit_gauge,
}
use pgxporter.Emit.Shapes.{IsDeclared}
use pgxporter.Emit.Declared.{
  declared, in_order-IsDeclared, for_each-IsDeclared, keep_if-IsDeclared, all_fit,
}
use pgxporter.Emit.Labelled.{
  IsLabelled, AreAll, AreAll-split, in_order-IsLabelled, keep_if-IsLabelled, for_each-IsLabelled,
}
use pgxporter.Collectors.Names.{Namespaces, gauge_factory}
use pgxporter.Collectors.{Fetched, of_rows, rows, failed, Outcome, Collector, names_all}

pub record PgLock : Type 0 where
  pub database : Text
  pub dat_name : Text
  pub mode : Text
  pub lock_type : Text
  pub granted : PgBool
  pub count : Int8

pub record PgLocksBlockingSummary : Type 0 where
  pub database : Text
  pub blocked_backends : Int8
  pub blocker_edges : Int8

pub new_pg_locks_collector : Namespaces → List Decl
new_pg_locks_collector n =
    let lock_labels : List String = "database" ∷ "datname" ∷ "mode" ∷ "locktype" ∷ "granted" ∷ [] in
    let summary_labels : List String = "database" ∷ [] in
    let lock_gauge = gauge_factory n "locks" lock_labels in
    let summary_gauge = gauge_factory n "locks" summary_labels in
    lock_gauge "count" "count" "Number of locks in this (mode, locktype, granted) bucket"
    ∷ summary_gauge "blocked_backends" "blocked_backends"
        "Number of backends currently waiting on another backend"
    ∷ summary_gauge "blocker_edges" "blocker_edges"
        "Total (blocked, blocker) pairs across the cluster — sum of |pg_blocking_pids(pid)|"
    ∷ []

pub describe : List String
describe = "count" ∷ "blocked_backends" ∷ "blocker_edges" ∷ []

pub collect_into : List String
collect_into = "count" ∷ "blocked_backends" ∷ "blocker_edges" ∷ []

-- The label `granted`, empty for NULL.
granted_label : PgBool → String
granted_label none = ""
granted_label (some b) = format_bool b

module _ (P : Prom) where
  emit_lock : PgLock → List (Action P)
  emit_lock stat =
      let labels =
        string stat.database
        ∷ string stat.dat_name
        ∷ string stat.mode
        ∷ string stat.lock_type
        ∷ granted_label stat.granted
        ∷ [] in
      keep_if (valid stat.count) (in_order (emit_gauge "count" stat.count labels ∷ []))

  emit_summary : PgLocksBlockingSummary → List (Action P)
  emit_summary s =
      let labels = string s.database ∷ [] in
      in_order (
        emit_gauge "blocked_backends" s.blocked_backends labels
        ∷ emit_gauge "blocker_edges" s.blocker_edges labels
        ∷ [])

  pub emit : List PgLock → List PgLocksBlockingSummary → List (Action P)
  unfolding emit_lock emit_summary granted_label
  emit locks summary = for_each emit_lock locks ++ for_each emit_summary summary

  -- The second Select is made if the first has not failed.
  pub scrape : Fetched (List PgLock) × Fetched (List PgLocksBlockingSummary) → Outcome P
  scrape (failed e, second) = record { calls = []; error = some ("lock stats: " <> e) }
  scrape (rows locks, failed e) = record {
    calls = [];
    error = some ("lock blocking summary: " <> e);
  }
  scrape (rows locks, rows summary) = record { calls = emit locks summary; error = none }

  module _ (n : Namespaces) where
    emit_lock-IsDeclared :
        (stat : PgLock) → All (IsDeclared (declared (new_pg_locks_collector n))) (emit_lock stat)
    unfolding emit_lock new_pg_locks_collector all_fit emit_gauge
    emit_lock-IsDeclared stat = keep_if-IsDeclared P _ _ _ (in_order-IsDeclared P _ _ refl)

    emit_summary-IsDeclared :
        (s : PgLocksBlockingSummary)
        → All (IsDeclared (declared (new_pg_locks_collector n))) (emit_summary s)
    unfolding emit_summary new_pg_locks_collector all_fit emit_gauge
    emit_summary-IsDeclared s = in_order-IsDeclared P _ _ refl

    scrape-IsDeclared :
        (i : Fetched (List PgLock) × Fetched (List PgLocksBlockingSummary))
        → All (IsDeclared (declared (new_pg_locks_collector n))) (scrape i).calls
    unfolding scrape emit
    scrape-IsDeclared (failed e, second) = tt
    scrape-IsDeclared (rows locks, failed e) = tt
    scrape-IsDeclared (rows locks, rows summary) =
        All-append (IsDeclared (declared (new_pg_locks_collector n))) _ _
          (for_each-IsDeclared P _ emit_lock emit_lock-IsDeclared locks)
          (for_each-IsDeclared P _ emit_summary emit_summary-IsDeclared summary)

    emit_lock-IsLabelled :
        (stat : PgLock) → All (IsLabelled (string stat.database)) (emit_lock stat)
    unfolding emit_lock emit_gauge
    emit_lock-IsLabelled stat = keep_if-IsLabelled P _ _ _ (in_order-IsLabelled P _ _ refl)

    emit_summary-IsLabelled :
        (s : PgLocksBlockingSummary) → All (IsLabelled (string s.database)) (emit_summary s)
    unfolding emit_summary emit_gauge
    emit_summary-IsLabelled s = in_order-IsLabelled P _ _ refl

    databases : Fetched (List PgLock) × Fetched (List PgLocksBlockingSummary) → List String
    databases (locks, summary) =
        of_rows (λ (stat : PgLock). string stat.database) locks
        ++ of_rows (λ (s : PgLocksBlockingSummary). string s.database) summary

    scrape-IsLabelled :
        (i : Fetched (List PgLock) × Fetched (List PgLocksBlockingSummary)) (d : String)
        → AreAll d (databases i)
        → All (IsLabelled d) (scrape i).calls
    unfolding scrape emit databases
    scrape-IsLabelled (failed e, second) d h = tt
    scrape-IsLabelled (rows locks, failed e) d h = tt
    scrape-IsLabelled (rows locks, rows summary) d h =
        let (k, l) = AreAll-split d (map (λ stat. string stat.database) locks) _ h in
        All-append (IsLabelled d) _ _
          (for_each-IsLabelled P emit_lock (λ stat. string stat.database) emit_lock-IsLabelled locks
            d k)
          (for_each-IsLabelled P emit_summary (λ s. string s.database) emit_summary-IsLabelled
            summary d l)

    pub collector : Collector P
    unfolding describe collect_into new_pg_locks_collector names_all databases
    collector = record {
      scrape_prefix = "scraping: ";
      Input = Fetched (List PgLock) × Fetched (List PgLocksBlockingSummary);
      decls = new_pg_locks_collector n;
      describe = describe;
      collect_into = collect_into;
      scrape = scrape;
      scrape-IsDeclared = scrape-IsDeclared;
      databases = databases;
      scrape-IsLabelled = scrape-IsLabelled;
      describes_all = refl;
      collects_all = refl;
    }
