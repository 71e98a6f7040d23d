-- ===== src/Registry/Table.antt =====
-- exporter/collectors/registry.go: collectorRegistry, the collectors that exist.
use pgxporter.Prelude.{String, ◌≡◌, refl, Bool, true, false, not, ◌&&◌, List, [], ◌∷◌}
use pgxporter.Prometheus.{Prom}
use pgxporter.Registry.{CollectorEntry, available_collectors, names, contains, sort, insert_sorted}
use pgxporter.Collectors.{Collector}
use pgxporter.Collectors.Names.{Namespaces}
use pgxporter.Collectors.Activity
use pgxporter.Collectors.Archiver
use pgxporter.Collectors.Bgwriter
use pgxporter.Collectors.Checkpointer
use pgxporter.Collectors.Database
use pgxporter.Collectors.DatabaseSize
use pgxporter.Collectors.Io
use pgxporter.Collectors.IoUserIndexes
use pgxporter.Collectors.IoUserTables
use pgxporter.Collectors.Locks
use pgxporter.Collectors.ProgressAnalyze
use pgxporter.Collectors.ProgressBasebackup
use pgxporter.Collectors.ProgressCluster
use pgxporter.Collectors.ProgressCopy
use pgxporter.Collectors.ProgressCreateIndex
use pgxporter.Collectors.ProgressVacuum
use pgxporter.Collectors.Replication
use pgxporter.Collectors.ReplicationSlots
use pgxporter.Collectors.Settings
use pgxporter.Collectors.Slru
use pgxporter.Collectors.Ssl
use pgxporter.Collectors.Statements
use pgxporter.Collectors.Subscription
use pgxporter.Collectors.UserIndexes
use pgxporter.Collectors.UserTables
use pgxporter.Collectors.Wal
use pgxporter.Collectors.WalReceiver

entry : {P : Prom} → String → Bool → Collector P → CollectorEntry (Collector P)
entry name default c = record { name = name; default = default; new = c }

pub collector_registry : (P : Prom) → Namespaces → List (CollectorEntry (Collector P))
unfolding entry
collector_registry P n =
    entry "activity" true (Activity.collector P n)
    ∷ entry "archiver" true (Archiver.collector P n)
    ∷ entry "bgwriter" true (Bgwriter.collector P n)
    ∷ entry "checkpointer" true (Checkpointer.collector P n)
    ∷ entry "database" true (Database.collector P n)
    ∷ entry "database_size" true (DatabaseSize.collector P n)
    ∷ entry "io" true (Io.collector P n)
    ∷ entry "io_user_indexes" true (IoUserIndexes.collector P n)
    ∷ entry "io_user_tables" true (IoUserTables.collector P n)
    ∷ entry "locks" true (Locks.collector P n)
    ∷ entry "progress_analyze" true (ProgressAnalyze.collector P n)
    ∷ entry "progress_basebackup" true (ProgressBasebackup.collector P n)
    ∷ entry "progress_cluster" true (ProgressCluster.collector P n)
    ∷ entry "progress_copy" true (ProgressCopy.collector P n)
    ∷ entry "progress_create_index" true (ProgressCreateIndex.collector P n)
    ∷ entry "progress_vacuum" true (ProgressVacuum.collector P n)
    ∷ entry "replication" true (Replication.collector P n)
    ∷ entry "replication_slots" true (ReplicationSlots.collector P n)
    ∷ entry "settings" false (Settings.collector P n)
    ∷ entry "slru" true (Slru.collector P n)
    ∷ entry "ssl" true (Ssl.collector P n)
    ∷ entry "statements" false (Statements.collector P n)
    ∷ entry "subscription" false (Subscription.collector P n)
    ∷ entry "user_indexes" true (UserIndexes.collector P n)
    ∷ entry "user_tables" true (UserTables.collector P n)
    ∷ entry "wal" true (Wal.collector P n)
    ∷ entry "wal_receiver" true (WalReceiver.collector P n)
    ∷ []

abbrev pub unique : List String → Bool
unique [] = true
unique (m ∷ ms) = not (contains ms m) && unique ms

-- The table of collectors is in the order of the names, so that AvailableCollectors returns its
-- names as they stand, and no two entries have one name, whatever the namespaces.
pub available_collectors-names :
    (P : Prom) (n : Namespaces)
    → (available_collectors (collector_registry P n) ≡ names (collector_registry P n))
      × (unique (names (collector_registry P n)) ≡ true)
unfolding available_collectors names sort insert_sorted contains collector_registry entry
available_collectors-names P n = (refl, refl)
