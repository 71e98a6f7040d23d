-- ===== src/Tests/Registries.antt =====
-- The registry of the program.
use pgxporter.Prelude.{◌≡◌, List, [], ◌∷◌, ◌++◌}
use pgxporter.Prometheus.Model.{prom_ℤ}
use pgxporter.Collectors.{Collector}
use pgxporter.Collectors.Names.{initial}
use pgxporter.Registry.{CollectorEntry, names, resolve_collectors, resolve_error}
use pgxporter.Registry.Resolution.{unknown_in, chosen, resolve_collectors_lem}
use pgxporter.Registry.Table.{collector_registry}

abbrev registry : List (CollectorEntry (Collector prom_ℤ))
registry = collector_registry prom_ℤ initial

resolve_collectors_example : resolve_collectors registry ("wal" ∷ "wall" ∷ []) ("io" ∷ []) ≡ (
  chosen ("wal" ∷ "wall" ∷ []) ("io" ∷ []) registry,
  resolve_error registry (unknown_in (names registry) (("wal" ∷ "wall" ∷ []) ++ ("io" ∷ []))),
)
resolve_collectors_example = resolve_collectors_lem registry ("wal" ∷ "wall" ∷ []) ("io" ∷ [])
