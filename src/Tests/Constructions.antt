-- ===== src/Tests/Constructions.antt =====
-- An exporter of one server, and one that has no connection to its second server.
use pgxporter.Prelude.{
  ◌<>◌, ◌≡◌, refl, true, false, none, some, List, [], ◌∷◌, map, str_eq, if◌then◌else◌,
}
use pgxporter.Prelude.Int.{pos}
use pgxporter.Prometheus.Model.{prom_ℤ}
use pgxporter.Collectors.{Collector, rows}
use pgxporter.Collectors.Names.{Namespaces, initial}
use pgxporter.Registry.{CollectorEntry}
use pgxporter.Registry.Resolution.{chosen}
use pgxporter.Registry.Table.{collector_registry}
use pgxporter.Db.{NewResult, client, error, new_client}
use pgxporter.Db.{Opts as DbOpts}
use pgxporter.Exporter.Construction.{
  Opts, Exporter, made, refused, prefixed, new_exporter, entries, own_namespace, new_exporter-made,
  new_exporter-refused,
}

abbrev registry : Namespaces → List (CollectorEntry (Collector prom_ℤ))
registry n = collector_registry prom_ℤ n

abbrev good : DbOpts
good = record {
  default_isolation_level = "SERIALIZABLE";
  read_only = true;
  max_connection_retries = pos 0;
}

abbrev bad : DbOpts
bad = record { default_isolation_level = ""; read_only = false; max_connection_retries = pos 0 }

abbrev connect : DbOpts → NewResult
connect o =
    if str_eq o.default_isolation_level ""
    then error "refused"
    else client (new_client o (rows (pos 160004)))

abbrev opts : List DbOpts → Opts
opts os = record {
  db_opts = os;
  name = "main";
  collection_timeout = pos 0;
  metric_prefix = "pg";
  enabled_collectors = [];
  disabled_collectors = "io" ∷ [];
}

new_exporter-made_example :
    (e : Exporter (Collector prom_ℤ)) × ((new_exporter registry connect initial "pg_stat"
        (opts (good ∷ []))).result
      ≡ made e)
    × (e.db_clients ≡ map some (new_client good (rows (pos 160004)) ∷ []))
    × (e.collectors
        ≡ chosen [] ("io" ∷ []) (entries registry connect initial "pg_stat" (opts (good ∷ []))))
new_exporter-made_example =
    new_exporter-made registry connect initial "pg_stat" (opts (good ∷ [])) good []
      (new_client good (rows (pos 160004)) ∷ []) refl refl

new_exporter-refused_example :
    new_exporter registry connect initial "pg_stat" (opts (good ∷ bad ∷ [])) ≡ record {
      namespaces = prefixed "pg" initial;
      namespace = own_namespace registry connect initial "pg_stat" (opts (good ∷ bad ∷ []));
      result = refused ("creating exporter: " <> "refused");
      warning = none;
    }
new_exporter-refused_example =
    new_exporter-refused registry connect initial "pg_stat" (opts (good ∷ bad ∷ [])) (good ∷ []) []
      (new_client good (rows (pos 160004)) ∷ []) bad "refused" refl refl refl
