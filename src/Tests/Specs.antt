-- ===== src/Tests/Specs.antt =====
-- A spec, its YAML form, and results of its query.
use pgxporter.Prelude.{String, ◌<>◌, ◌≡◌, ◌≢◌, refl, ◌⊎◌, false, none, [], ◌∷◌, arith}
use pgxporter.Prelude.Int.{pos}
use pgxporter.Prelude.Decimal.{show_ℤ}
use pgxporter.Prometheus.Model.{prom_ℤ}
use pgxporter.Collectors.{rows}
use pgxporter.Spec.{MetricSpec, CollectorSpec, text, int, Rendering, QueryRows, counter_value}
use pgxporter.Spec.Rows.{scrape}
use pgxporter.Spec.Columns.{HasColumns}
use pgxporter.Spec.Emission.{IsTooOld, EmitsRows, scrape-outcome}

abbrev pub quote : String → String
quote s = "\"" <> (s <> "\"")

abbrev rendering : Rendering prom_ℤ
rendering = record { sprint_float = show_ℤ; time_string = show_ℤ; quote = quote }

abbrev events : MetricSpec prom_ℤ
events = record {
  name = "events_total";
  help = "Events by rate key";
  type = counter_value;
  column = "c";
  scale = pos 0;
  timestamp_as_unix = false;
}

abbrev pub rates : CollectorSpec prom_ℤ
rates = record {
  subsystem = "custom_rates";
  namespace = "";
  sql = "SELECT current_database() AS database, key, count(*) AS c FROM e GROUP BY key";
  min_pg_version = (pos 13, pos 0);
  labels = "key" ∷ [];
  metrics = events ∷ [];
}

abbrev results : QueryRows prom_ℤ
results = record {
  columns = "database" ∷ "key" ∷ "c" ∷ [];
  results = rows (text "app" ∷ text "k" ∷ int (pos 3) ∷ []) ∷ [];
  err = none;
}

scrape-outcome_example :
    let o =
      scrape rendering rates (record { server_version_num = pos 160004; query = rows results }) in
    (IsTooOld 13 0 16 4 × (o ≡ record { calls = []; error = none }))
    ⊎ (((IsTooOld 13 0 16 4 → ⊥)
          × (HasColumns rates results.columns → ⊥)
          × (o.calls ≡ [])
          × (o.error ≢ none))
        ⊎ ((IsTooOld 13 0 16 4 → ⊥)
            × HasColumns rates results.columns
            × EmitsRows rendering rates results.columns results.err results.results o.calls
                o.error))
scrape-outcome_example =
    scrape-outcome rendering rates 13 0 16 4 refl (omega arith) (omega arith) (omega arith)
      (omega arith) results
