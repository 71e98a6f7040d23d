-- ===== src/Spec/Rows.antt =====
-- exporter/collectors/spec.go: SpecCollector.scrape, emitRow and the coercions of a row's values.
use mathlib.Core.Option
use pgxporter.Prelude.{
  ℕ, zero, suc, String, ◌<>◌, Bool, not, ◌&&◌, Option, none, some, List, [], ◌∷◌, ◌++◌, map,
  if◌then◌else◌,
}
use pgxporter.Prelude.Int.{ℤ, pos, ltb_ℤ}
use pgxporter.Prelude.Decimal.{show_ℤ}
use pgxporter.Prometheus.{Prom}
use pgxporter.Registry.{contains}
use pgxporter.Emit.{Step, step, Action, in_order, unix}
use pgxporter.Db.{reaches}
use pgxporter.Collectors.{Fetched, rows, failed, Outcome}
use pgxporter.Spec.{
  MetricSpec, CollectorSpec, Value, null, int, float, text, bytes, time, other, QueryRows,
  SpecInput, Rendering, slot, vec_kind, col_idx, missing,
}

module _ {P : Prom} where
  unfoldable pub coerce_float : Value P → Bool → Option P.Num
  coerce_float (int i) ts = some (P.of_ℤ i)
  coerce_float (float x) ts = some x
  coerce_float (time t) ts = if ts then some (P.of_ℤ (unix t)) else none
  coerce_float _ ts = none

  -- values[i]; pgx returns a value for each column.
  unfoldable pub value_at : ℕ → List (Value P) → Value P
  value_at i [] = null
  value_at zero (v ∷ vs) = v
  value_at (suc i) (v ∷ vs) = value_at i vs

  unfoldable pub column : List String → List (Value P) → String → Value P
  unfolding col_idx value_at
  column columns values name = elim (col_idx name 0 columns) [
    | none ↦ null
    | some i ↦ value_at i values
  ]

  -- The value of a metric in a row, unless it is NULL or no number.
  unfoldable pub metric_value : MetricSpec P → Value P → Option P.Num
  unfolding coerce_float
  metric_value m raw =
      Option.map (λ x. if P.is_zero m.scale then x else P.mul x m.scale)
        (coerce_float raw m.timestamp_as_unix)

  unfoldable pub metric_steps :
      List String → List (Value P) → List String → ℕ → List (MetricSpec P) → List (Step P)
  unfolding metric_value column vec_kind slot
  metric_steps columns values labels i [] = []
  metric_steps columns values labels i (m ∷ ms) =
      step (vec_kind m) (slot i) (metric_value m (column columns values m.column)) labels
      ∷ metric_steps columns values labels (suc i) ms

  -- The version gate.
  unfoldable pub is_gated : CollectorSpec P → ℤ → Bool
  is_gated spec version =
      ltb_ℤ (pos 0) spec.min_pg_version.0
      && not (reaches version spec.min_pg_version.0 spec.min_pg_version.1)

module _ {P : Prom} (R : Rendering P) where
  unfoldable pub coerce_string : Value P → String
  coerce_string null = ""
  coerce_string (text s) = s
  coerce_string (bytes s) = s
  coerce_string (int i) = show_ℤ i
  coerce_string (float x) = R.sprint_float x
  coerce_string (time t) = R.time_string t
  coerce_string (other s) = s

  -- "spec(…): "
  abbrev spec_prefix : CollectorSpec P → String
  spec_prefix spec = "spec(" <> (spec.subsystem <> "): ")

  -- The three checks of the columns, in their order.
  unfoldable pub check_columns : CollectorSpec P → List String → Option String
  unfolding missing
  check_columns spec columns =
      if not (contains columns "database")
      then some (spec_prefix spec <> "SELECT must return a 'database' column")
      else elim (missing columns spec.labels) [
        | some l ↦
            some (spec_prefix spec <> ("label column " <> (R.quote l <> " missing from SELECT")))
        | none ↦ elim (missing columns (map (λ m. m.column) spec.metrics)) [
          | some c ↦
              some (spec_prefix spec <> ("metric column " <> (R.quote c <> " missing from SELECT")))
          | none ↦ none
        ]
      ]

  unfoldable pub row_labels : CollectorSpec P → List String → List (Value P) → List String
  unfolding coerce_string column
  row_labels spec columns values =
      coerce_string (column columns values "database")
      ∷ map (λ l. coerce_string (column columns values l)) spec.labels

  unfoldable pub emit_row : CollectorSpec P → List String → List (Value P) → List (Action P)
  unfolding row_labels metric_steps
  emit_row spec columns values =
      in_order (metric_steps columns values (row_labels spec columns values) 0 spec.metrics)

  -- The loop over the rows: the calls made before Values fails stay.
  unfoldable pub emit_rows :
      CollectorSpec P → List String → List (Fetched (List (Value P))) → Option String → Outcome P
  unfolding emit_row
  emit_rows spec columns [] err = record { calls = []; error = err }
  emit_rows spec columns (failed e ∷ rest) err = record {
    calls = [];
    error = some ("row values: " <> e);
  }
  emit_rows spec columns (rows values ∷ rest) err =
      let after = emit_rows spec columns rest err in
      record { calls = emit_row spec columns values ++ after.calls; error = after.error }

  -- The columns are checked before any row is read.
  unfoldable pub emit_checked : CollectorSpec P → QueryRows P → Option String → Outcome P
  unfolding emit_rows
  emit_checked spec q (some e) = record { calls = []; error = some e }
  emit_checked spec q none = emit_rows spec q.columns q.results q.err

  unfoldable pub scrape_query : CollectorSpec P → Fetched (QueryRows P) → Outcome P
  unfolding check_columns emit_checked
  scrape_query spec (failed e) = record { calls = []; error = some ("query: " <> e) }
  scrape_query spec (rows q) = emit_checked spec q (check_columns spec q.columns)

  unfoldable pub scrape : CollectorSpec P → SpecInput P → Outcome P
  unfolding is_gated scrape_query
  scrape spec i =
      if is_gated spec i.server_version_num
      then record { calls = []; error = none }
      else scrape_query spec i.query
