-- ===== src/Spec/Emission.antt =====
-- exporter/collectors/spec.go: which calls SpecCollector.scrape makes, and which error it returns.
use pgxporter.Prelude.{
  ℕ, suc, ◌+◌, ◌*◌, ◌<◌, String, ◌<>◌, ◌≡◌, ◌≢◌, refl, ◌⊎◌, inl, inr, true, false, Option, none,
  some, List, [], ◌∷◌, ◌++◌, arith, ltb, Bool-cases, Option-cases,
}
use pgxporter.Prelude.Int.{pos}
use pgxporter.Prometheus.{Prom}
use pgxporter.Emit.{Kind, counter_kind, gauge_kind, Action, observes, sets, in_order}
use pgxporter.Collectors.{Fetched, rows, failed}
use pgxporter.Db.Version.{reaches-order}
use pgxporter.Db.{reaches}
use pgxporter.Spec.{MetricSpec, CollectorSpec, Value, QueryRows, Rendering, slot, vec_kind}
use pgxporter.Spec.Rows.{
  column, metric_value, metric_steps, row_labels, emit_row, emit_rows, is_gated, scrape,
}
use pgxporter.Spec.Columns.{HasColumns, scrape_query_lem}

-- The server `sm`.`sn` is older than the version that the spec asks for, if it asks for one.
abbrev pub IsTooOld : ℕ → ℕ → ℕ → ℕ → Type 0
IsTooOld major minor sm sn = (0 < major) × ((sm < major) ⊎ ((sm ≡ major) × (sn < minor)))

Kind-cases : (k : Kind) → (k ≡ counter_kind) ⊎ (k ≡ gauge_kind)
Kind-cases counter_kind = inl refl
Kind-cases gauge_kind = inr refl

module _ {P : Prom} where
  -- The calls for the metrics in a row: one for each that has a number, on the vec of its position.
  pub data EmitsMetrics (columns : List String) (values : List (Value P)) (labels : List String)
      : ℕ → List (MetricSpec P) → List (Action P) → Type 0 where
    no_metric : {i : ℕ} → EmitsMetrics columns values labels i [] []
    no_value :
        {i : ℕ} {m : MetricSpec P} {ms : List (MetricSpec P)} {calls : List (Action P)}
        → metric_value m (column columns values m.column) ≡ none
        → EmitsMetrics columns values labels (suc i) ms calls
        → EmitsMetrics columns values labels i (m ∷ ms) calls
    observed :
        {i : ℕ} {m : MetricSpec P} {ms : List (MetricSpec P)} {calls : List (Action P)} {x : P.Num}
        → metric_value m (column columns values m.column) ≡ some x
        → vec_kind m ≡ counter_kind
        → EmitsMetrics columns values labels (suc i) ms calls
        → EmitsMetrics columns values labels i (m ∷ ms) (observes (slot i) x labels ∷ calls)
    set :
        {i : ℕ} {m : MetricSpec P} {ms : List (MetricSpec P)} {calls : List (Action P)} {x : P.Num}
        → metric_value m (column columns values m.column) ≡ some x
        → vec_kind m ≡ gauge_kind
        → EmitsMetrics columns values labels (suc i) ms calls
        → EmitsMetrics columns values labels i (m ∷ ms) (sets (slot i) x labels ∷ calls)

  metric_steps-EmitsMetrics :
      (columns : List String) (values : List (Value P)) (labels : List String) (i : ℕ)
      (ms : List (MetricSpec P))
      → EmitsMetrics columns values labels i ms (in_order (metric_steps columns values labels i ms))
  unfolding metric_steps in_order
  metric_steps-EmitsMetrics columns values labels i [] = no_metric
  metric_steps-EmitsMetrics columns values labels i (m ∷ ms) =
      let later = metric_steps-EmitsMetrics columns values labels (suc i) ms in
      elim (Option-cases (metric_value m (column columns values m.column))) [
        | inl e ↦ rw e (no_value e later)
        | inr (x, e) ↦ elim (Kind-cases (vec_kind m)) [
          | inl k ↦ rw (e, k) (observed e k later)
          | inr k ↦ rw (e, k) (set e k later)
        ]
      ]

module _ {P : Prom} (R : Rendering P) (spec : CollectorSpec P) where
  -- The calls for the rows before the first that cannot be read, and the error.
  pub data EmitsRows (columns : List String) (err : Option String)
      : List (Fetched (List (Value P))) → List (Action P) → Option String → Type 0 where
    no_row : EmitsRows columns err [] [] err
    unread :
        {e : String} {rest : List (Fetched (List (Value P)))}
        → EmitsRows columns err (failed e ∷ rest) [] (some ("row values: " <> e))
    read :
        {values : List (Value P)} {rest : List (Fetched (List (Value P)))}
        {calls later : List (Action P)} {error : Option String}
        → EmitsMetrics columns values (row_labels R spec columns values) 0 spec.metrics calls
        → EmitsRows columns err rest later error
        → EmitsRows columns err (rows values ∷ rest) (calls ++ later) error

  emit_rows-EmitsRows :
      (columns : List String) (err : Option String) (results : List (Fetched (List (Value P))))
      → let o = emit_rows R spec columns results err in
        EmitsRows columns err results o.calls o.error
  unfolding emit_rows emit_row
  emit_rows-EmitsRows columns err [] = no_row
  emit_rows-EmitsRows columns err (failed e ∷ rest) = unread
  emit_rows-EmitsRows columns err (rows values ∷ rest) =
      read
        (metric_steps-EmitsMetrics columns values (row_labels R spec columns values) 0 spec.metrics)
        (emit_rows-EmitsRows columns err rest)

  -- A spec that asks for `major`.`minor`, and a server of version `sm`.`sn`.
  module _ (major minor sm sn : ℕ) (asked : spec.min_pg_version ≡ (pos major, pos minor))
      (sm-pos : 0 < sm) (sn-small : sn < 10000) (minor-small : minor < 10000)
      (major-small : major < 900000000000000) where
    is_gated-IsTooOld :
        ((is_gated spec (pos (sm * 10000 + sn)) ≡ true) × IsTooOld major minor sm sn)
        ⊎ ((is_gated spec (pos (sm * 10000 + sn)) ≡ false) × (IsTooOld major minor sm sn → ⊥))
    unfolding is_gated
    is_gated-IsTooOld =
        let r = reaches-order sm sn major minor sm-pos sn-small minor-small major-small in
        rw asked (elim (Bool-cases (reaches (pos (sm * 10000 + sn)) (pos major) (pos minor))) [
          | inl e ↦ let l = r.0 e in inr (rw e (ground arith), λ t. ground arith)
          | inr e ↦ elim (Bool-cases (ltb 0 major)) [
            | inl p ↦ inl (rw e (ground (arith, p)), ground arith)
            | inr p ↦ inr (rw e (ground (arith, p)), λ t. ground arith)
          ]
        ])

    -- SpecCollector.scrape of a server that is older than the version that the spec asks for makes
    -- no calls and returns no error. For any other, rows that lack the database column, a label
    -- column or a metric column give an error and no call; with all columns, each row before the
    -- first that cannot be read gives, in order, one call for each metric that has a number, on the
    -- vec of the metric and with the labels of the row, and the error is that of this row, or that
    -- of the rows. The spec asks for no version or one with a major below 9 * 10 ^ 14; the server's
    -- major is positive, and both minors are below 10000.
    pub scrape-outcome :
        (q : QueryRows P)
        → let o =
            scrape R spec (record { server_version_num = pos (sm * 10000 + sn); query = rows q }) in
          (IsTooOld major minor sm sn × (o ≡ record { calls = []; error = none }))
          ⊎ (((IsTooOld major minor sm sn → ⊥)
                × (HasColumns spec q.columns → ⊥)
                × (o.calls ≡ [])
                × (o.error ≢ none))
              ⊎ ((IsTooOld major minor sm sn → ⊥)
                  × HasColumns spec q.columns
                  × EmitsRows q.columns q.err q.results o.calls o.error))
    unfolding scrape
    scrape-outcome q = elim is_gated-IsTooOld [
      | inl (g, t) ↦ inl (t, rw g refl)
      | inr (g, t) ↦ elim (scrape_query_lem R spec q) [
        | inl (h, c, e) ↦ inr (inl (t, h, rw g c, rw g e))
        | inr (h, e) ↦ inr (inr (t, h, rw (g, e) (emit_rows-EmitsRows q.columns q.err q.results)))
      ]
    ]
