-- ===== src/Spec/Columns.antt =====
-- exporter/collectors/spec.go: the checks of the columns in SpecCollector.scrape.
use pgxporter.Prelude.{
  String, ◌≡◌, ◌≢◌, refl, ◌⊎◌, inl, inr, true, none, List, [], ◌∷◌, map, All, arith, Bool-cases,
  Option-cases,
}
use pgxporter.Prometheus.{Prom}
use pgxporter.Registry.{contains}
use pgxporter.Collectors.{rows}
use pgxporter.Spec.{MetricSpec, CollectorSpec, QueryRows, Rendering, missing}
use pgxporter.Spec.Rows.{check_columns, emit_checked, emit_rows, scrape_query}

abbrev pub AreColumns : List String → List String → Type 0
AreColumns columns ns = All (λ n. contains columns n ≡ true) ns

missing-none : (columns ns : List String) → missing columns ns ≡ none → AreColumns columns ns
unfolding missing
missing-none columns [] h = tt
missing-none columns (n ∷ ns) h = elim (Bool-cases (contains columns n)) [
  | inl e ↦ (e, missing-none columns ns (rw e at h))
  | inr e ↦ cc (rw e at h)
]

none-missing : (columns ns : List String) → AreColumns columns ns → missing columns ns ≡ none
unfolding missing
none-missing columns [] h = refl
none-missing columns (n ∷ ns) h = rw h.0 (none-missing columns ns h.1)

module _ {P : Prom} (spec : CollectorSpec P) where
  -- Every column that the spec reads is there.
  pub record HasColumns (columns : List String) : Type 0 where
    pub database : contains columns "database" ≡ true
    pub labels : AreColumns columns spec.labels
    pub metrics : AreColumns columns (map (λ (m : MetricSpec P). m.column) spec.metrics)

module _ {P : Prom} (R : Rendering P) (spec : CollectorSpec P) where
  check_columns-HasColumns :
      (columns : List String)
      → (HasColumns spec columns × (check_columns R spec columns ≡ none))
        ⊎ ((HasColumns spec columns → ⊥) × (check_columns R spec columns ≢ none))
  unfolding check_columns
  check_columns-HasColumns columns = elim (Bool-cases (contains columns "database")) [
    | inr d ↦ inr ((λ h. ground (arith, h.database, d)), rw d (λ k. cc k))
    | inl d ↦ elim (Option-cases (missing columns spec.labels)) [
      | inr (l, e) ↦
          inr ((λ h. cc (e, none-missing columns spec.labels h.labels)), rw (d, e) (λ k. cc k))
      | inl e ↦
          elim (Option-cases
            (missing columns (map (λ (m : MetricSpec P). m.column) spec.metrics))) [
              | inr (c, f) ↦
                  inr ((λ h. cc (f, none-missing columns _ h.metrics)), rw (d, e, f) (λ k. cc k))
              | inl f ↦ inl (
                record {
                  database = d;
                  labels = missing-none columns spec.labels e;
                  metrics = missing-none columns _ f;
                },
                rw (d, e, f) refl,
              )
            ]
    ]
  ]

  -- The query's rows lack a column, and nothing is emitted, or have them all, and are.
  pub scrape_query_lem :
      (q : QueryRows P)
      → let o = scrape_query R spec (rows q) in
        ((HasColumns spec q.columns → ⊥) × (o.calls ≡ []) × (o.error ≢ none))
        ⊎ (HasColumns spec q.columns × (o ≡ emit_rows R spec q.columns q.results q.err))
  unfolding scrape_query emit_checked
  scrape_query_lem q = elim (check_columns-HasColumns q.columns) [
    | inl (h, e) ↦ inr (h, rw e refl)
    | inr (h, n) ↦ elim (Option-cases (check_columns R spec q.columns)) [
      | inl e ↦ absurd (n e)
      | inr (x, e) ↦ inl (h, rw e refl, rw e (λ k. cc k))
    ]
  ]
