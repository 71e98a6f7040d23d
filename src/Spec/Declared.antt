-- ===== src/Spec/Declared.antt =====
-- exporter/collectors/spec.go: a SpecCollector fills the interface of the collectors.
use pgxporter.Prelude.{
  ℕ, suc, ◌<◌, String, ◌<>◌, ◌≡◌, refl, sym, ap, ◌∙◌, true, Option, none, some, List, [], ◌∷◌, map,
  All, All-append, arith, length, str_eq, eq_iff, Bool-cases, inl, inr,
}
use pgxporter.Prelude.Int.{ℤ}
use pgxporter.Prometheus.{Prom}
use pgxporter.Emit.{Kind, counter_kind, gauge_kind, Decl}
use pgxporter.Emit.Shapes.{Shape, IsDeclared}
use pgxporter.Emit.Labelled.{AreAll, IsLabelled, first_label, first_of, in_order-IsLabelled}
use pgxporter.Emit.Declared.{declared, same_kind, all_fit, fits, fits_decl, in_order-IsDeclared}
use pgxporter.Collectors.{Fetched, rows, failed, Collector}
use pgxporter.Spec.{
  MetricSpec, CollectorSpec, Value, Rendering, SpecInput, slot, vec_kind, spec_decl, describe,
  collect_into, QueryRows,
}
use pgxporter.Spec.Rows.{
  metric_steps, row_labels, emit_row, emit_rows, check_columns, is_gated, emit_checked,
  scrape_query, scrape,
}
use pgxporter.Spec.Slots.{slot-ne, vecs, vecs-names_all}

length-map {ℓ κ} :
    {A : Type ℓ} {B : Type κ} (f : A → B) (xs : List A) → length (map f xs) ≡ length xs
length-map f [] = refl
length-map f (x ∷ xs) = ap suc (length-map f xs)

same_kind_refl : (k : Kind) → same_kind k k ≡ true
unfolding same_kind
same_kind_refl counter_kind = refl
same_kind_refl gauge_kind = refl

module _ {P : Prom} (names : List String) where
  -- The metrics from index `i` on have their vecs in the struct.
  abbrev AreIn : Shape → ℕ → List (MetricSpec P) → Type 0
  AreIn sh i [] = Unit {0}
  AreIn sh i (m ∷ ms) = (sh (slot i) ≡ some (vec_kind m, names)) × AreIn sh (suc i) ms

  AreIn-more :
      (d : Decl) (ds : List Decl) (i j : ℕ) (ms : List (MetricSpec P))
      → d.field ≡ slot i
      → i < j
      → AreIn (declared ds) j ms
      → AreIn (declared (d ∷ ds)) j ms
  AreIn-more d ds i j [] e h k = tt
  AreIn-more d ds i j (m ∷ ms) e h k = (
    elim (Bool-cases (str_eq d.field (slot j))) [
      | inl b ↦ absurd (slot-ne i j h (sym e ∙ (eq_iff d.field (slot j)).0 b))
      | inr b ↦ rw b k.0
    ],
    AreIn-more d ds i (suc j) ms e (ground arith) k.1,
  )

  metric_steps-all_fit :
      (sh : Shape) (columns : List String) (values : List (Value P)) (labels : List String) (i : ℕ)
      (ms : List (MetricSpec P))
      → length labels ≡ length names
      → AreIn sh i ms
      → all_fit sh (metric_steps columns values labels i ms) ≡ true
  unfolding metric_steps all_fit fits fits_decl
  metric_steps-all_fit sh columns values labels i [] n h = refl
  metric_steps-all_fit sh columns values labels i (m ∷ ms) n h =
      rw (h.0, same_kind_refl (vec_kind m), n)
        (ground (arith, metric_steps-all_fit sh columns values labels (suc i) ms n h.1))

module _ {P : Prom} (ns : String) (spec : CollectorSpec P) where
  abbrev label_names : List String
  label_names = "database" ∷ spec.labels

  vecs-AreIn :
      (i : ℕ) (ms : List (MetricSpec P)) → AreIn label_names (declared (vecs ns spec i ms)) i ms
  unfolding vecs spec_decl
  vecs-AreIn i [] = tt
  vecs-AreIn i (m ∷ ms) = (
    ground (arith, eq_iff (slot i) (slot i)),
    AreIn-more label_names (spec_decl ns spec i m) (vecs ns spec (suc i) ms) i (suc i) ms refl
        (ground arith) (vecs-AreIn (suc i) ms),
  )

  module _ (R : Rendering P) where
    abbrev shape : Shape
    shape = declared (vecs ns spec 0 spec.metrics)

    row_labels-length :
        (columns : List String) (values : List (Value P))
        → length (row_labels R spec columns values) ≡ length label_names
    unfolding row_labels
    row_labels-length columns values = ap suc (length-map _ spec.labels)

    emit_row-IsDeclared :
        (columns : List String) (values : List (Value P))
        → All (IsDeclared shape) (emit_row R spec columns values)
    unfolding emit_row
    emit_row-IsDeclared columns values = in_order-IsDeclared P shape _ (
        metric_steps-all_fit label_names shape columns values _ 0 spec.metrics
          (row_labels-length columns values) (vecs-AreIn 0 spec.metrics))

    emit_rows-IsDeclared :
        (columns : List String) (results : List (Fetched (List (Value P)))) (err : Option String)
        → All (IsDeclared shape) (emit_rows R spec columns results err).calls
    unfolding emit_rows
    emit_rows-IsDeclared columns [] err = tt
    emit_rows-IsDeclared columns (failed e ∷ rest) err = tt
    emit_rows-IsDeclared columns (rows values ∷ rest) err =
        All-append (IsDeclared shape) (emit_row R spec columns values) _
          (emit_row-IsDeclared columns values) (emit_rows-IsDeclared columns rest err)

    emit_checked-IsDeclared :
        (q : QueryRows P) (e : Option String)
        → All (IsDeclared shape) (emit_checked R spec q e).calls
    unfolding emit_checked
    emit_checked-IsDeclared q (some e) = tt
    emit_checked-IsDeclared q none = emit_rows-IsDeclared q.columns q.results q.err

    scrape_query-IsDeclared :
        (q : Fetched (QueryRows P)) → All (IsDeclared shape) (scrape_query R spec q).calls
    unfolding scrape_query
    scrape_query-IsDeclared (failed e) = tt
    scrape_query-IsDeclared (rows q) = emit_checked-IsDeclared q (check_columns R spec q.columns)

    scrape-IsDeclared : (i : SpecInput P) → All (IsDeclared shape) (scrape R spec i).calls
    unfolding scrape
    scrape-IsDeclared i = elim (Bool-cases (is_gated spec i.server_version_num)) [
      | inl e ↦ rw e tt
      | inr e ↦ rw e (scrape_query-IsDeclared i.query)
    ]

    metric_steps-labelled :
        (columns : List String) (values : List (Value P)) (ls : List String) (i : ℕ)
        (ms : List (MetricSpec P))
        → map first_of (metric_steps columns values ls i ms)
          ≡ map (λ s. first_label ls) (metric_steps columns values ls i ms)
    unfolding metric_steps
    metric_steps-labelled columns values ls i [] = refl
    metric_steps-labelled columns values ls i (m ∷ ms) =
        ap (λ r. first_label ls ∷ r) (metric_steps-labelled columns values ls (suc i) ms)

    -- The database of a row.
    database_of : List String → List (Value P) → String
    database_of columns values = first_label (row_labels R spec columns values)

    named : List String → List (Fetched (List (Value P))) → List String
    named columns [] = []
    named columns (failed e ∷ rest) = []
    named columns (rows values ∷ rest) = database_of columns values ∷ named columns rest

    emit_rows-IsLabelled :
        (columns : List String) (results : List (Fetched (List (Value P)))) (err : Option String)
        (d : String)
        → AreAll d (named columns results)
        → All (IsLabelled d) (emit_rows R spec columns results err).calls
    unfolding emit_rows emit_row named database_of
    emit_rows-IsLabelled columns [] err d h = tt
    emit_rows-IsLabelled columns (failed e ∷ rest) err d h = tt
    emit_rows-IsLabelled columns (rows values ∷ rest) err d h =
        let ls = row_labels R spec columns values in
        All-append (IsLabelled d) (emit_row R spec columns values) _
          (in_order-IsLabelled P _ d (
            metric_steps-labelled columns values ls 0 spec.metrics
            ∙ ap (λ x. map (λ s. x) (metric_steps columns values ls 0 spec.metrics)) h.0))
          (emit_rows-IsLabelled columns rest err d h.1)

    databases : SpecInput P → List String
    databases i = elim i.query [ failed e ↦ [] | rows q ↦ named q.columns q.results ]

    emit_checked-IsLabelled :
        (q : QueryRows P) (e : Option String) (d : String)
        → AreAll d (named q.columns q.results)
        → All (IsLabelled d) (emit_checked R spec q e).calls
    unfolding emit_checked
    emit_checked-IsLabelled q (some e) d h = tt
    emit_checked-IsLabelled q none d h = emit_rows-IsLabelled q.columns q.results q.err d h

    scrape_query-IsLabelled :
        (v : ℤ) (q : Fetched (QueryRows P)) (d : String)
        → AreAll d (databases (record { server_version_num = v; query = q }))
        → All (IsLabelled d) (scrape_query R spec q).calls
    unfolding scrape_query databases
    scrape_query-IsLabelled v (failed e) d h = tt
    scrape_query-IsLabelled v (rows q) d h =
        emit_checked-IsLabelled q (check_columns R spec q.columns) d h

    scrape-IsLabelled :
        (i : SpecInput P) (d : String)
        → AreAll d (databases i)
        → All (IsLabelled d) (scrape R spec i).calls
    unfolding scrape
    scrape-IsLabelled i d h = elim (Bool-cases (is_gated spec i.server_version_num)) [
      | inl e ↦ rw e tt
      | inr e ↦ rw e (scrape_query-IsLabelled i.server_version_num i.query d h)
    ]

    -- The SpecCollector that NewSpecCollector makes of a spec.
    pub spec_collector : Collector P
    unfolding describe collect_into
    spec_collector = record {
      Input = SpecInput P;
      scrape_prefix = "spec(" <> (spec.subsystem <> "): ");
      decls = vecs ns spec 0 spec.metrics;
      describe = describe spec;
      collect_into = collect_into spec;
      scrape = scrape R spec;
      scrape-IsDeclared = scrape-IsDeclared;
      databases = databases;
      scrape-IsLabelled = scrape-IsLabelled;
      describes_all = vecs-names_all ns spec 0 spec.metrics;
      collects_all = vecs-names_all ns spec 0 spec.metrics;
    }
