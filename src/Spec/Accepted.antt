-- ===== src/Spec/Accepted.antt =====
-- exporter/collectors/spec_yaml.go against spec.go: what toInternal accepts, NewSpecCollector takes.
use pgxporter.Prelude.{
  ℕ, suc, String, ◌≡◌, ◌≢◌, refl, ap, subst, ◌∙◌, inl, inr, false, ◌||◌, none, List, [], ◌∷◌, All,
  str_eq, if◌then◌else◌, Bool-cases, Option-cases, length,
}
use pgxporter.Prometheus.{Prom}
use pgxporter.Collectors.Names.{Namespaces}
use pgxporter.Spec.{MetricSpec, CollectorSpec, is_empty, spec_decls, new_spec_collector}
use pgxporter.Spec.Yaml.{
  YamlMetricSpec, YamlCollectorSpec, Checked, accepted, refused, ◌then◌, value_type,
  metric_to_internal, metrics_to_internal, to_internal, at_spec, parse_from, parse_specs,
}

then-accepted {ℓ κ} :
    {A : Type ℓ} {B : Type κ} (m : Checked A) (f : A → Checked B) {b : B}
    → (m then f) ≡ accepted b
    → (a : A) × (m ≡ accepted a) × (f a ≡ accepted b)
unfolding ◌then◌
then-accepted (accepted a) f h = (a, refl, h)
then-accepted (refused e) f h = cc h

at_spec-accepted {ℓ} :
    {A : Type ℓ} (i : ℕ) (sub : String) (m : Checked A) {a : A}
    → at_spec i sub m ≡ accepted a
    → m ≡ accepted a
unfolding at_spec
at_spec-accepted i sub (accepted a) h = h
at_spec-accepted i sub (refused e) h = cc h

module _ {P : Prom} where
  -- NewSpecCollector does not panic on the metric.
  abbrev IsNamed : MetricSpec P → Type 0
  IsNamed m = (str_eq m.name "" || str_eq m.column "") ≡ false

  spec_decls-total :
      (ns : String) (spec : CollectorSpec P) (i : ℕ) (ms : List (MetricSpec P))
      → All IsNamed ms
      → spec_decls ns spec i ms ≢ none
  unfolding spec_decls
  spec_decls-total ns spec i [] h = λ k. cc k
  spec_decls-total ns spec i (m ∷ ms) h = elim (Option-cases (spec_decls ns spec (suc i) ms)) [
    | inl e ↦ absurd (spec_decls-total ns spec (suc i) ms h.1 e)
    | inr (ds, e) ↦ rw (h.0, e) (λ k. cc k)
  ]

  module _ (quote : String → String) where
    metric_to_internal-IsNamed :
        (i : ℕ) (y : YamlMetricSpec P) (m : MetricSpec P)
        → metric_to_internal quote i y ≡ accepted m
        → IsNamed m
    unfolding metric_to_internal
    metric_to_internal-IsNamed i y m h =
        elim (Bool-cases (str_eq y.name "" || str_eq y.column "")) [
          | inl e ↦ cc (rw e at h)
          | inr e ↦ elim (Option-cases (value_type y.type)) [
            | inl f ↦ cc (rw (e, f) at h)
            | inr (t, f) ↦
                let names : y.name ≡ m.name = cc (rw (e, f) at h) in
                let columns : y.column ≡ m.column = cc (rw (e, f) at h) in
                rw⁻¹ names (rw⁻¹ columns e)
          ]
        ]

    metrics_to_internal-AllNamed :
        (i : ℕ) (ys : List (YamlMetricSpec P)) (ms : List (MetricSpec P))
        → metrics_to_internal quote i ys ≡ accepted ms
        → All IsNamed ms × (is_empty ms ≡ is_empty ys)
    unfolding metrics_to_internal is_empty
    metrics_to_internal-AllNamed i [] ms h = let all : ms ≡ [] = cc h in rw all (tt, refl)
    metrics_to_internal-AllNamed i (y ∷ ys) ms h =
        let (x, ex, hx) = then-accepted (metric_to_internal quote i y) _ h in
        let (xs, exs, hxs) = then-accepted (metrics_to_internal quote (suc i) ys) _ hx in
        let rest = metrics_to_internal-AllNamed (suc i) ys xs exs in
        let all : ms ≡ x ∷ xs = cc hxs in
        rw all ((metric_to_internal-IsNamed i y x ex, rest.0), refl)

    to_internal-new :
        (n : Namespaces) (y : YamlCollectorSpec P) (s : CollectorSpec P)
        → to_internal quote y ≡ accepted s
        → new_spec_collector n s ≢ none
    unfolding to_internal new_spec_collector
    to_internal-new n y s h = elim (Bool-cases (str_eq y.subsystem "")) [
      | inl a ↦ cc (rw a at h)
      | inr a ↦ elim (Bool-cases (str_eq y.sql "")) [
        | inl b ↦ cc (rw (a, b) at h)
        | inr b ↦ elim (Bool-cases (is_empty y.metrics)) [
          | inl c ↦ cc (rw (a, b, c) at h)
          | inr c ↦
              let (ms, ems, hs) =
                then-accepted (metrics_to_internal quote 0 y.metrics) _ (rw (a, b, c) at h) in
              let (named, empty) = metrics_to_internal-AllNamed 0 y.metrics ms ems in
              let subsystem_is : y.subsystem ≡ s.subsystem = cc hs in
              let sql_is : y.sql ≡ s.sql = cc hs in
              let metrics_is : ms ≡ s.metrics = cc hs in
              let sub : str_eq s.subsystem "" ≡ false = rw⁻¹ subsystem_is a in
              let sql : str_eq s.sql "" ≡ false = rw⁻¹ sql_is b in
              let some_metric : is_empty s.metrics ≡ false = rw⁻¹ metrics_is (empty ∙ c) in
              rw (sub, sql, some_metric)
                (spec_decls-total _ s 0 s.metrics (subst (All IsNamed) metrics_is named))
        ]
      ]
    ]

    -- If ParseSpecs accepts the decoded specs of a file, it returns as many as the file has, and
    -- NewSpecCollector panics on none of them, under any metric prefix.
    pub parse_specs-new :
        (n : Namespaces) (raw : List (YamlCollectorSpec P)) (specs : List (CollectorSpec P))
        → parse_specs quote raw ≡ accepted specs
        → All (λ s. new_spec_collector n s ≢ none) specs × (length specs ≡ length raw)
    unfolding parse_specs parse_from
    parse_specs-new n raw specs h = go 0 raw specs h
      where
        go :
            (i : ℕ) (raw : List (YamlCollectorSpec P)) (specs : List (CollectorSpec P))
            → parse_from quote i raw ≡ accepted specs
            → All (λ s. new_spec_collector n s ≢ none) specs × (length specs ≡ length raw)
        go i [] specs h = let all : specs ≡ [] = cc h in rw all (tt, refl)
        go i (y ∷ ys) specs h =
            let (s, es, hs) = then-accepted (at_spec i y.subsystem (to_internal quote y)) _ h in
            let (ss, ess, hss) = then-accepted (parse_from quote (suc i) ys) _ hs in
            let rest = go (suc i) ys ss ess in
            let all : specs ≡ s ∷ ss = cc hss in
            rw all (
              (
                to_internal-new n y s (at_spec-accepted i y.subsystem (to_internal quote y) es),
                rest.0,
              ),
              ap suc rest.1,
            )
