-- ===== src/Vec/Absolute.antt =====
-- exporter/collectors/vec.go: what a call of counterDelta.Observe does.
use pgxporter.Prelude.{String, ◌≡◌, false, some, List, same, if◌then◌else◌, Option-cases, inl, inr}
use pgxporter.Prometheus.{Prom, PromLaws}
use pgxporter.Vec.{CounterDelta, observe}
use pgxporter.Vec.Tracking.{
  AreLabels, labels_of, IsTracking, observe-ne-none, observe-value, observe-IsTracking,
}

module _ {P : Prom} (L : PromLaws P) where
  -- For a counterDelta whose map agrees with its vec, Observe of an exact value that is not
  -- negative, under label values of the right number and without NUL, does not panic, sets the
  -- exported counter to exactly that value, also after a reset, leaves every other counter alone,
  -- and keeps the agreement.
  pub observe-absolute :
      (c : CounterDelta P) (value : P.Num) (ls : List String)
      → IsTracking L c
      → AreLabels (labels_of c) ls
      → L.Exact value
      → P.lt value P.zero ≡ false
      → (d : CounterDelta P) × (observe c value ls ≡ some d)
        × IsTracking L d
        × ((js : List String)
            → P.counter_value d.vec js
              ≡ (if same ls js then some value else P.counter_value c.vec js))
  observe-absolute c value ls t a ev n = elim (Option-cases (observe c value ls)) [
    | inl e ↦ absurd (observe-ne-none L c value ls a.arity n e)
    | inr (d, e) ↦ (
      d,
      e,
      observe-IsTracking L c value ls d t a ev e,
      λ js. observe-value L c value ls d js t a ev e,
    )
  ]
