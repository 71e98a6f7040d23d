-- ===== src/Spec/Slots.antt =====
-- exporter/collectors/spec.go: the vecs of a SpecCollector are told apart by their indices.
use text.Mathlib.TextLemmas.{cons-eq-cons}
use pgxporter.Prelude.{
  ℕ, zero, suc, ◌<◌, String, ◌≡◌, ◌≢◌, refl, sym, true, false, ◌||◌, some, List, [], ◌∷◌, ◌++◌,
  arith, str_eq, eq_iff, >>=-eq-some, Bool-cases, inl, inr,
}
use pgxporter.Prometheus.{Prom}
use pgxporter.Registry.{contains}
use pgxporter.Emit.{Kind, counter_kind, gauge_kind, Decl}
use pgxporter.Emit.Declared.{same_kind}
use pgxporter.Collectors.{take_out, names_all}
use pgxporter.Spec.{MetricSpec, CollectorSpec, slot, vec_kind, spec_decl, spec_decls, slots_of}

pub slot-ne : (i j : ℕ) → i < j → slot i ≢ slot j
unfolding slot
slot-ne zero zero h e = ground arith
slot-ne zero (suc j) h e = cc e
slot-ne (suc i) zero h e = ground arith
slot-ne (suc i) (suc j) h e = slot-ne i j (ground arith) (cons-eq-cons.0 e).1

take_out-skips :
    (f : String) (xs ys : List String)
    → contains xs f ≡ false
    → take_out f (xs ++ f ∷ ys) ≡ some (xs ++ ys)
unfolding take_out contains
take_out-skips f [] ys h = ground (arith, eq_iff f f)
take_out-skips f (x ∷ xs) ys h = elim (Bool-cases (str_eq x f)) [
  | inl e ↦ cc (rw e at h)
  | inr e ↦ rw (e, take_out-skips f xs ys (rw e at h)) refl
]

names_all-there :
    (d : Decl) (ds : List Decl) (ns r : List String)
    → take_out d.field ns ≡ some r
    → names_all ds r ≡ true
    → names_all (d ∷ ds) ns ≡ true
unfolding names_all
names_all-there d ds ns r e h = rw (names_all, e) h

take_out-head : (f : String) (ns : List String) → take_out f (f ∷ ns) ≡ some ns
unfolding take_out
take_out-head f ns = ground (arith, eq_iff f f)

module _ {P : Prom} where
  slots_of-fresh :
      (k : Kind) (i j : ℕ) (ms : List (MetricSpec P))
      → i < j
      → contains (slots_of k j ms) (slot i) ≡ false
  unfolding slots_of contains
  slots_of-fresh k i j [] h = refl
  slots_of-fresh k i j (m ∷ ms) h =
      let rest = slots_of-fresh k i (suc j) ms (ground arith) in
      let apart : str_eq (slot j) (slot i) ≡ false = (elim (Bool-cases (str_eq (slot j) (slot i))) [
        | inl e ↦ absurd (slot-ne i j h (sym ((eq_iff (slot j) (slot i)).0 e)))
        | inr e ↦ e
      ]) in
      elim (Bool-cases (same_kind k (vec_kind m))) [
        | inl e ↦ rw (e, apart) rest
        | inr e ↦ rw e rest
      ]

  -- The vecs of the metrics, without the tests for a panic.
  unfoldable pub vecs : String → CollectorSpec P → ℕ → List (MetricSpec P) → List Decl
  vecs ns spec i [] = []
  vecs ns spec i (m ∷ ms) = spec_decl ns spec i m ∷ vecs ns spec (suc i) ms

  pub spec_decls-vecs :
      (ns : String) (spec : CollectorSpec P) (i : ℕ) (ms : List (MetricSpec P)) (ds : List Decl)
      → spec_decls ns spec i ms ≡ some ds
      → ds ≡ vecs ns spec i ms
  unfolding spec_decls vecs
  spec_decls-vecs ns spec i [] ds h = cc h
  spec_decls-vecs ns spec i (m ∷ ms) ds h =
      elim (Bool-cases (str_eq m.name "" || str_eq m.column "")) [
        | inl e ↦ cc (rw e at h)
        | inr e ↦
            let (ds', eds, ed) = >>=-eq-some (spec_decls ns spec (suc i) ms) _ (rw e at h) in
            let rest = spec_decls-vecs ns spec (suc i) ms ds' eds in cc (ed, rest)
      ]

  -- Describe and collectInto of a SpecCollector name each vec that NewSpecCollector makes once,
  -- whichever metrics are counters and whichever are gauges.
  pub vecs-names_all :
      (ns : String) (spec : CollectorSpec P) (i : ℕ) (ms : List (MetricSpec P))
      → names_all (vecs ns spec i ms) (slots_of counter_kind i ms ++ slots_of gauge_kind i ms)
        ≡ true
  unfolding vecs slots_of names_all spec_decl same_kind
  vecs-names_all ns spec i [] = refl
  vecs-names_all ns spec i (m ∷ ms) =
      let rest = vecs-names_all ns spec (suc i) ms in go (vec_kind m) refl rest
    where
      go :
          (k : Kind)
          → vec_kind m ≡ k
          → names_all
              (vecs ns spec (suc i) ms)
              (slots_of counter_kind (suc i) ms ++ slots_of gauge_kind (suc i) ms)
            ≡ true
          → names_all
              (vecs ns spec i (m ∷ ms))
              (slots_of counter_kind i (m ∷ ms) ++ slots_of gauge_kind i (m ∷ ms))
            ≡ true
      go counter_kind e r = rw e (
          names_all-there (spec_decl ns spec i m) (vecs ns spec (suc i) ms)
            (slot i ∷ slots_of counter_kind (suc i) ms ++ slots_of gauge_kind (suc i) ms)
            (slots_of counter_kind (suc i) ms ++ slots_of gauge_kind (suc i) ms)
            (take_out-head (slot i)
              (slots_of counter_kind (suc i) ms ++ slots_of gauge_kind (suc i) ms))
            r)
      go gauge_kind e r = rw e (
          names_all-there (spec_decl ns spec i m) (vecs ns spec (suc i) ms)
            (slots_of counter_kind (suc i) ms ++ slot i ∷ slots_of gauge_kind (suc i) ms)
            (slots_of counter_kind (suc i) ms ++ slots_of gauge_kind (suc i) ms)
            (take_out-skips (slot i) (slots_of counter_kind (suc i) ms)
              (slots_of gauge_kind (suc i) ms)
              (slots_of-fresh counter_kind i (suc i) ms (ground arith)))
            r)
