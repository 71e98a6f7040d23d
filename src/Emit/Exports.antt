-- ===== src/Emit/Exports.antt =====
-- A run of an emit method against its abstract meaning: a sequence of writes.
use pgxporter.Prelude.{
  String, ◌≡◌, ◌≢◌, refl, ap, subst, ◌∙◌, inl, inr, Option, none, some, List, [], ◌∷◌, All, length,
  same, eq_iff, str_eq, if◌then◌else◌, Bool-cases, Option-cases, >>=-eq-some,
}
use pgxporter.Prometheus.{Prom, PromLaws, Desc}
use pgxporter.Vec.{CounterDelta, lookup, insert, observe}
use pgxporter.Vec.Keys.{lookup-insert}
use pgxporter.Vec.Tracking.{
  AreLabels, labels_of, IsTracking, observe-labels, observe-ne-none, observe-value,
  observe-IsTracking,
}
use pgxporter.Emit.{
  counter_kind, gauge_kind, Field, counter, gauge, Fields, Action, observes, sets, on_field, target,
  apply, run,
}
use pgxporter.Emit.Shapes.{
  Shape, shape_of, exported_of, exported, labels, value, hits, written, IsDeclared, HasShape,
  IsSound, IsTracked, AreTracked,
}

module _ {P : Prom} (L : PromLaws P) where
  on_field-total :
      (o : Option (Field P)) (a : Action P) (sh : Shape)
      → shape_of o ≡ sh (target a)
      → IsDeclared sh a
      → IsSound L a
      → on_field o a ≢ none
  unfolding on_field
  on_field-total none (observes f v ls) sh e d s h = cc (e, d.1)
  on_field-total none (sets f v ls) sh e d s h = cc (e, d.1)
  on_field-total (some (counter c)) (sets f v ls) sh e d s h = cc (e, d.1)
  on_field-total (some (gauge g)) (observes f v ls) sh e d s h = cc (e, d.1)
  on_field-total (some (counter c)) (observes f v ls) sh e d s h =
      let n : labels_of c ≡ d.0 = cc (e, d.1) in
      elim (Option-cases (observe c v ls)) [
        | inl x ↦ observe-ne-none L c v ls (rw n d.2) s.1 x
        | inr (c', x) ↦ cc (rw x at h)
      ]
  on_field-total (some (gauge g)) (sets f v ls) sh e d s h =
      let n : (P.gauge_desc g).labels ≡ d.0 = cc (e, d.1) in
      elim (Option-cases (P.gauge_set g ls v)) [
        | inl x ↦ L.gauge_set-total g ls v (rw n d.2) x
        | inr (g', x) ↦ cc (rw x at h)
      ]

  -- What one call does to its vec.
  record Done (o : Option (Field P)) (a : Action P) (x : Field P) : Type 0 where
    shape : shape_of (some x) ≡ shape_of o
    tracked : IsTracked L (some x)
    exports :
        (js : List String)
        → exported_of (some x) js
          ≡ (if same (labels a) js then some (value a) else exported_of o js)

  observe-Done :
      (c : CounterDelta P) (f : String) (v : P.Num) (ls names : List String) (d : CounterDelta P)
      → labels_of c ≡ names
      → length ls ≡ length names
      → IsSound L (observes f v ls)
      → IsTracking L c
      → observe c v ls ≡ some d
      → Done (some (counter c)) (observes f v ls) (counter d)
  observe-Done c f v ls names d n k s t h =
      let a : AreLabels (labels_of c) ls = record { arity = rw n k; nul_free = s.2 } in
      record {
        shape = ap (λ (m : List String). some (counter_kind, m)) (observe-labels L c v ls d h);
        tracked = observe-IsTracking L c v ls d t a s.0 h;
        exports = λ js. observe-value L c v ls d js t a s.0 h;
      }

  set-Done :
      (g : P.GaugeVec) (f : String) (v : P.Num) (ls : List String) (g' : P.GaugeVec)
      → P.gauge_set g ls v ≡ some g'
      → Done (some (gauge g)) (sets f v ls) (gauge g')
  set-Done g f v ls g' h = record {
    shape = ap (λ (m : Desc). some (gauge_kind, m.labels)) (L.gauge_desc-set g g' ls v h);
    tracked = tt;
    exports = λ js. L.gauge_value-set g g' ls js v h;
  }

  on_field-Done :
      (o : Option (Field P)) (a : Action P) (sh : Shape) (x : Field P)
      → shape_of o ≡ sh (target a)
      → IsDeclared sh a
      → IsSound L a
      → IsTracked L o
      → on_field o a ≡ some x
      → Done o a x
  unfolding on_field
  on_field-Done none (observes f v ls) sh x e d s t h = cc
  on_field-Done none (sets f v ls) sh x e d s t h = cc
  on_field-Done (some (counter c)) (sets f v ls) sh x e d s t h = cc
  on_field-Done (some (gauge g)) (observes f v ls) sh x e d s t h = cc
  on_field-Done (some (counter c)) (observes f v ls) sh x e d s t h =
      let (c', ec, ex) = >>=-eq-some (observe c v ls) _ h in
      subst (Done (some (counter c)) (observes f v ls)) (cc ex)
        (observe-Done c f v ls d.0 c' (cc (e, d.1)) d.2 s t ec)
  on_field-Done (some (gauge g)) (sets f v ls) sh x e d s t h =
      let (g', eg, ex) = >>=-eq-some (P.gauge_set g ls v) _ h in
      subst (Done (some (gauge g)) (sets f v ls)) (cc ex) (set-Done g f v ls g' eg)

  -- The same of the struct.
  record Applied (fs : Fields P) (a : Action P) (gs : Fields P) : Type 0 where
    shapes : (f : String) → shape_of (lookup f gs) ≡ shape_of (lookup f fs)
    tracked : AreTracked L gs
    exports :
        (f : String) (js : List String)
        → exported gs f js ≡ (if hits a f js then some (value a) else exported fs f js)

  insert-Applied :
      (fs : Fields P) (a : Action P) (x : Field P)
      → AreTracked L fs
      → Done (lookup (target a) fs) a x
      → Applied fs a (insert (target a) x fs)
  insert-Applied fs a x t d = record {
    shapes = λ f. elim (Bool-cases (str_eq (target a) f)) [
      | inl e ↦
          rw (lookup-insert (target a) f x fs, e)
            (d.shape ∙ ap (λ g. shape_of (lookup g fs)) ((eq_iff (target a) f).0 e))
      | inr e ↦ rw (lookup-insert (target a) f x fs, e)
    ];
    tracked = λ f. elim (Bool-cases (str_eq (target a) f)) [
      | inl e ↦ rw (lookup-insert (target a) f x fs, e) d.tracked
      | inr e ↦ rw (lookup-insert (target a) f x fs, e) (t f)
    ];
    exports = λ f js. elim (Bool-cases (str_eq (target a) f)) [
      | inl e ↦
          rw (lookup-insert (target a) f x fs, e)
            (subst
              (λ g.
                exported_of (some x) js
                ≡ (if same (labels a) js then some (value a) else exported fs g js))
              ((eq_iff (target a) f).0 e) (d.exports js))
      | inr e ↦ rw (lookup-insert (target a) f x fs, e)
    ];
  }

  module _ (sh : Shape) (fs : Fields P) (a : Action P) where
    apply-total : HasShape sh fs → IsDeclared sh a → IsSound L a → apply fs a ≢ none
    unfolding apply
    apply-total p d s h = elim (Option-cases (on_field (lookup (target a) fs) a)) [
      | inl e ↦ on_field-total (lookup (target a) fs) a sh (p (target a)) d s e
      | inr (x, e) ↦ cc (rw e at h)
    ]

    apply-Applied :
        (gs : Fields P)
        → HasShape sh fs
        → AreTracked L fs
        → IsDeclared sh a
        → IsSound L a
        → apply fs a ≡ some gs
        → Applied fs a gs
    unfolding apply
    apply-Applied gs p t d s h =
        let (x, ex, eg) = >>=-eq-some (on_field (lookup (target a) fs) a) _ h in
        subst (Applied fs a) (cc eg) (
          insert-Applied fs a x t
            (on_field-Done (lookup (target a) fs) a sh x (p (target a)) d s (t (target a)) ex))

  -- What a whole run leaves behind.
  pub record Ran (sh : Shape) (fs : Fields P) (calls : List (Action P)) (gs : Fields P)
      : Type 0 where
    pub shape : HasShape sh gs
    pub tracked : AreTracked L gs
    pub exports :
        (f : String) (ls : List String) → exported gs f ls ≡ written calls f ls (exported fs f ls)

  -- On vecs of the declared shape whose counters agree with their maps, any sequence of declared
  -- and sound Observe and Set calls runs without a panic, keeps shape and agreement, and implements
  -- the abstract sequence of writes: each series has the last value written to it, and what it had
  -- if there was none.
  pub run-exports :
      (sh : Shape) (fs : Fields P) (calls : List (Action P))
      → HasShape sh fs
      → AreTracked L fs
      → All (IsDeclared sh) calls
      → All (IsSound L) calls
      → (gs : Fields P) × (run fs calls ≡ some gs) × Ran sh fs calls gs
  unfolding run written
  run-exports sh fs [] p t d s =
      (fs, refl, record { shape = p; tracked = t; exports = λ f ls. refl })
  run-exports sh fs (a ∷ rest) p t d s = elim (Option-cases (apply fs a)) [
    | inl e ↦ absurd (apply-total sh fs a p d.0 s.0 e)
    | inr (fs', e) ↦
        let r = apply-Applied sh fs a fs' p t d.0 s.0 e in
        let (gs, eg, q) = run-exports sh fs' rest (λ f. r.shapes f ∙ p f) r.tracked d.1 s.1 in
        (
          gs,
          rw e eg,
          record {
            shape = q.shape;
            tracked = q.tracked;
            exports = λ f ls. q.exports f ls ∙ ap (written rest f ls) (r.exports f ls);
          },
        )
  ]
