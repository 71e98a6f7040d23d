-- ===== src/Vec/Tracking.antt =====
-- What Observe keeps true of a counterDelta: its map and the exported counters agree.
use pgxporter.Prelude.{
  String, ◌≡◌, ◌≢◌, refl, sym, ap, subst, ◌∙◌, ◌⊎◌, inl, inr, true, false, Option, none, some, List,
  All, arith, length, same, same_refl, eq_of_same, eq_iff, str_eq, if◌then◌else◌, Bool-cases,
  Option-cases, >>=-eq-some,
}
use pgxporter.Prometheus.{Prom, PromLaws, Desc}
use pgxporter.Vec.{CounterDelta, key_of, lookup, insert, advance, observe, new_counter_delta}
use pgxporter.Vec.Keys.{IsNulFree, lookup-insert, key_of_injective}

abbrev pub labels_of : {P : Prom} → CounterDelta P → List String
labels_of {P} c = (P.counter_desc c.vec).labels

-- Label values that WithLabelValues accepts: as many as there are names, and none with a NUL.
pub record AreLabels (names ls : List String) : Type 0 where
  pub arity : length ls ≡ length names
  pub nul_free : All IsNulFree ls

module _ {P : Prom} (L : PromLaws P) where
  pub record IsTracking (c : CounterDelta P) : Type 0 where
    pub agrees :
        (ls : List String)
        → AreLabels (labels_of c) ls
        → P.counter_value c.vec ls ≡ lookup (key_of ls) c.last
    pub exact : (k : String) (x : P.Num) → lookup k c.last ≡ some x → L.Exact x

  pub new-IsTracking : (d : Desc) → IsTracking (new_counter_delta (P.new_counter_vec d))
  unfolding new_counter_delta lookup
  new-IsTracking d = record { agrees = λ ls _. L.counter_value-new d ls; exact = λ k x h. cc }

  module _ (c : CounterDelta P) (value : P.Num) (ls : List String) where
    first-value :
        (w : P.CounterVec) (js : List String)
        → L.Exact value
        → P.counter_value c.vec ls ≡ none
        → P.counter_add c.vec ls value ≡ some w
        → P.counter_value w js ≡ (if same ls js then some value else P.counter_value c.vec js)
    first-value w js ev e h = rw (L.counter_value-add c.vec w ls js value h, e, L.zero-add value ev)

    reset-value :
        (w : P.CounterVec) (js : List String)
        → L.Exact value
        → P.counter_add (P.counter_delete c.vec ls) ls value ≡ some w
        → P.counter_value w js ≡ (if same ls js then some value else P.counter_value c.vec js)
    reset-value w js ev h =
        rw
          (
            L.counter_value-add (P.counter_delete c.vec ls) w ls js value h,
            L.counter_value-delete c.vec ls ls,
            L.counter_value-delete c.vec ls js,
            same_refl ls,
            L.zero-add value ev,
          )
          (ground arith)

    later-value :
        (last : P.Num) (w : P.CounterVec) (js : List String)
        → L.Exact last
        → L.Exact value
        → P.counter_value c.vec ls ≡ some last
        → P.counter_add c.vec ls (P.sub value last) ≡ some w
        → P.counter_value w js ≡ (if same ls js then some value else P.counter_value c.vec js)
    later-value last w js el ev e h =
        rw (L.counter_value-add c.vec w ls js (P.sub value last) h, e, L.add-sub last value el ev)

    advance-value :
        (o : Option P.Num) (w : P.CounterVec) (js : List String)
        → P.counter_value c.vec ls ≡ o
        → ((x : P.Num) → o ≡ some x → L.Exact x)
        → L.Exact value
        → advance c value ls o ≡ some w
        → P.counter_value w js ≡ (if same ls js then some value else P.counter_value c.vec js)
    unfolding advance
    advance-value none w js e eo ev h = first-value w js ev e h
    advance-value (some last) w js e eo ev h = elim (Bool-cases (P.lt value last)) [
      | inl less ↦ reset-value w js ev (rw less at h)
      | inr more ↦ later-value last w js (eo last refl) ev e (rw more at h)
    ]

    advance-desc :
        (o : Option P.Num) (w : P.CounterVec)
        → advance c value ls o ≡ some w
        → P.counter_desc w ≡ P.counter_desc c.vec
    unfolding advance
    advance-desc none w h = L.counter_desc-add c.vec w ls value h
    advance-desc (some last) w h = elim (Bool-cases (P.lt value last)) [
      | inl less ↦
          L.counter_desc-add (P.counter_delete c.vec ls) w ls value (rw less at h)
          ∙ L.counter_desc-delete c.vec ls
      | inr more ↦ L.counter_desc-add c.vec w ls (P.sub value last) (rw more at h)
    ]

    advance-total :
        (o : Option P.Num)
        → length ls ≡ length (labels_of c)
        → P.lt value P.zero ≡ false
        → advance c value ls o ≢ none
    unfolding advance
    advance-total none a n h = L.counter_add-total c.vec ls value a n h
    advance-total (some last) a n h = elim (Bool-cases (P.lt value last)) [
      | inl less ↦
          L.counter_add-total (P.counter_delete c.vec ls) ls value
            (a ∙ ap (λ (d : Desc). length d.labels) (sym (L.counter_desc-delete c.vec ls))) n
            (rw less at h)
      | inr more ↦
          L.counter_add-total c.vec ls (P.sub value last) a (L.sub-nonneg last value more)
            (rw more at h)
    ]

    pub observe-labels :
        (d : CounterDelta P) → observe c value ls ≡ some d → labels_of d ≡ labels_of c
    unfolding observe
    observe-labels d h =
        let (w, eo, ew) = >>=-eq-some (advance c value ls (lookup (key_of ls) c.last)) _ h in
        let e : d.vec ≡ w = cc ew in rw e (ap (λ (x : Desc). x.labels) (advance-desc _ w eo))

    -- With the right number of label values and a value that is not negative, Observe does not panic.
    pub observe-ne-none :
        length ls ≡ length (labels_of c) → P.lt value P.zero ≡ false → observe c value ls ≢ none
    unfolding observe
    observe-ne-none a n h = elim (Option-cases (advance c value ls (lookup (key_of ls) c.last))) [
      | inl e ↦ advance-total (lookup (key_of ls) c.last) a n e
      | inr (w, e) ↦ cc (rw e at h)
    ]

    -- Whatever Observe does inside (a first Add, an Add of the difference, or a delete and a fresh Add
    -- after a reset), the counter exported under its label values is then the absolute value, and
    -- every other counter of the vec is what it was.
    pub observe-value :
        (d : CounterDelta P) (js : List String)
        → IsTracking c
        → AreLabels (labels_of c) ls
        → L.Exact value
        → observe c value ls ≡ some d
        → P.counter_value d.vec js ≡ (if same ls js then some value else P.counter_value c.vec js)
    unfolding observe
    observe-value d js t a ev h =
        let (w, eo, ew) = >>=-eq-some (advance c value ls (lookup (key_of ls) c.last)) _ h in
        let e : d.vec ≡ w = cc ew in
        rw e (
          advance-value (lookup (key_of ls) c.last) w js (t.agrees ls a) (t.exact (key_of ls)) ev
            eo)

    observe-last :
        (d : CounterDelta P)
        → observe c value ls ≡ some d
        → d.last ≡ insert (key_of ls) value c.last
    unfolding observe
    observe-last d h =
        let (w, eo, ew) = >>=-eq-some (advance c value ls (lookup (key_of ls) c.last)) _ h in cc ew

    -- Keys are equal exactly when the label values are.
    same-key :
        (js : List String)
        → AreLabels (labels_of c) ls
        → AreLabels (labels_of c) js
        → same ls js ≡ str_eq (key_of ls) (key_of js)
    same-key js a b = elim (Bool-cases (same ls js)) [
      | inl e ↦ rw (e, eq_of_same ls js e) (sym ((eq_iff (key_of js) (key_of js)).1 refl))
      | inr e ↦ elim (Bool-cases (str_eq (key_of ls) (key_of js))) [
        | inl k ↦
            let q =
              key_of_injective ls js (a.arity ∙ sym b.arity) a.nul_free b.nul_free
                ((eq_iff (key_of ls) (key_of js)).0 k) in
            cc (same_refl ls, ap (same ls) q)
        | inr k ↦ rw (e, k)
      ]
    ]

    observe-exact :
        (k : String) (x : P.Num)
        → (str_eq (key_of ls) k ≡ true) ⊎ (str_eq (key_of ls) k ≡ false)
        → IsTracking c
        → L.Exact value
        → (if str_eq (key_of ls) k then some value else lookup k c.last) ≡ some x
        → L.Exact x
    observe-exact k x (inl e) t ev h = subst L.Exact (cc (rw e at h)) ev
    observe-exact k x (inr e) t ev h = t.exact k x (rw e at h)

    -- Observe keeps the map and the exported counters in agreement.
    pub observe-IsTracking :
        (d : CounterDelta P)
        → IsTracking c
        → AreLabels (labels_of c) ls
        → L.Exact value
        → observe c value ls ≡ some d
        → IsTracking d
    observe-IsTracking d t a ev h = record {
      agrees = λ js b.
          let b' = subst (λ n. AreLabels n js) (observe-labels d h) b in
          rw (
            observe-value d js t a ev h,
            observe-last d h,
            lookup-insert (key_of ls) (key_of js) value c.last,
            same-key js a b',
            t.agrees js b',
          );
      exact = λ k x e. observe-exact k x (Bool-cases (str_eq (key_of ls) k)) t ev (
          sym (lookup-insert (key_of ls) k value c.last)
          ∙ ap (lookup k) (sym (observe-last d h))
          ∙ e);
    }
