-- ===== src/Emit/Declared.antt =====
-- Which vecs a constructor makes, and that the closures of the emit methods call them as declared.
use pgxporter.Prelude.{
  ℕ, String, ◌≡◌, refl, ap, Bool, true, false, ◌&&◌, ◌==◌, Option, none, some, List, [], ◌∷◌, All,
  All-append, arith, length, str_eq, if◌then◌else◌, Bool-cases, inl, inr,
}
use pgxporter.Prometheus.{Prom, PromLaws, Desc}
use pgxporter.Vec.{lookup, new_counter_delta}
use pgxporter.Vec.Tracking.{new-IsTracking}
use pgxporter.Emit.{
  Kind, counter_kind, gauge_kind, Action, Decl, Step, step, new_field, construct, call, for_each,
  in_order, keep_if,
}
use pgxporter.Emit.Shapes.{
  Shape, shape_of, IsDeclared, HasShape, IsTracked, AreTracked, exported, exported_of,
}

-- The kind and the label names of a field.
abbrev pub declared : List Decl → Shape
declared [] f = none
declared (d ∷ ds) f = if str_eq d.field f then some (d.kind, d.desc.labels) else declared ds f

module _ {P : Prom} (L : PromLaws P) where
  new_field-shape : (k : Kind) (d : Desc) → shape_of (some (new_field P k d)) ≡ some (k, d.labels)
  unfolding new_field new_counter_delta
  new_field-shape counter_kind d =
      ap (λ (e : Desc). some (counter_kind, e.labels)) (L.counter_desc-new d)
  new_field-shape gauge_kind d = ap (λ (e : Desc). some (gauge_kind, e.labels)) (L.gauge_desc-new d)

  new_field-IsTracked : (k : Kind) (d : Desc) → IsTracked L (some (new_field P k d))
  unfolding new_field
  new_field-IsTracked counter_kind d = new-IsTracking L d
  new_field-IsTracked gauge_kind d = tt

  new_field-exported :
      (k : Kind) (d : Desc) (ls : List String) → exported_of (some (new_field P k d)) ls ≡ none
  unfolding new_field new_counter_delta
  new_field-exported counter_kind d ls = L.counter_value-new d ls
  new_field-exported gauge_kind d ls = L.gauge_value-new d ls

  pub construct-HasShape : (ds : List Decl) → HasShape (declared ds) (construct P ds)
  unfolding construct lookup
  construct-HasShape [] f = refl
  construct-HasShape (d ∷ ds) f = elim (Bool-cases (str_eq d.field f)) [
    | inl e ↦ rw e (new_field-shape d.kind d.desc)
    | inr e ↦ rw e (construct-HasShape ds f)
  ]

  pub construct-AreTracked : (ds : List Decl) → AreTracked L (construct P ds)
  unfolding construct lookup
  construct-AreTracked [] f = tt
  construct-AreTracked (d ∷ ds) f = elim (Bool-cases (str_eq d.field f)) [
    | inl e ↦ rw e (new_field-IsTracked d.kind d.desc)
    | inr e ↦ rw e (construct-AreTracked ds f)
  ]

  -- A new collector exports nothing.
  pub construct-exported :
      (ds : List Decl) (f : String) (ls : List String) → exported (construct P ds) f ls ≡ none
  unfolding construct lookup
  construct-exported [] f ls = refl
  construct-exported (d ∷ ds) f ls = elim (Bool-cases (str_eq d.field f)) [
    | inl e ↦ rw e (new_field-exported d.kind d.desc ls)
    | inr e ↦ rw e (construct-exported ds f ls)
  ]

unfoldable pub same_kind : Kind → Kind → Bool
same_kind counter_kind counter_kind = true
same_kind gauge_kind gauge_kind = true
same_kind _ _ = false

eq_of_same_kind : (k l : Kind) → same_kind k l ≡ true → k ≡ l
unfolding same_kind
eq_of_same_kind counter_kind counter_kind h = refl
eq_of_same_kind counter_kind gauge_kind h = cc
eq_of_same_kind gauge_kind counter_kind h = cc
eq_of_same_kind gauge_kind gauge_kind h = refl

unfoldable pub fits_decl : Option (Kind × List String) → Kind → ℕ → Bool
unfolding same_kind
fits_decl none k n = false
fits_decl (some (l, names)) k n = same_kind l k && n == length names

-- A test of a step that computes whatever the row: its field is declared, of the step's kind, and has as
-- many label names as the step has label values.
unfoldable pub fits : {P : Prom} → Shape → Step P → Bool
unfolding fits_decl
fits sh (step k f v ls) = fits_decl (sh f) k (length ls)

unfoldable pub all_fit : {P : Prom} → Shape → List (Step P) → Bool
unfolding fits
all_fit sh [] = true
all_fit sh (s ∷ rest) = fits sh s && all_fit sh rest

fits_decl-eq :
    (o : Option (Kind × List String)) (k : Kind) (n : ℕ)
    → fits_decl o k n ≡ true
    → (names : List String) × (o ≡ some (k, names)) × (n ≡ length names)
unfolding fits_decl
fits_decl-eq none k n h = cc
fits_decl-eq (some (l, names)) k n h =
    (names, rw (eq_of_same_kind l k (ground arith)), ground arith)

module _ (P : Prom) (sh : Shape) where
  call-IsDeclared :
      (k : Kind) (f : String) (x : P.Num) (ls : List String)
      → fits_decl (sh f) k (length ls) ≡ true
      → IsDeclared sh (call {P = P} k f x ls)
  call-IsDeclared counter_kind f x ls h = fits_decl-eq (sh f) counter_kind (length ls) h
  call-IsDeclared gauge_kind f x ls h = fits_decl-eq (sh f) gauge_kind (length ls) h

  -- Steps that pass the test make calls that are declared, whichever columns are NULL.
  pub in_order-IsDeclared :
      (steps : List (Step P)) → all_fit sh steps ≡ true → All (IsDeclared sh) (in_order steps)
  unfolding in_order all_fit
  in_order-IsDeclared [] h = tt
  in_order-IsDeclared (step k f none ls ∷ rest) h = in_order-IsDeclared rest (ground arith)
  in_order-IsDeclared (step k f (some x) ls ∷ rest) h =
      (call-IsDeclared k f x ls (ground arith), in_order-IsDeclared rest (ground arith))

  pub keep_if-IsDeclared :
      (b : Bool) (calls : List (Action P))
      → All (IsDeclared sh) calls
      → All (IsDeclared sh) (keep_if b calls)
  unfolding keep_if
  keep_if-IsDeclared true calls h = h
  keep_if-IsDeclared false calls h = tt

  pub for_each-IsDeclared {ℓ} :
      {Row : Type ℓ} (row : Row → List (Action P))
      → ((r : Row) → All (IsDeclared sh) (row r))
      → (rows : List Row) → All (IsDeclared sh) (for_each row rows)
  unfolding for_each
  for_each-IsDeclared row h [] = tt
  for_each-IsDeclared row h (r ∷ rs) =
      All-append (IsDeclared sh) (row r) (for_each row rs) (h r) (for_each-IsDeclared row h rs)
