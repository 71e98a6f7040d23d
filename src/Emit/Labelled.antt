-- ===== src/Emit/Labelled.antt =====
-- The first label value of the calls of a collector, which is the name of the database of the row.
use pgxporter.Prelude.{
  String, ◌≡◌, ◌∙◌, true, false, none, some, Bool, List, [], ◌∷◌, ◌++◌, map, All, All-append,
}
use pgxporter.Prometheus.{Prom}
use pgxporter.Emit.{
  Kind, counter_kind, gauge_kind, Action, Step, step, call, for_each, in_order, keep_if,
}
use pgxporter.Emit.Shapes.{labels}

-- The first label value, empty if there is none.
abbrev pub first_label : List String → String
first_label [] = ""
first_label (l ∷ ls) = l

module _ {P : Prom} where
  abbrev pub IsLabelled : String → Action P → Type 0
  IsLabelled d a = first_label (labels a) ≡ d

  abbrev pub first_of : Step P → String
  first_of (step k f v ls) = first_label ls

abbrev pub AreAll : String → List String → Type 0
AreAll d = All (λ x. x ≡ d)

pub AreAll-split :
    (d : String) (xs ys : List String) → AreAll d (xs ++ ys) → AreAll d xs × AreAll d ys
AreAll-split d [] ys h = (tt, h)
AreAll-split d (x ∷ xs) ys h = let (k, l) = AreAll-split d xs ys h.1 in ((h.0, k), l)

module _ (P : Prom) where
  call-IsLabelled :
      (k : Kind) (f : String) (x : P.Num) (ls : List String) (d : String)
      → first_label ls ≡ d
      → IsLabelled d (call {P = P} k f x ls)
  call-IsLabelled counter_kind f x ls d h = h
  call-IsLabelled gauge_kind f x ls d h = h

  -- Steps with one first label value make calls with that one, whichever columns are NULL.
  pub in_order-IsLabelled :
      (steps : List (Step P)) (d : String)
      → map first_of steps ≡ map (λ s. d) steps
      → All (IsLabelled d) (in_order steps)
  unfolding in_order
  in_order-IsLabelled [] d h = tt
  in_order-IsLabelled (step k f none ls ∷ rest) d h = in_order-IsLabelled rest d (cc h)
  in_order-IsLabelled (step k f (some x) ls ∷ rest) d h =
      (call-IsLabelled k f x ls d (cc h), in_order-IsLabelled rest d (cc h))

  pub keep_if-IsLabelled :
      (b : Bool) (calls : List (Action P)) (d : String)
      → All (IsLabelled d) calls
      → All (IsLabelled d) (keep_if b calls)
  unfolding keep_if
  keep_if-IsLabelled true calls d h = h
  keep_if-IsLabelled false calls d h = tt

  relabelled :
      (calls : List (Action P)) (x d : String)
      → x ≡ d
      → All (IsLabelled x) calls
      → All (IsLabelled d) calls
  relabelled [] x d e h = tt
  relabelled (a ∷ calls) x d e h = (h.0 ∙ e, relabelled calls x d e h.1)

  pub for_each-IsLabelled :
      {Row : Type 0} (row : Row → List (Action P)) (database : Row → String)
      → ((r : Row) → All (IsLabelled (database r)) (row r))
      → (rs : List Row) (d : String) → AreAll d (map database rs)
      → All (IsLabelled d) (for_each row rs)
  unfolding for_each
  for_each-IsLabelled row database h [] d k = tt
  for_each-IsLabelled row database h (r ∷ rs) d k =
      All-append (IsLabelled d) (row r) (for_each row rs)
        (relabelled (row r) (database r) d k.0 (h r)) (for_each-IsLabelled row database h rs d k.1)
