-- ===== src/Emit/Schedule.antt =====
-- The goroutines of an errgroup: their calls on the vecs in an order that the scheduler chooses.
use pgxporter.Prelude.{
  String, ◌≡◌, refl, sym, ap, ◌∙◌, ◌⊎◌, inl, inr, false, Option, some, List, [], ◌∷◌, ◌++◌, All,
  All-left, All-right, if◌then◌else◌,
}
use pgxporter.Prometheus.{Prom}
use pgxporter.Emit.{Action}
use pgxporter.Emit.Shapes.{hits, written, value}

-- The third list has the members of the first two, each list's in its order.
pub data Interleave {A : Type 0} : List A → List A → List A → Type 0 where
  done : Interleave [] [] []
  left : {xs ys zs : List A} (x : A) → Interleave xs ys zs → Interleave (x ∷ xs) ys (x ∷ zs)
  right : {xs ys zs : List A} (y : A) → Interleave xs ys zs → Interleave xs (y ∷ ys) (y ∷ zs)

-- The same of any number of lists.
pub data Schedule {A : Type 0} : List (List A) → List A → Type 0 where
  idle : Schedule [] []
  also :
      {ts : List (List A)} {t zs out : List A}
      → Schedule ts zs
      → Interleave t zs out
      → Schedule (t ∷ ts) out

unfoldable pub flatten : {A : Type 0} → List (List A) → List A
flatten [] = []
flatten (t ∷ ts) = t ++ flatten ts

module _ {A : Type 0} (Q : A → Type 0) where
  Interleave-All : {xs ys zs : List A} → Interleave xs ys zs → All Q xs → All Q ys → All Q zs
  Interleave-All done h k = tt
  Interleave-All (left x i) h k = (h.0, Interleave-All i h.1 k)
  Interleave-All (right y i) h k = (k.0, Interleave-All i h k.1)

  -- What holds of every call of every goroutine holds of every call of the run.
  pub Schedule-All :
      {ts : List (List A)} {out : List A} → Schedule ts out → All (All Q) ts → All Q out
  Schedule-All idle h = tt
  Schedule-All (also s i) h = Interleave-All i h.0 (Schedule-All s h.1)

  All-flatten :
      (ts : List (List A)) {out : List A} → Schedule ts out → All Q (flatten ts) → All Q out
  unfolding flatten
  All-flatten [] idle h = tt
  All-flatten (t ∷ ts) (also s i) h =
      Interleave-All i (All-left Q t (flatten ts) h)
        (All-flatten ts s (All-right Q t (flatten ts) h))

module _ {P : Prom} where
  -- No call is for this vec and these label values.
  abbrev pub Misses : List (Action P) → String → List String → Type 0
  Misses calls f ls = All (λ (a : Action P). hits a f ls ≡ false) calls

  -- No two calls of different goroutines are for the same vec and label values.
  abbrev pub AreDisjoint : List (List (Action P)) → Type 0
  AreDisjoint [] = Unit {0}
  AreDisjoint (t ∷ ts) =
      ((f : String) (ls : List String) → Misses t f ls ⊎ Misses (flatten ts) f ls) × AreDisjoint ts

  module _ (f : String) (ls : List String) where
    written-append :
        (xs ys : List (Action P)) (old : Option P.Num)
        → written (xs ++ ys) f ls old ≡ written ys f ls (written xs f ls old)
    unfolding written
    written-append [] ys old = refl
    written-append (x ∷ xs) ys old =
        written-append xs ys (if hits x f ls then some (value x) else old)

    written-Misses :
        (xs : List (Action P)) (old : Option P.Num) → Misses xs f ls → written xs f ls old ≡ old
    unfolding written
    written-Misses [] old h = refl
    written-Misses (x ∷ xs) old h = rw h.0 (written-Misses xs old h.1)

    written-left :
        {xs ys zs : List (Action P)}
        → Interleave xs ys zs
        → (old : Option P.Num) → Misses xs f ls
        → written zs f ls old ≡ written ys f ls old
    unfolding written
    written-left done old h = refl
    written-left (left x i) old h = rw h.0 (written-left i old h.1)
    written-left (right y i) old h = written-left i (if hits y f ls then some (value y) else old) h

    written-right :
        {xs ys zs : List (Action P)}
        → Interleave xs ys zs
        → (old : Option P.Num) → Misses ys f ls
        → written zs f ls old ≡ written xs f ls old
    unfolding written
    written-right done old h = refl
    written-right (right y i) old h = rw h.0 (written-right i old h.1)
    written-right (left x i) old h = written-right i (if hits x f ls then some (value x) else old) h

    -- Whatever the scheduler does with goroutines that write to different series, the last value
    -- of a series is the one of the goroutines run one after the other.
    pub written-Schedule :
        (ts : List (List (Action P))) {out : List (Action P)} (old : Option P.Num)
        → Schedule ts out
        → AreDisjoint ts
        → written out f ls old ≡ written (flatten ts) f ls old
    unfolding flatten
    written-Schedule [] old idle d = refl
    written-Schedule (t ∷ ts) old (also {zs = zs} s i) d = elim (d.0 f ls) [
      | inl m ↦
          written-left i old m
          ∙ written-Schedule ts old s d.1
          ∙ sym (
              written-append t (flatten ts) old
              ∙ ap (written (flatten ts) f ls) (written-Misses t old m))
      | inr m ↦
          written-right i old (All-flatten (λ a. hits a f ls ≡ false) ts s m)
          ∙ sym (
              written-append t (flatten ts) old
              ∙ written-Misses (flatten ts) (written t f ls old) m)
    ]
