-- ===== src/Emit/Shapes.antt =====
-- What the calls of an emit method mean: the vecs that they are for and the values that they leave.
use pgxporter.Prelude.{
  String, ◌≡◌, Bool, false, ◌&&◌, Option, none, some, List, [], ◌∷◌, All, length, same, str_eq,
  if◌then◌else◌,
}
use pgxporter.Prometheus.{Prom, PromLaws}
use pgxporter.Vec.{lookup}
use pgxporter.Vec.Keys.{IsNulFree}
use pgxporter.Vec.Tracking.{labels_of, IsTracking}
use pgxporter.Emit.{
  Kind, counter_kind, gauge_kind, Field, counter, gauge, Fields, Action, observes, sets, target,
}

abbrev pub Shape : Type 0
Shape = String → Option (Kind × List String)

module _ {P : Prom} where
  abbrev pub shape_of : Option (Field P) → Option (Kind × List String)
  shape_of none = none
  shape_of (some (counter c)) = some (counter_kind, labels_of c)
  shape_of (some (gauge g)) = some (gauge_kind, (P.gauge_desc g).labels)

  -- What Collect yields of a vec for given label values.
  abbrev pub exported_of : Option (Field P) → List String → Option P.Num
  exported_of none ls = none
  exported_of (some (counter c)) ls = P.counter_value c.vec ls
  exported_of (some (gauge g)) ls = P.gauge_value g ls

  abbrev pub exported : Fields P → String → List String → Option P.Num
  exported fs f = exported_of (lookup f fs)

  abbrev pub labels : Action P → List String
  labels (observes f v ls) = ls
  labels (sets f v ls) = ls

  abbrev pub value : Action P → P.Num
  value (observes f v ls) = v
  value (sets f v ls) = v

  -- The call is for this vec and these label values.
  abbrev pub hits : Action P → String → List String → Bool
  hits a f ls = str_eq (target a) f && same (labels a) ls

  -- The last value that the calls write, over the one that was there.
  unfoldable pub written : List (Action P) → String → List String → Option P.Num → Option P.Num
  written [] f ls old = old
  written (a ∷ rest) f ls old = written rest f ls (if hits a f ls then some (value a) else old)

  -- The call is on a field of its kind, with as many label values as the vec has label names.
  abbrev pub IsDeclared : Shape → Action P → Type 0
  IsDeclared sh (observes f v ls) =
      (names : List String) × (sh f ≡ some (counter_kind, names)) × (length ls ≡ length names)
  IsDeclared sh (sets f v ls) =
      (names : List String) × (sh f ≡ some (gauge_kind, names)) × (length ls ≡ length names)

  abbrev pub HasShape : Shape → Fields P → Type 0
  HasShape sh fs = (f : String) → shape_of (lookup f fs) ≡ sh f

module _ {P : Prom} (L : PromLaws P) where
  -- What a counter is given: a value that is not negative and a float64 exactly, no NUL in a label.
  abbrev pub IsSound : Action P → Type 0
  IsSound (observes f v ls) = L.Exact v × (P.lt v P.zero ≡ false) × All IsNulFree ls
  IsSound (sets f v ls) = Unit {0}

  abbrev pub IsTracked : Option (Field P) → Type 0
  IsTracked (some (counter c)) = IsTracking L c
  IsTracked _ = Unit {0}

  abbrev pub AreTracked : Fields P → Type 0
  AreTracked fs = (f : String) → IsTracked (lookup f fs)
