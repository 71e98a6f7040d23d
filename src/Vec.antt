-- ===== src/Vec.antt =====
-- exporter/collectors/vec.go: absolute counters on top of a CounterVec, and the vec factories.
pub mod Keys
pub mod Tracking
pub mod Absolute
use pgxporter.Prelude.{
  String, ◌<>◌, Option, none, some, List, [], ◌∷◌, str_eq, if◌then◌else◌, ◌>>=◌,
}
use pgxporter.Prometheus.{Desc, Prom}

-- strings.Join(ls, sep)
pub join : String → List String → String
join sep [] = ""
join sep (s ∷ []) = s
join sep (s ∷ t ∷ r) = s <> (sep <> join sep (t ∷ r))

unfoldable pub key_of : List String → String
unfolding join
key_of ls = join "\0" ls

-- A Go map from strings.
module _ {ℓ} {V : Type ℓ} where
  unfoldable pub lookup : String → List (String × V) → Option V
  lookup k [] = none
  lookup k ((j, v) ∷ m) = if str_eq j k then some v else lookup k m

  unfoldable pub insert : String → V → List (String × V) → List (String × V)
  insert k v [] = (k, v) ∷ []
  insert k v ((j, w) ∷ m) = if str_eq j k then (k, v) ∷ m else (j, w) ∷ insert k v m

pub record CounterDelta (P : Prom) : Type 0 where
  pub vec : P.CounterVec
  pub last : List (String × P.Num)

module _ {P : Prom} where
  unfoldable pub new_counter_delta : P.CounterVec → CounterDelta P
  new_counter_delta vec = record { vec = vec; last = [] }

  -- What the switch of Observe adds to which vec.
  pub advance : CounterDelta P → P.Num → List String → Option P.Num → Option P.CounterVec
  advance c value ls none = P.counter_add c.vec ls value
  advance c value ls (some last) =
      if P.lt value last
      then P.counter_add (P.counter_delete c.vec ls) ls value
      else P.counter_add c.vec ls (P.sub value last)

  -- The mutex makes one call of Observe one step. `none` is a panic of the client library.
  pub observe : CounterDelta P → P.Num → List String → Option (CounterDelta P)
  unfolding advance
  observe c value ls = do
    vec ← advance c value ls (lookup (key_of ls) c.last)
    some (record { vec = vec; last = insert (key_of ls) value c.last })
