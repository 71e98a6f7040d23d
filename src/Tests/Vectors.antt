-- ===== src/Tests/Vectors.antt =====
-- Counters, keys and runs.
use pgxporter.Prelude.{
  String, ◌<>◌, ◌≡◌, refl, some, List, [], ◌∷◌, All, arith, same, if◌then◌else◌,
}
use pgxporter.Prelude.Int.{pos}
use pgxporter.Prometheus.{Desc}
use pgxporter.Prometheus.Model.{prom_ℤ, laws_ℤ}
use pgxporter.Vec.{CounterDelta, key_of, new_counter_delta, observe}
use pgxporter.Vec.Keys.{IsNulFree, is_nul_free, is_nul_free-IsNulFree, key_of_injective}
use pgxporter.Vec.Tracking.{AreLabels, labels_of, IsTracking, new-IsTracking}
use pgxporter.Vec.Absolute.{observe-absolute}
use pgxporter.Emit.{Action, observes, Fields, run}
use pgxporter.Emit.Exports.{Ran, run-exports}
use pgxporter.Emit.Shapes.{IsSound, IsDeclared}
use pgxporter.Emit.Declared.{declared, construct-HasShape, construct-AreTracked}
use pgxporter.Collectors.Archiver
use pgxporter.Tests.Fixtures.{archiver, fresh}

abbrev commits : Desc
commits = record {
  namespace = "pg_stat";
  subsystem = "database";
  name = "xact_commit_total";
  help = "";
  labels = "database" ∷ [];
}

abbrev vec : CounterDelta prom_ℤ
vec = new_counter_delta (prom_ℤ.new_counter_vec commits)

app-IsNulFree : All IsNulFree ("app" ∷ [])
unfolding is_nul_free
app-IsNulFree = (is_nul_free-IsNulFree "app" refl, tt)

shop-IsNulFree : All IsNulFree ("shop" ∷ [])
unfolding is_nul_free
shop-IsNulFree = (is_nul_free-IsNulFree "shop" refl, tt)

app-AreLabels : AreLabels (labels_of vec) ("app" ∷ [])
unfolding new_counter_delta
app-AreLabels = record { arity = refl; nul_free = app-IsNulFree }

observe-absolute_example :
    (d : CounterDelta prom_ℤ) × (observe vec (pos 7) ("app" ∷ []) ≡ some d)
    × IsTracking laws_ℤ d
    × ((js : List String)
        → prom_ℤ.counter_value d.vec js
          ≡ (if same ("app" ∷ []) js then some (pos 7) else prom_ℤ.counter_value vec.vec js))
observe-absolute_example =
    observe-absolute laws_ℤ vec (pos 7) ("app" ∷ []) (new-IsTracking laws_ℤ commits) app-AreLabels
      (laws_ℤ.of_ℤ-Exact 7 (ground arith)) (laws_ℤ.of_ℤ-nonneg 7)

abbrev app : List String
app = "app" ∷ []

key_of_injective_example : app ≡ app
key_of_injective_example = key_of_injective app app refl app-IsNulFree app-IsNulFree refl

-- With a NUL in a value, two lists have one key.
shared_key : key_of ("a" ∷ ("b" <> ("\0" <> "c")) ∷ []) ≡ key_of (("a" <> ("\0" <> "b")) ∷ "c" ∷ [])
unfolding key_of
shared_key = refl

abbrev two_calls : List (Action prom_ℤ)
two_calls =
    observes "archived_count" (pos 9) ("app" ∷ [])
    ∷ observes "archived_count" (pos 7) ("app" ∷ [])
    ∷ []

two_calls-AreDeclared : All (IsDeclared (declared archiver.decls)) two_calls
unfolding Archiver.collector Archiver.new_pg_stat_archiver_collector
two_calls-AreDeclared = (("database" ∷ [], refl, refl), (("database" ∷ [], refl, refl), tt))

two_calls-AreSound : All (IsSound laws_ℤ) two_calls
two_calls-AreSound = (
  (laws_ℤ.of_ℤ-Exact 9 (ground arith), refl, app-IsNulFree),
  ((laws_ℤ.of_ℤ-Exact 7 (ground arith), refl, app-IsNulFree), tt),
)

run-exports_example :
    (gs : Fields prom_ℤ) × (run fresh two_calls ≡ some gs)
    × Ran laws_ℤ (declared archiver.decls) fresh two_calls gs
run-exports_example =
    run-exports laws_ℤ (declared archiver.decls) fresh two_calls
      (construct-HasShape laws_ℤ archiver.decls) (construct-AreTracked laws_ℤ archiver.decls)
      two_calls-AreDeclared two_calls-AreSound
