-- ===== src/Prometheus.antt =====
-- github.com/prometheus/client_golang and float64, which the collectors call and the repository does
-- not contain: a parameter of the model. `Prom` holds the operations that the code uses, and
-- `PromLaws` the documented behaviour that it relies on.
pub mod Model
use pgxporter.Prelude.{
  ℕ, ◌≤◌, ◌^◌, String, ◌≡◌, ◌≢◌, Bool, true, false, Option, none, some, List, [], ◌∷◌, length, same,
  if◌then◌else◌,
}
use pgxporter.Prelude.Int.{ℤ, pos}

-- CounterOpts, GaugeOpts and the label names.
pub record Desc : Type 0 where
  pub namespace : String
  pub subsystem : String
  pub name : String
  pub help : String
  pub labels : List String

pub record Prom : Type 1 where
  -- float64
  pub Num : Type 0
  pub zero : Num
  pub thousand : Num
  pub of_ℤ : ℤ → Num
  pub add : Num → Num → Num
  pub sub : Num → Num → Num
  pub mul : Num → Num → Num
  pub div : Num → Num → Num
  pub lt : Num → Num → Bool
  pub is_zero : Num → Bool
  -- *prometheus.CounterVec
  pub CounterVec : Type 0
  pub new_counter_vec : Desc → CounterVec
  pub counter_desc : CounterVec → Desc
  -- WithLabelValues(ls...).Add(x); `none` is a panic
  pub counter_add : CounterVec → List String → Num → Option CounterVec
  -- DeleteLabelValues(ls...)
  pub counter_delete : CounterVec → List String → CounterVec
  -- the child that Collect yields under these label values
  pub counter_value : CounterVec → List String → Option Num
  -- *prometheus.GaugeVec
  pub GaugeVec : Type 0
  pub new_gauge_vec : Desc → GaugeVec
  pub gauge_desc : GaugeVec → Desc
  -- WithLabelValues(ls...).Set(x); `none` is a panic
  pub gauge_set : GaugeVec → List String → Num → Option GaugeVec
  pub gauge_value : GaugeVec → List String → Option Num

-- A child that does not exist starts at zero.
abbrev pub or_zero : (P : Prom) → Option P.Num → P.Num
or_zero P none = P.zero
or_zero P (some x) = x

pub record PromLaws (P : Prom) : Type 1 where
  -- Values on which float64 arithmetic is exact, such as the integers below 2 ^ 53.
  pub Exact : P.Num → Type 0
  pub zero-add : (x : P.Num) → Exact x → P.add P.zero x ≡ x
  pub add-sub : (x y : P.Num) → Exact x → Exact y → P.add x (P.sub y x) ≡ y
  -- an integer up to 2 ^ 53 is a float64
  pub of_ℤ-Exact : (n : ℕ) → n ≤ 2 ^ 53 → Exact (P.of_ℤ (pos n))
  pub of_ℤ-nonneg : (n : ℕ) → P.lt (P.of_ℤ (pos n)) P.zero ≡ false
  -- a difference of two ordered numbers is not negative
  pub sub-nonneg : (x y : P.Num) → P.lt y x ≡ false → P.lt (P.sub y x) P.zero ≡ false
  pub counter_desc-new : (d : Desc) → P.counter_desc (P.new_counter_vec d) ≡ d
  pub counter_value-new :
      (d : Desc) (ls : List String) → P.counter_value (P.new_counter_vec d) ls ≡ none
  -- Add panics on a negative number, and WithLabelValues on a wrong number of label values.
  pub counter_add-total :
      (v : P.CounterVec) (ls : List String) (x : P.Num)
      → length ls ≡ length (P.counter_desc v).labels
      → P.lt x P.zero ≡ false
      → P.counter_add v ls x ≢ none
  pub counter_add-negative :
      (v : P.CounterVec) (ls : List String) (x : P.Num)
      → P.lt x P.zero ≡ true
      → P.counter_add v ls x ≡ none
  pub counter_desc-add :
      (v w : P.CounterVec) (ls : List String) (x : P.Num)
      → P.counter_add v ls x ≡ some w
      → P.counter_desc w ≡ P.counter_desc v
  pub counter_value-add :
      (v w : P.CounterVec) (ls js : List String) (x : P.Num)
      → P.counter_add v ls x ≡ some w
      → P.counter_value w js ≡ (
          if same ls js
          then some (P.add (or_zero P (P.counter_value v ls)) x)
          else P.counter_value v js)
  pub counter_desc-delete :
      (v : P.CounterVec) (ls : List String)
      → P.counter_desc (P.counter_delete v ls) ≡ P.counter_desc v
  pub counter_value-delete :
      (v : P.CounterVec) (ls js : List String)
      → P.counter_value (P.counter_delete v ls) js
        ≡ (if same ls js then none else P.counter_value v js)
  pub gauge_desc-new : (d : Desc) → P.gauge_desc (P.new_gauge_vec d) ≡ d
  pub gauge_value-new : (d : Desc) (ls : List String) → P.gauge_value (P.new_gauge_vec d) ls ≡ none
  pub gauge_set-total :
      (v : P.GaugeVec) (ls : List String) (x : P.Num)
      → length ls ≡ length (P.gauge_desc v).labels
      → P.gauge_set v ls x ≢ none
  pub gauge_desc-set :
      (v w : P.GaugeVec) (ls : List String) (x : P.Num)
      → P.gauge_set v ls x ≡ some w
      → P.gauge_desc w ≡ P.gauge_desc v
  pub gauge_value-set :
      (v w : P.GaugeVec) (ls js : List String) (x : P.Num)
      → P.gauge_set v ls x ≡ some w
      → P.gauge_value w js ≡ (if same ls js then some x else P.gauge_value v js)
