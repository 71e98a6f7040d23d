-- ===== src/Emit.antt =====
-- The emission pattern of exporter/collectors: a collector is a struct of vecs, and its `emit` is a
-- sequence of Observe and Set calls on them, one for each column of a row that is not NULL.
pub mod Shapes
pub mod Exports
pub mod Schedule
pub mod Declared
pub mod Labelled
use mathlib.Core.Option
use pgxporter.Prelude.{
  ℕ, ◌/◌, String, Bool, true, false, Option, none, some, List, [], ◌∷◌, ◌++◌, ◌>>=◌, if◌then◌else◌,
}
use pgxporter.Prelude.Int.{ℤ, pos, negsuc}
use pgxporter.Prometheus.{Desc, Prom}
use pgxporter.Vec.{CounterDelta, lookup, insert, observe, new_counter_delta}

-- pgtype.Text, Int8, Float8, Timestamptz and Bool: NULL is `none`. A timestamp is its number of
-- microseconds since 1970, the resolution of PostgreSQL.
abbrev pub Text : Type 0
Text = Option String

abbrev pub Int8 : Type 0
Int8 = Option ℤ

abbrev pub Float8 : Prom → Type 0
Float8 P = Option P.Num

abbrev pub Timestamptz : Type 0
Timestamptz = Option ℤ

abbrev pub PgBool : Type 0
PgBool = Option Bool

-- The field `String` of a pgtype.Text: pgx leaves it empty for NULL.
abbrev pub string : Text → String
string none = ""
string (some s) = s

-- time.Time.Unix of a time in microseconds: the second that has begun.
abbrev pub unix : ℤ → ℤ
unix (pos n) = pos (n / 1000000)
unix (negsuc n) = negsuc (n / 1000000)

-- The field `Valid`.
abbrev pub valid {ℓ} : {A : Type ℓ} → Option A → Bool
valid none = false
valid (some a) = true

-- The field `Int64` of a pgtype.Int8: 0 for NULL.
abbrev pub int64 : Int8 → ℤ
int64 none = pos 0
int64 (some i) = i

-- The field `Bool` of a pgtype.Bool: false for NULL.
abbrev pub bool : PgBool → Bool
bool none = false
bool (some b) = b

-- strconv.FormatBool
abbrev pub format_bool : Bool → String
format_bool true = "true"
format_bool false = "false"

pub data Kind : Type 0 where
  counter_kind gauge_kind : Kind

-- A vec of a collector's struct.
pub data Field (P : Prom) : Type 0 where
  counter : CounterDelta P → Field P
  gauge : P.GaugeVec → Field P

-- A collector's struct: its vecs under the names of its fields. A field that is missing is nil.
abbrev pub Fields : Prom → Type 0
Fields P = List (String × Field P)

-- What a constructor says of a field.
pub record Decl : Type 0 where
  pub field : String
  pub kind : Kind
  pub desc : Desc

-- One call on a vec.
pub data Action (P : Prom) : Type 0 where
  observes : String → P.Num → List String → Action P
  sets : String → P.Num → List String → Action P

-- A call that is made if there is a value.
pub data Step (P : Prom) : Type 0 where
  step : Kind → String → Option P.Num → List String → Step P

module _ (P : Prom) where
  pub new_field : Kind → Desc → Field P
  new_field counter_kind d = counter (new_counter_delta (P.new_counter_vec d))
  new_field gauge_kind d = gauge (P.new_gauge_vec d)

  pub construct : List Decl → Fields P
  unfolding new_field
  construct [] = []
  construct (d ∷ ds) = (d.field, new_field d.kind d.desc) ∷ construct ds

module _ {P : Prom} where
  -- The call on the vec that is found. A nil vec panics; the Go types rule out the mixed cases.
  pub on_field : Option (Field P) → Action P → Option (Field P)
  on_field (some (counter c)) (observes f v ls) = do c' ← observe c v ls; some (counter c')
  on_field (some (gauge g)) (sets f v ls) = do g' ← P.gauge_set g ls v; some (gauge g')
  on_field _ _ = none

  abbrev pub target : Action P → String
  target (observes f v ls) = f
  target (sets f v ls) = f

  pub apply : Fields P → Action P → Option (Fields P)
  unfolding on_field
  apply fs a = do x ← on_field (lookup (target a) fs) a; some (insert (target a) x fs)

  -- `none` is a panic in one of the calls.
  pub run : Fields P → List (Action P) → Option (Fields P)
  unfolding apply
  run fs [] = some fs
  run fs (a ∷ rest) = apply fs a >>= λ fs'. run fs' rest

  -- The closures of the emit methods: a call on a field, made if the column is not NULL.
  unfoldable pub emit_counter : String → Int8 → List String → Step P
  emit_counter f v ls = step counter_kind f (Option.map P.of_ℤ v) ls

  unfoldable pub emit_counter_float : String → Float8 P → List String → Step P
  emit_counter_float f v ls = step counter_kind f v ls

  unfoldable pub emit_millis_as_secs : String → Float8 P → List String → Step P
  emit_millis_as_secs f v ls = step counter_kind f (Option.map (λ x. P.div x P.thousand) v) ls

  unfoldable pub emit_gauge : String → Int8 → List String → Step P
  emit_gauge f v ls = step gauge_kind f (Option.map P.of_ℤ v) ls

  unfoldable pub emit_float : String → Float8 P → List String → Step P
  emit_float f v ls = step gauge_kind f v ls

  unfoldable pub emit_time : String → Timestamptz → List String → Step P
  emit_time f v ls = step gauge_kind f (Option.map (λ t. P.of_ℤ (unix t)) v) ls

  unfoldable pub emit_time_micro : String → Timestamptz → List String → Step P
  emit_time_micro f v ls = step gauge_kind f (Option.map P.of_ℤ v) ls

  unfoldable pub emit_bool : String → PgBool → List String → Step P
  emit_bool f v ls = step gauge_kind f (Option.map (λ b. P.of_ℤ (pos (if b then 1 else 0))) v) ls

  abbrev pub call : Kind → String → P.Num → List String → Action P
  call counter_kind f x ls = observes f x ls
  call gauge_kind f x ls = sets f x ls

  -- Statements one after the other.
  unfoldable pub in_order : List (Step P) → List (Action P)
  in_order [] = []
  in_order (step k f none ls ∷ rest) = in_order rest
  in_order (step k f (some x) ls ∷ rest) = call k f x ls ∷ in_order rest

  -- Rows for which a loop does not `continue`.
  unfoldable pub keep_if : Bool → List (Action P) → List (Action P)
  keep_if true calls = calls
  keep_if false calls = []

  -- A loop over the rows.
  unfoldable pub for_each {ℓ} :
      {Row : Type ℓ} → (Row → List (Action P)) → List Row → List (Action P)
  for_each row [] = []
  for_each row (r ∷ rs) = row r ++ for_each row rs
