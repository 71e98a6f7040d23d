-- ===== src/Spec.antt =====
-- exporter/collectors/spec.go: the types, and the collector that a CollectorSpec describes.
pub mod Rows
pub mod Slots
pub mod Declared
pub mod Columns
pub mod Emission
pub mod Yaml
pub mod Encodings
pub mod Loading
pub mod Accepted
use mathlib.Core.Option
use Prim.Native.String
use Prim.Native.Char.{nul}
use pgxporter.Prelude.{
  ℕ, zero, suc, ◌+◌, String, ◌<>◌, Bool, true, false, not, ◌&&◌, ◌||◌, Option, none, some, List, [],
  ◌∷◌, ◌++◌, map, str_eq, if◌then◌else◌, ◌>>=◌,
}
use pgxporter.Prelude.Int.{ℤ, pos, ltb_ℤ}
use pgxporter.Prelude.Decimal.{show_ℤ}
use pgxporter.Prometheus.{Prom, Desc}
use pgxporter.Registry.{contains}
use pgxporter.Emit.{Kind, counter_kind, gauge_kind, Decl, Step, step, Action, in_order, unix}
use pgxporter.Emit.Declared.{same_kind}
use pgxporter.Db.{reaches}
use pgxporter.Collectors.Names.{Namespaces}
use pgxporter.Collectors.{Fetched, rows, failed, Outcome}

-- prometheus.ValueType, whose zero is no value of the enumeration.
pub data ValueType : Type 0 where
  unset counter_value gauge_value untyped_value : ValueType

pub record MetricSpec (P : Prom) : Type 0 where
  pub name : String
  pub help : String
  pub type : ValueType
  pub column : String
  pub scale : P.Num
  pub timestamp_as_unix : Bool

pub record CollectorSpec (P : Prom) : Type 0 where
  pub subsystem : String
  pub namespace : String
  pub sql : String
  pub min_pg_version : ℤ × ℤ
  pub labels : List String
  pub metrics : List (MetricSpec P)

-- What pgx returns for a column: int, int32 and int64 are `int`, float32 and float64 are `float`, a time
-- is in microseconds, a []byte has its text, and `other` has the text that fmt.Sprint makes of it.
pub data Value (P : Prom) : Type 0 where
  null : Value P
  text : String → Value P
  -- A []byte that is valid UTF-8.
  bytes : String → Value P
  int : ℤ → Value P
  float : P.Num → Value P
  time : ℤ → Value P
  other : String → Value P

-- The texts that the packages fmt and time make: of a float64, of a time, and of a quoted string (%q).
pub record Rendering (P : Prom) : Type 0 where
  pub sprint_float : P.Num → String
  pub time_string : ℤ → String
  pub quote : String → String

-- pgx.Rows: the columns, what Values returns for each row that Next finds, and Err at the end.
pub record QueryRows (P : Prom) : Type 0 where
  pub columns : List String
  pub results : List (Fetched (List (Value P)))
  pub err : Option String

-- What one client gives a scrape: the version that AtLeast compares with, and the answer of Query.
pub record SpecInput (P : Prom) : Type 0 where
  pub server_version_num : ℤ
  pub query : Fetched (QueryRows P)

-- The vec with this index, under which it is found in the struct.
unfoldable pub slot : ℕ → String
slot zero = String.[]
slot (suc i) = String.◌∷◌ nul (slot i)

unfoldable pub is_empty {ℓ} : {A : Type ℓ} → List A → Bool
is_empty [] = true
is_empty (x ∷ xs) = false

-- The index map: of two columns of one name the later one counts.
unfoldable pub col_idx : String → ℕ → List String → Option ℕ
col_idx name i [] = none
col_idx name i (c ∷ cs) = elim (col_idx name (suc i) cs) [
  | some j ↦ some j
  | none ↦ if str_eq c name then some i else none
]

-- The first name of which there is no column.
unfoldable pub missing : List String → List String → Option String
unfolding contains
missing columns [] = none
missing columns (n ∷ ns) = if contains columns n then missing columns ns else some n

module _ {P : Prom} where
  -- The switch of NewSpecCollector.
  unfoldable pub vec_kind : MetricSpec P → Kind
  vec_kind m =
      if m.timestamp_as_unix
      then gauge_kind
      else elim m.type [ counter_value ↦ counter_kind | _ ↦ gauge_kind ]

  unfoldable pub spec_decl : String → CollectorSpec P → ℕ → MetricSpec P → Decl
  unfolding vec_kind slot
  spec_decl ns spec i m = record {
    field = slot i;
    kind = vec_kind m;
    desc = record {
      namespace = ns;
      subsystem = spec.subsystem;
      name = m.name;
      help = m.help;
      labels = "database" ∷ spec.labels;
    };
  }

  -- The loop of NewSpecCollector; `none` is its panic.
  unfoldable pub spec_decls :
      String → CollectorSpec P → ℕ → List (MetricSpec P) → Option (List Decl)
  unfolding spec_decl
  spec_decls ns spec i [] = some []
  spec_decls ns spec i (m ∷ ms) =
      let rest = spec_decls ns spec (suc i) ms in
      if str_eq m.name "" || str_eq m.column ""
      then none
      else (do ds ← rest; some (spec_decl ns spec i m ∷ ds))

  unfoldable pub new_spec_collector : Namespaces → CollectorSpec P → Option (List Decl)
  unfolding spec_decls is_empty
  new_spec_collector n spec =
      if str_eq spec.subsystem "" || (str_eq spec.sql "" || is_empty spec.metrics)
      then none
      else spec_decls (if str_eq spec.namespace "" then n.namespace else spec.namespace) spec 0
          spec.metrics

  -- The vecs of a kind, in the order of the metrics.
  unfoldable pub slots_of : Kind → ℕ → List (MetricSpec P) → List String
  unfolding vec_kind slot same_kind
  slots_of k i [] = []
  slots_of k i (m ∷ ms) =
      let rest = slots_of k (suc i) ms in if same_kind k (vec_kind m) then slot i ∷ rest else rest

  -- Describe and collectInto: the counters, then the gauges.
  unfoldable pub describe : CollectorSpec P → List String
  unfolding slots_of
  describe spec = slots_of counter_kind 0 spec.metrics ++ slots_of gauge_kind 0 spec.metrics

  unfoldable pub collect_into : CollectorSpec P → List String
  unfolding slots_of
  collect_into spec = slots_of counter_kind 0 spec.metrics ++ slots_of gauge_kind 0 spec.metrics
