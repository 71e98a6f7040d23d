-- ===== src/Spec/Yaml.antt =====
-- exporter/collectors/spec_yaml.go: the specs of a YAML file.
use pgxporter.Prelude.{
  ℕ, suc, ◌==◌, String, ◌<>◌, Bool, ◌||◌, Option, none, some, List, [], ◌∷◌, str_eq, if◌then◌else◌,
}
use pgxporter.Prelude.Int.{ℤ, pos}
use pgxporter.Prelude.Bytes.{Bytes}
use pgxporter.Prelude.Scan.{scan_int}
use pgxporter.Prelude.Decimal.{show_ℕ}
use pgxporter.Prometheus.{Prom}
use pgxporter.Spec.{MetricSpec, CollectorSpec, ValueType, gauge_value, counter_value, is_empty}

pub record YamlMetricSpec (P : Prom) : Type 0 where
  pub name : String
  pub help : String
  pub type : String
  pub column : String
  pub scale : P.Num
  pub timestamp_as_unix : Bool

pub record YamlCollectorSpec (P : Prom) : Type 0 where
  pub subsystem : String
  pub namespace : String
  pub sql : String
  pub min_pg_version : ℤ × ℤ
  pub labels : List String
  pub metrics : List (YamlMetricSpec P)

-- A value or an error.
pub data Checked {ℓ} (A : Type ℓ) : Type ℓ where
  accepted : A → Checked A
  refused : String → Checked A

infixl 5 ◌then◌
unfoldable pub ◌then◌ {ℓ κ} : {A : Type ℓ} {B : Type κ} → Checked A → (A → Checked B) → Checked B
accepted a then f = f a
refused e then f = refused e

-- A yaml.Node, by its Kind: a sequence, with what its Decode makes of it for a pair of ints, or
-- another one, with what its Decode makes of it for a string, an ASCII text.
pub data Node : Type 0 where
  sequence : Checked (ℤ × ℤ) → Node
  scalar : Checked Bytes → Node

-- fmt.Sscanf(s, "%d.%d", &major, &minor), behind the major.
unfoldable pub scan_minor : ℤ → Bytes → Option (ℤ × ℤ)
scan_minor major [] = none
scan_minor major (c ∷ s) =
    if c == b'.'
    then elim (scan_int s) [ none ↦ none | some (minor, rest) ↦ some (major, minor) ]
    else none

unfoldable pub scan_major_minor : Bytes → Option (ℤ × ℤ)
unfolding scan_minor
scan_major_minor s = elim (scan_int s) [ none ↦ none | some (major, rest) ↦ scan_minor major rest ]

-- fmt.Sscanf(s, "%d", &major), with the minor that is left at 0.
unfoldable pub scan_major : Bytes → Option (ℤ × ℤ)
scan_major s = elim (scan_int s) [ none ↦ none | some (major, rest) ↦ some (major, pos 0) ]

-- yamlPGVersion.UnmarshalYAML; `complaint` is the text of its error for a string.
unfoldable pub unmarshal_yaml : (Bytes → String) → Node → Checked (ℤ × ℤ)
unfolding scan_major_minor scan_major
unmarshal_yaml complaint (sequence pair) = pair
unmarshal_yaml complaint (scalar (refused e)) = refused e
unmarshal_yaml complaint (scalar (accepted s)) = elim (scan_major_minor s) [
  | some version ↦ accepted version
  | none ↦ elim (scan_major s) [ some version ↦ accepted version | none ↦ refused (complaint s) ]
]

unfoldable pub value_type : String → Option ValueType
value_type type =
    if str_eq type "" || str_eq type "gauge"
    then some gauge_value
    else if str_eq type "counter"
    then some counter_value
    else none

-- The error of one spec with its place.
unfoldable pub at_spec {ℓ} : {A : Type ℓ} → ℕ → String → Checked A → Checked A
at_spec i subsystem (accepted a) = accepted a
at_spec i subsystem (refused e) =
    refused ("spec[" <> (show_ℕ i <> ("] (" <> (subsystem <> ("): " <> e)))))

-- `quote` is what %q makes of a string.
module _ {P : Prom} (quote : String → String) where
  -- One round of the loop over the metrics.
  unfoldable pub metric_to_internal : ℕ → YamlMetricSpec P → Checked (MetricSpec P)
  unfolding value_type
  metric_to_internal i m =
      if str_eq m.name "" || str_eq m.column ""
      then refused ("metrics[" <> (show_ℕ i <> "]: name and column are required"))
      else elim (value_type m.type) [
        | none ↦
            refused (
              "metrics["
              <> (show_ℕ i <> ("].type: must be counter or gauge, got " <> quote m.type)))
        | some t ↦ accepted (record {
          name = m.name;
          help = m.help;
          type = t;
          column = m.column;
          scale = m.scale;
          timestamp_as_unix = m.timestamp_as_unix;
        })
      ]

  unfoldable pub metrics_to_internal : ℕ → List (YamlMetricSpec P) → Checked (List (MetricSpec P))
  unfolding metric_to_internal ◌then◌
  metrics_to_internal i [] = accepted []
  metrics_to_internal i (m ∷ ms) =
      metric_to_internal i m then λ x. metrics_to_internal (suc i) ms then λ xs. accepted (x ∷ xs)

  unfoldable pub to_internal : YamlCollectorSpec P → Checked (CollectorSpec P)
  unfolding metrics_to_internal is_empty ◌then◌
  to_internal y =
      if str_eq y.subsystem ""
      then refused "subsystem is required"
      else if str_eq y.sql ""
      then refused "sql is required"
      else if is_empty y.metrics
      then refused "metrics must contain at least one entry"
      else (metrics_to_internal 0 y.metrics then λ ms. accepted (record {
        subsystem = y.subsystem;
        namespace = y.namespace;
        sql = y.sql;
        min_pg_version = y.min_pg_version;
        labels = y.labels;
        metrics = ms;
      }))

  -- The loop of ParseSpecs.
  unfoldable pub parse_from : ℕ → List (YamlCollectorSpec P) → Checked (List (CollectorSpec P))
  unfolding to_internal at_spec ◌then◌
  parse_from i [] = accepted []
  parse_from i (y ∷ ys) = at_spec i y.subsystem (to_internal y) then λ s.
      parse_from (suc i) ys then λ ss. accepted (s ∷ ss)

  -- ParseSpecs, after yaml.Unmarshal.
  unfoldable pub parse_specs : List (YamlCollectorSpec P) → Checked (List (CollectorSpec P))
  unfolding parse_from
  parse_specs raw = parse_from 0 raw

  -- ParseSpecs; `unmarshal` is yaml.Unmarshal, which calls UnmarshalYAML for each min_pg_version.
  unfoldable pub parse_text {ℓ} :
      {Text : Type ℓ}
      → ((Node → Checked (ℤ × ℤ)) → Text → Checked (List (YamlCollectorSpec P)))
      → (Bytes → String)
      → Text
      → Checked (List (CollectorSpec P))
  unfolding unmarshal_yaml parse_specs
  parse_text unmarshal complaint text = elim (unmarshal (unmarshal_yaml complaint) text) [
    | refused e ↦ refused ("parsing YAML: " <> e)
    | accepted raw ↦ parse_specs raw
  ]

  -- LoadSpecsFromFile; `read_file` is os.ReadFile.
  unfoldable pub load_specs_from_file {ℓ} :
      {Text : Type ℓ}
      → ((Node → Checked (ℤ × ℤ)) → Text → Checked (List (YamlCollectorSpec P)))
      → (Bytes → String)
      → (String → Checked Text)
      → String
      → Checked (List (CollectorSpec P))
  unfolding parse_text
  load_specs_from_file unmarshal complaint read_file path = elim (read_file path) [
    | refused e ↦ refused ("reading " <> (path <> (": " <> e)))
    | accepted text ↦ parse_text unmarshal complaint text
  ]
