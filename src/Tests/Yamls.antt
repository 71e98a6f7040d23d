-- ===== src/Tests/Yamls.antt =====
-- A file of specs, and its version.
use pgxporter.Prelude.{String, ◌≡◌, refl, ◌⊎◌, false, none, some, List, [], ◌∷◌, ◌++◌, arith}
use pgxporter.Prelude.Int.{ℤ, pos, negsuc}
use pgxporter.Prelude.Decimal.{show_ℕ}
use pgxporter.Prelude.Bytes.{Bytes, codes}
use pgxporter.Prelude.Scan.{
  is_digit, is_blank, scan_digits, scan_int, skip_blanks, scan_number, scan_signed, above, below,
}
use pgxporter.Prelude.Scan.ReadBack.{EndsNumber, at_other}
use pgxporter.Prometheus.Model.{prom_ℤ}
use pgxporter.Spec.{is_empty, new_spec_collector}
use pgxporter.Spec.Yaml.{
  YamlMetricSpec, YamlCollectorSpec, Checked, accepted, refused, Node, sequence, scalar, ◌then◌,
  value_type, metric_to_internal, metrics_to_internal, to_internal, at_spec, parse_from,
  parse_specs, parse_text, load_specs_from_file, unmarshal_yaml, scan_major_minor, scan_minor,
  scan_major,
}
use pgxporter.Spec.Encodings.{
  LacksMinor, goes_on, IsVersion, unmarshal_yaml-encodings, unmarshal_yaml-outcome,
}
use pgxporter.Emit.{Decl}
use pgxporter.Registry.{NamedCollector}
use pgxporter.Collectors.Names.{initial}
use pgxporter.Exporter.{extend}
use pgxporter.Exporter.Extension.{subsystem_of, fetched, IsExtended, extend-IsExtended}
use pgxporter.Tests.Specs.{quote, rates}

abbrev events_yaml : YamlMetricSpec prom_ℤ
events_yaml = record {
  name = "events_total";
  help = "Events by rate key";
  type = "counter";
  column = "c";
  scale = pos 0;
  timestamp_as_unix = false;
}

abbrev rates_yaml : YamlCollectorSpec prom_ℤ
rates_yaml = record {
  subsystem = "custom_rates";
  namespace = "";
  sql = "SELECT current_database() AS database, key, count(*) AS c FROM e GROUP BY key";
  min_pg_version = (pos 13, pos 0);
  labels = "key" ∷ [];
  metrics = events_yaml ∷ [];
}

rates-accepted : parse_specs quote (rates_yaml ∷ []) ≡ accepted (rates ∷ [])
unfolding parse_specs parse_from at_spec to_internal metrics_to_internal metric_to_internal
    value_type is_empty ◌then◌
rates-accepted = refl

abbrev complaint : Bytes → String
complaint s = "min_pg_version: expected integer"

-- A decoder that finds one spec in every text, with the version of the text.
abbrev unmarshal : (Node → Checked (ℤ × ℤ)) → Bytes → Checked (List (YamlCollectorSpec prom_ℤ))
unmarshal decode text = elim (decode (scalar (accepted text))) [
  | refused e ↦ refused e
  | accepted version ↦ accepted (record rates_yaml { min_pg_version = version } ∷ [])
]

abbrev read_file : String → Checked Bytes
read_file path = accepted (codes "13")

rates-loaded :
    load_specs_from_file quote unmarshal complaint read_file "specs.yaml" ≡ accepted (rates ∷ [])
unfolding load_specs_from_file parse_text parse_specs parse_from at_spec to_internal
    metrics_to_internal metric_to_internal value_type is_empty ◌then◌ unmarshal_yaml
    scan_major_minor scan_major scan_minor scan_int skip_blanks scan_signed scan_number scan_digits
    above below codes is_blank is_digit
rates-loaded = refl

abbrev registered : List (NamedCollector (List Decl))
registered = record { name = "wal"; collector = [] } ∷ []

extend-IsExtended_example :
    IsExtended quote unmarshal complaint read_file initial "specs.yaml" registered (
      extend subsystem_of
        (new_spec_collector initial)
        (fetched (load_specs_from_file quote unmarshal complaint read_file "specs.yaml"))
        registered)
extend-IsExtended_example =
    extend-IsExtended quote unmarshal complaint read_file initial "specs.yaml" registered

patch-EndsNumber : EndsNumber (codes ".3")
unfolding codes is_digit
patch-EndsNumber = at_other refl

comma-LacksMinor : LacksMinor (codes ",4")
unfolding codes is_digit
comma-LacksMinor = goes_on refl (λ e. omega arith)

unmarshal_yaml-encodings_example :
    (unmarshal_yaml complaint
        (scalar (accepted (codes (show_ℕ 16) ++ b'.' ∷ (codes (show_ℕ 2) ++ codes ".3"))))
      ≡ unmarshal_yaml complaint (sequence (accepted (pos 16, pos 2))))
    × (unmarshal_yaml complaint (scalar (accepted (codes (show_ℕ 16) ++ codes ",4")))
        ≡ unmarshal_yaml complaint (sequence (accepted (pos 16, pos 0))))
unmarshal_yaml-encodings_example =
    unmarshal_yaml-encodings complaint 16 2 (codes ".3") (codes ",4") (omega arith) (omega arith)
      patch-EndsNumber comma-LacksMinor

unmarshal_yaml-outcome_example :
    ((unmarshal_yaml complaint (scalar (accepted (codes "beta")))
        ≡ refused (complaint (codes "beta")))
      × (scan_int (codes "beta") ≡ none))
    ⊎ ((version : ℤ × ℤ) × (unmarshal_yaml complaint (scalar (accepted (codes "beta")))
          ≡ accepted version)
        × IsVersion (codes "beta") version)
unmarshal_yaml-outcome_example = unmarshal_yaml-outcome complaint (codes "beta")

scan_int-negative : scan_int (codes " -7.5") ≡ some (negsuc 6, codes ".5")
unfolding scan_int codes skip_blanks scan_signed scan_number scan_digits above below
scan_int-negative = refl
