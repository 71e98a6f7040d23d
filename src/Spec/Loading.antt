-- ===== src/Spec/Loading.antt =====
-- exporter/collectors/spec_yaml.go: LoadSpecsFromFile, from the file to the collectors.
use pgxporter.Prelude.{String, ◌≡◌, ◌≢◌, refl, ◌⊎◌, inl, inr, none, List, All, length}
use pgxporter.Prelude.Int.{ℤ}
use pgxporter.Prelude.Bytes.{Bytes}
use pgxporter.Prometheus.{Prom}
use pgxporter.Collectors.Names.{Namespaces, initial}
use pgxporter.Spec.{CollectorSpec, new_spec_collector}
use pgxporter.Spec.Yaml.{
  YamlCollectorSpec, Node, Checked, accepted, refused, unmarshal_yaml, parse_specs, parse_text,
  load_specs_from_file,
}
use pgxporter.Spec.Accepted.{parse_specs-new}

pub Checked-cases {ℓ} :
    {A : Type ℓ} (m : Checked A) → ((a : A) × (m ≡ accepted a)) ⊎ ((e : String) × (m ≡ refused e))
Checked-cases (accepted a) = inl (a, refl)
Checked-cases (refused e) = inr (e, refl)

module _ {P : Prom} {Text : Type 0} (quote : String → String)
    (unmarshal : (Node → Checked (ℤ × ℤ)) → Text → Checked (List (YamlCollectorSpec P)))
    (complaint : Bytes → String) (read_file : String → Checked Text) where
  pub record Loaded (path : String) (specs : List (CollectorSpec P)) : Type 1 where
    pub text : Text
    pub raw : List (YamlCollectorSpec P)
    pub is_read : read_file path ≡ accepted text
    pub is_decoded : unmarshal (unmarshal_yaml complaint) text ≡ accepted raw
    pub as_many : length specs ≡ length raw
    pub no_panic : (n : Namespaces) → All (λ s. new_spec_collector n s ≢ none) specs

  -- If LoadSpecsFromFile returns specs, the file was read, yaml.Unmarshal with UnmarshalYAML
  -- decoded it into as many specs, and NewSpecCollector panics on none of the specs that are
  -- returned, under any metric prefix.
  pub load_specs_from_file-Loaded :
      (path : String) (specs : List (CollectorSpec P))
      → load_specs_from_file quote unmarshal complaint read_file path ≡ accepted specs
      → Loaded path specs
  unfolding load_specs_from_file parse_text
  load_specs_from_file-Loaded path specs h = elim (Checked-cases (read_file path)) [
    | inr (e, r) ↦ cc (rw (r, load_specs_from_file) at h)
    | inl (text, r) ↦ elim (Checked-cases (unmarshal (unmarshal_yaml complaint) text)) [
      | inr (e, u) ↦ cc (rw (r, u, load_specs_from_file, parse_text) at h)
      | inl (raw, u) ↦
          let k : parse_specs quote raw ≡ accepted specs =
            rw (r, u, load_specs_from_file, parse_text) at h in
          record {
            text = text;
            raw = raw;
            is_read = r;
            is_decoded = u;
            as_many = (parse_specs-new quote initial raw specs k).1;
            no_panic = λ n. (parse_specs-new quote n raw specs k).0;
          }
    ]
  ]
