-- ===== src/Exporter/Extension.antt =====
-- exporter/exporter.go: ExtendFromYAMLFile, with LoadSpecsFromFile of exporter/collectors/spec_yaml.go.
use pgxporter.Prelude.{
  String, ◌<>◌, ◌≡◌, ◌≢◌, refl, sym, ap, ◌∙◌, inl, inr, Option, none, some, List, [], ◌∷◌, ◌++◌,
  map, All, append_assoc, append-nil, Option-cases,
}
use pgxporter.Prelude.Int.{ℤ}
use pgxporter.Prelude.Bytes.{Bytes}
use pgxporter.Prometheus.{Prom}
use pgxporter.Emit.{Decl}
use pgxporter.Registry.{NamedCollector}
use pgxporter.Collectors.{Fetched, rows, failed}
use pgxporter.Collectors.Names.{Namespaces}
use pgxporter.Spec.{CollectorSpec, new_spec_collector}
use pgxporter.Spec.Yaml.{YamlCollectorSpec, Node, Checked, accepted, refused, load_specs_from_file}
use pgxporter.Spec.Loading.{Checked-cases, Loaded, load_specs_from_file-Loaded}
use pgxporter.Exporter.{register_specs, extend}
use pgxporter.Exporter.Naming.{names_of}

abbrev collectors_of : {C : Type 0} → List (NamedCollector C) → List C
collectors_of e = map (λ n. n.collector) e

module _ {C S : Type 0} (subsystem : S → String) (make : S → Option C) where
  -- The exporter's collectors with those of the specs behind them, in their order.
  pub record Appended (specs : List S) (e e' : List (NamedCollector C)) : Type 0 where
    pub added : List (NamedCollector C)
    pub keeps : e' ≡ e ++ added
    pub names : names_of added ≡ map (λ s. "spec_" <> subsystem s) specs
    pub collectors : map make specs ≡ map some (collectors_of added)

  register_specs-Appended :
      (specs : List S) (e : List (NamedCollector C))
      → All (λ s. make s ≢ none) specs
      → (e' : List (NamedCollector C)) × (register_specs subsystem make specs e ≡ some e')
        × Appended specs e e'
  unfolding register_specs
  register_specs-Appended [] e h =
      (e, refl, record { added = []; keeps = sym (append-nil e); names = refl; collectors = refl })
  register_specs-Appended (s ∷ specs) e h = elim (Option-cases (make s)) [
    | inl n ↦ absurd (h.0 n)
    | inr (c, m) ↦
        let x : NamedCollector C = record { name = "spec_" <> subsystem s; collector = c } in
        let (e', r, a) = register_specs-Appended specs (e ++ x ∷ []) h.1 in
        (
          e',
          rw (m, register_specs) r,
          record {
            added = x ∷ a.added;
            keeps = a.keeps ∙ append_assoc e (x ∷ []) a.added;
            names = ap (λ ns. ("spec_" <> subsystem s) ∷ ns) a.names;
            collectors = ap (λ o. o ∷ map make specs) m ∙ ap (λ os. some c ∷ os) a.collectors;
          },
        )
  ]

-- LoadSpecsFromFile, with the type of an answer that may be an error.
abbrev pub fetched : {A : Type 0} → Checked A → Fetched A
fetched (accepted a) = rows a
fetched (refused e) = failed e

abbrev pub subsystem_of : {P : Prom} → CollectorSpec P → String
subsystem_of s = s.subsystem

module _ {P : Prom} {Text : Type 0} (quote : String → String)
    (unmarshal : (Node → Checked (ℤ × ℤ)) → Text → Checked (List (YamlCollectorSpec P)))
    (complaint : Bytes → String) (read_file : String → Checked Text) (n : Namespaces) where
  abbrev pub load : String → Checked (List (CollectorSpec P))
  load path = load_specs_from_file quote unmarshal complaint read_file path

  pub data IsExtended (path : String) (e : List (NamedCollector (List Decl)))
      : Option (List (NamedCollector (List Decl)) × Option String) → Type 1 where
    refuses : {err : String} → load path ≡ refused err → IsExtended path e (some (e, some err))
    appends :
        {specs : List (CollectorSpec P)} {e' : List (NamedCollector (List Decl))}
        → Loaded quote unmarshal complaint read_file path specs
        → Appended subsystem_of (new_spec_collector n) specs e e'
        → IsExtended path e (some (e', none))

  -- ExtendFromYAMLFile does not panic. If LoadSpecsFromFile refuses the file, it returns that error
  -- and leaves the collectors as they are; if not, the file was read and decoded with UnmarshalYAML
  -- into as many specs as are returned, NewSpecCollector takes each of them under any prefix, and
  -- the collectors it makes of them stand behind those that were there, in order, each under the
  -- name spec_ and its subsystem.
  pub extend-IsExtended :
      (path : String) (e : List (NamedCollector (List Decl)))
      → IsExtended path e (extend subsystem_of (new_spec_collector n) (fetched (load path)) e)
  unfolding extend
  extend-IsExtended path e = elim (Checked-cases (load path)) [
    | inr (err, r) ↦ rw r (refuses r)
    | inl (specs, r) ↦
        let loaded = load_specs_from_file-Loaded quote unmarshal complaint read_file path specs r in
        let (e', q, a) =
          register_specs-Appended subsystem_of (new_spec_collector n) specs e (loaded.no_panic n) in
        rw (r, q) (appends loaded a)
  ]
