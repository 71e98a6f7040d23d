-- ===== src/Registry/Resolution.antt =====
-- Which collectors ResolveCollectors returns, in terms of the names that the caller gave.
use pgxporter.Prelude.{
  String, ◌≡◌, refl, sym, ap, ap₂, ◌∙◌, inl, inr, Bool, true, false, not, ◌&&◌, ◌||◌, Option, List,
  [], ◌∷◌, ◌++◌, map, append_assoc, append-nil, arith, eq_iff, if◌then◌else◌, Bool-cases,
}
use pgxporter.Registry.{
  CollectorEntry, NamedCollector, UnknownNames, contains, names, validate, include, select,
  is_empty, resolve_error, resolve_collectors, default_collectors,
}

-- The specification: an entry runs if it is asked for, by name where names were given and by default
-- where none were, and is not disabled.
module _ {ℓ} {A : Type ℓ} where
  abbrev pub wanted : List String → List String → CollectorEntry A → Bool
  wanted enabled disabled e =
      (if is_empty enabled then e.default else contains enabled e.name)
      && not (contains disabled e.name)

  unfoldable pub chosen :
      List String → List String → List (CollectorEntry A) → List (NamedCollector A)
  chosen en dis [] = []
  chosen en dis (e ∷ es) =
      let rest = chosen en dis es in
      if wanted en dis e then record { name = e.name; collector = e.new } ∷ rest else rest

  unfoldable pub default_chosen : List (CollectorEntry A) → List A
  default_chosen [] = []
  default_chosen (e ∷ es) = let rest = default_chosen es in if e.default then e.new ∷ rest else rest

-- The names of a list that are not in another, in order.
unfoldable pub unknown_in : List String → List String → List String
unknown_in known [] = []
unknown_in known (n ∷ ns) =
    if contains known n then unknown_in known ns else n ∷ unknown_in known ns

contains-names {ℓ} :
    {A : Type ℓ} (pre post : List (CollectorEntry A)) (e : CollectorEntry A)
    → contains (names (pre ++ e ∷ post)) e.name ≡ true
unfolding contains names
contains-names [] post e = ground (arith, eq_iff e.name e.name)
contains-names (x ∷ pre) post e = ground (arith, contains-names pre post e)

unknown_in-append :
    (known ms ns : List String)
    → unknown_in known (ms ++ ns) ≡ unknown_in known ms ++ unknown_in known ns
unfolding unknown_in
unknown_in-append known [] ns = refl
unknown_in-append known (m ∷ ms) ns = ground (arith, unknown_in-append known ms ns)

module _ {ℓ} {A : Type ℓ} (registry : List (CollectorEntry A)) where
  validate-unknown :
      (ns set unknown : List String)
      → (validate registry ns set unknown).1 ≡ unknown ++ unknown_in (names registry) ns
  unfolding validate unknown_in
  validate-unknown [] set unknown = sym (append-nil unknown)
  validate-unknown (n ∷ ns) set unknown = elim (Bool-cases (contains (names registry) n)) [
    | inl e ↦ rw e (validate-unknown ns (n ∷ set) unknown)
    | inr e ↦ rw e (
        validate-unknown ns set (unknown ++ n ∷ [])
        ∙ append_assoc unknown (n ∷ []) (unknown_in (names registry) ns))
  ]

  -- A registered name is in the validated set exactly if the caller gave it.
  validate-set :
      (ns set unknown : List String) (m : String)
      → contains (names registry) m ≡ true
      → contains (validate registry ns set unknown).0 m ≡ contains ns m || contains set m
  unfolding validate contains
  validate-set [] set unknown m k = refl
  validate-set (n ∷ ns) set unknown m k = elim (Bool-cases (contains (names registry) n)) [
    | inl e ↦ rw e (ground (arith, validate-set ns (n ∷ set) unknown m k, eq_iff n m))
    | inr e ↦ rw e (ground (arith, validate-set ns set (unknown ++ n ∷ []) m k, eq_iff n m))
  ]

  module _ (en dis unknown : List String) (e : CollectorEntry A) where
    include-wanted :
        contains (names registry) e.name ≡ true
        → include registry
            (not (is_empty en))
            (validate registry en [] []).0
            (validate registry dis [] unknown).0
            e
          ≡ wanted en dis e
    unfolding include contains
    include-wanted k =
        rw (validate-set en [] [] e.name k, validate-set dis [] unknown e.name k)
          (finish en (contains dis e.name))
      where
        finish :
            (en : List String) (d : Bool)
            → (if d || contains [] e.name
                then false
                else if not (is_empty en)
                then contains en e.name || contains [] e.name
                else e.default)
              ≡ (if is_empty en then e.default else contains en e.name) && not d
        finish [] d = ground arith
        finish (n ∷ ns) d = ground arith

  select-chosen :
      (en dis unknown : List String) (pre es : List (CollectorEntry A))
      → registry ≡ pre ++ es
      → select registry
          (not (is_empty en))
          (validate registry en [] []).0
          (validate registry dis [] unknown).0
          es
        ≡ chosen en dis es
  unfolding select chosen
  select-chosen en dis unknown pre [] h = refl
  select-chosen en dis unknown pre (e ∷ es) h =
      let known : contains (names registry) e.name ≡ true = rw h (contains-names pre es e) in
      rw (
        include-wanted en dis unknown e known,
        select-chosen en dis unknown (pre ++ e ∷ []) es (h ∙ sym (append_assoc pre (e ∷ []) es)),
      )

  -- ResolveCollectors returns, in the order of the registry, the entries that were asked for (by
  -- name if any names were given, else by default) and not disabled; its error names exactly the
  -- names that are not registered, those of the first list before those of the second.
  pub resolve_collectors_lem :
      (enabled disabled : List String)
      → resolve_collectors registry enabled disabled ≡ (
        chosen enabled disabled registry,
        resolve_error registry (unknown_in (names registry) (enabled ++ disabled)),
      )
  unfolding resolve_collectors
  resolve_collectors_lem enabled disabled =
      let unknown = (validate registry enabled [] []).1 in
      ap₂ (λ out err. (out, resolve_error registry err))
        (select-chosen enabled disabled unknown [] registry refl)
        (validate-unknown disabled [] unknown
          ∙ ap (λ u. u ++ unknown_in (names registry) disabled) (validate-unknown enabled [] [])
          ∙ sym (unknown_in-append (names registry) enabled disabled))

  map-chosen :
      (es : List (CollectorEntry A))
      → map (λ (n : NamedCollector A). n.collector) (chosen [] [] es) ≡ default_chosen es
  unfolding chosen default_chosen contains
  map-chosen [] = refl
  map-chosen (e ∷ es) = elim (Bool-cases e.default) [
    | inl d ↦ rw (d, map-chosen es)
    | inr d ↦ rw (d, map-chosen es)
  ]

  -- DefaultCollectors returns the collectors that the registry marks as default, in its order.
  pub default_collectors_lem : default_collectors registry ≡ default_chosen registry
  unfolding default_collectors
  default_collectors_lem =
      ap (λ (r : List (NamedCollector A) × Option UnknownNames). map (λ n. n.collector) r.0)
        (resolve_collectors_lem [] [])
      ∙ map-chosen registry
