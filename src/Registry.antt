-- ===== src/Registry.antt =====
-- exporter/collectors/registry.go: the table of collectors and its enable/disable sets, and
-- DefaultCollectors of collector.go.
pub mod Resolution
pub mod Table
use Prim.Native.String.{compare}
use Prim.Native.Nat.{Ordering}
use pgxporter.Prelude.{
  String, Bool, true, false, not, ◌&&◌, Option, none, some, List, [], ◌∷◌, ◌++◌, map, str_eq,
  if◌then◌else◌,
}

-- collectorEntry; `A` is what the constructor makes.
pub record CollectorEntry {ℓ} (A : Type ℓ) : Type ℓ where
  pub name : String
  pub default : Bool
  pub new : A

pub record NamedCollector {ℓ} (A : Type ℓ) : Type ℓ where
  pub name : String
  pub collector : A

-- "unknown collector name(s): … (valid: …)"
pub record UnknownNames : Type 0 where
  pub unknown : List String
  pub valid : List String

-- m[name] of a map to bool, or the presence of a key
unfoldable pub contains : List String → String → Bool
contains [] name = false
contains (n ∷ ns) name = if str_eq n name then true else contains ns name

abbrev pub is_empty : List String → Bool
is_empty [] = true
is_empty (s ∷ ss) = false

-- sort.Strings
pub insert_sorted : String → List String → List String
insert_sorted s [] = s ∷ []
insert_sorted s (t ∷ ts) = elim (compare t s) [
  | Ordering.lt ↦ t ∷ insert_sorted s ts
  | _ ↦ s ∷ t ∷ ts
]

unfoldable pub sort : List String → List String
unfolding insert_sorted
sort [] = []
sort (s ∷ ss) = insert_sorted s (sort ss)

module _ {ℓ} {A : Type ℓ} (registry : List (CollectorEntry A)) where
  pub names : List String
  names = map (λ e. e.name) registry

  unfoldable pub available_collectors : List String
  unfolding names
  available_collectors = sort names

  -- The loop over the names of one set: the set, and the unknown names after those found before.
  pub validate : List String → List String → List String → List String × List String
  validate [] set unknown = (set, unknown)
  validate (name ∷ rest) set unknown =
      if contains names name
      then validate rest (name ∷ set) unknown
      else validate rest set (unknown ++ name ∷ [])

  -- The three tests in the loop over the registry.
  pub include : Bool → List String → List String → CollectorEntry A → Bool
  include explicit_enable enabled_set disabled_set e =
      let chosen = if explicit_enable then contains enabled_set e.name else e.default in
      if contains disabled_set e.name then false else chosen

  pub select : Bool → List String → List String → List (CollectorEntry A) → List (NamedCollector A)
  unfolding include
  select x en dis [] = []
  select x en dis (e ∷ es) =
      let rest = select x en dis es in
      if include x en dis e then record { name = e.name; collector = e.new } ∷ rest else rest

  unfoldable pub resolve_error : List String → Option UnknownNames
  unfolding available_collectors
  resolve_error [] = none
  resolve_error (u ∷ us) = some (record { unknown = u ∷ us; valid = available_collectors })

  unfoldable pub resolve_collectors :
      List String → List String → List (NamedCollector A) × Option UnknownNames
  unfolding validate select resolve_error contains names
  resolve_collectors enabled disabled =
      let (enabled_set, unknown) = validate enabled [] [] in
      let (disabled_set, unknown') = validate disabled [] unknown in
      (select (not (is_empty enabled)) enabled_set disabled_set registry, resolve_error unknown')

  unfoldable pub default_collectors : List A
  unfolding resolve_collectors
  default_collectors = map (λ n. n.collector) (resolve_collectors [] []).0
