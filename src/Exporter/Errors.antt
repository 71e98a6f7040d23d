-- ===== src/Exporter/Errors.antt =====
-- exporter/exporter.go: the error counters of the self-metrics.
use pgxporter.Prelude.{
  ℕ, suc, ◌+◌, String, ◌≡◌, ◌≢◌, refl, ap, ◌∙◌, inl, inr, true, Option, none, some, List, [], ◌∷◌,
  arith, str_eq, eq_iff, if◌then◌else◌, Bool-cases,
}
use pgxporter.Vec.{lookup}
use pgxporter.Vec.Keys.{lookup-insert}
use pgxporter.Registry.{contains}
use pgxporter.Exporter.{SelfMetrics, or_else, inc, touch, pre_initialise, count_error}

-- The value of an error counter.
unfoldable pub errors_of : String → SelfMetrics → ℕ
errors_of name s = or_else 0 (lookup name s.scrape_errors)

-- 1 for an error under this name.
unfoldable pub failed_once : String → String → Option String → ℕ
failed_once name n none = 0
failed_once name n (some e) = if str_eq n name then 1 else 0

inc-or_else :
    (n name : String) (m : List (String × ℕ))
    → or_else 0 (lookup name (inc n m))
      ≡ or_else 0 (lookup name m) + (if str_eq n name then 1 else 0)
unfolding inc
inc-or_else n name m = elim (Bool-cases (str_eq n name)) [
  | inl e ↦
      rw (lookup-insert n name (suc (or_else 0 (lookup n m))) m, e)
        (ap (λ k. suc (or_else 0 (lookup k m))) ((eq_iff n name).0 e) ∙ ground arith)
  | inr e ↦ rw (lookup-insert n name (suc (or_else 0 (lookup n m))) m, e) (ground arith)
]

pub count_error-or_else :
    (n name : String) (e : Option String) (m : List (String × ℕ))
    → or_else 0 (lookup name (count_error n e m)) ≡ or_else 0 (lookup name m) + failed_once name n e
unfolding count_error failed_once
count_error-or_else n name none m = ground arith
count_error-or_else n name (some e) m = inc-or_else n name m

touch-or_else :
    (n name : String) (m : List (String × ℕ))
    → or_else 0 (lookup name (touch n m)) ≡ or_else 0 (lookup name m)
unfolding touch
touch-or_else n name m = elim (Bool-cases (str_eq n name)) [
  | inl e ↦
      rw (lookup-insert n name (or_else 0 (lookup n m)) m, e)
        (ap (λ k. or_else 0 (lookup k m)) ((eq_iff n name).0 e))
  | inr e ↦ rw (lookup-insert n name (or_else 0 (lookup n m)) m, e) refl
]

pub pre_initialise-or_else :
    (ns : List String) (name : String) (m : List (String × ℕ))
    → or_else 0 (lookup name (pre_initialise ns m)) ≡ or_else 0 (lookup name m)
unfolding pre_initialise
pre_initialise-or_else [] name m = refl
pre_initialise-or_else (n ∷ ns) name m =
    pre_initialise-or_else ns name (touch n m) ∙ touch-or_else n name m

pre_initialise-keeps :
    (ns : List String) (name : String) (m : List (String × ℕ))
    → lookup name m ≢ none
    → lookup name (pre_initialise ns m) ≢ none
unfolding pre_initialise touch
pre_initialise-keeps [] name m h = h
pre_initialise-keeps (n ∷ ns) name m h =
    pre_initialise-keeps ns name (touch n m) (elim (Bool-cases (str_eq n name)) [
      | inl e ↦ rw (lookup-insert n name (or_else 0 (lookup n m)) m, e) (λ k. cc k)
      | inr e ↦ rw (lookup-insert n name (or_else 0 (lookup n m)) m, e) h
    ])

pub pre_initialise-there :
    (ns : List String) (name : String) (m : List (String × ℕ))
    → contains ns name ≡ true
    → lookup name (pre_initialise ns m) ≢ none
unfolding pre_initialise contains touch
pre_initialise-there [] name m h = cc
pre_initialise-there (n ∷ ns) name m h = elim (Bool-cases (str_eq n name)) [
  | inl e ↦
      pre_initialise-keeps ns name (touch n m)
        (rw (lookup-insert n name (or_else 0 (lookup n m)) m, e) (λ k. cc k))
  | inr e ↦ pre_initialise-there ns name (touch n m) (rw e at h)
]
