-- ===== src/Prometheus/Model.antt =====
-- An instance of the client library's interface over the integers, at which the theorems that take
-- the interface as a parameter are applied.
use pgxporter.Prelude.{
  suc, ◌/◌, String, ◌≡◌, ◌≢◌, refl, Bool, true, false, Option, none, some, List, [], ◌∷◌, length,
  same, same_refl, eq_of_same, arith, ◌==◌, if◌then◌else◌,
}
use pgxporter.Prelude.Int.{ℤ, pos, negsuc, pos_part, ltb_ℤ, ◌+ℤ◌, ◌-ℤ◌, ◌*ℤ◌, zero_+ℤ, +ℤ_sub}
use pgxporter.Prometheus.{Desc, Prom, PromLaws, or_zero}

-- The children of a vec, newest first.
pub record Children : Type 0 where
  pub desc : Desc
  pub entries : List (List String × ℤ)

unfoldable pub find : List String → List (List String × ℤ) → Option ℤ
find ls [] = none
find ls ((js, x) ∷ r) = if same js ls then some x else find ls r

unfoldable pub remove : List String → List (List String × ℤ) → List (List String × ℤ)
remove ls [] = []
remove ls ((js, x) ∷ r) = let rest = remove ls r in if same js ls then rest else (js, x) ∷ rest

find-remove :
    (ls js : List String) (r : List (List String × ℤ))
    → find js (remove ls r) ≡ (if same ls js then none else find js r)
unfolding find remove
find-remove ls js [] = ground arith
find-remove ls js ((ks, x) ∷ r) = ground (
  arith,
  find-remove ls js r,
  eq_of_same ks ls,
  eq_of_same ks js,
  eq_of_same ls js,
  same_refl ks,
  same_refl js,
)

abbrev with_value : Children → List String → ℤ → Children
with_value v ls x = record v { entries = (ls, x) ∷ remove ls v.entries }

-- the number of label values is that of the names
arity_ok : Children → List String → Bool
arity_ok v ls = length ls == length v.desc.labels

abbrev child_or_zero : Option ℤ → ℤ
child_or_zero none = pos 0
child_or_zero (some x) = x

unfoldable pub add_child : Children → List String → ℤ → Option Children
unfolding arity_ok find remove
add_child v ls x =
    if arity_ok v ls
    then (if ltb_ℤ x (pos 0)
        then none
        else some (with_value v ls (child_or_zero (find ls v.entries) +ℤ x)))
    else none

unfoldable pub set_child : Children → List String → ℤ → Option Children
unfolding arity_ok remove
set_child v ls x = if arity_ok v ls then some (with_value v ls x) else none

abbrev pub trunc_div : ℤ → ℤ → ℤ
trunc_div (pos a) b = pos (a / pos_part b)
trunc_div (negsuc a) b = pos 0 -ℤ pos (suc a / pos_part b)

abbrev pub prom_ℤ : Prom
prom_ℤ = record {
  Num = ℤ;
  zero = pos 0;
  thousand = pos 1000;
  of_ℤ = λ z. z;
  add = ◌+ℤ◌;
  sub = ◌-ℤ◌;
  mul = ◌*ℤ◌;
  div = trunc_div;
  lt = ltb_ℤ;
  is_zero = λ z. if ltb_ℤ z (pos 0) then false else if ltb_ℤ (pos 0) z then false else true;
  CounterVec = Children;
  new_counter_vec = λ d. record { desc = d; entries = [] };
  counter_desc = λ v. v.desc;
  counter_add = add_child;
  counter_delete = λ v ls. record v { entries = remove ls v.entries };
  counter_value = λ v ls. find ls v.entries;
  GaugeVec = Children;
  new_gauge_vec = λ d. record { desc = d; entries = [] };
  gauge_desc = λ v. v.desc;
  gauge_set = set_child;
  gauge_value = λ v ls. find ls v.entries;
}

find-with_value :
    (v : Children) (ls js : List String) (x : ℤ)
    → find js (with_value v ls x).entries ≡ (if same ls js then some x else find js v.entries)
unfolding find
find-with_value v ls js x = ground (arith, find-remove ls js v.entries)

sub_nonneg : (x y : ℤ) → ltb_ℤ y x ≡ false → ltb_ℤ (y -ℤ x) (pos 0) ≡ false
unfolding ◌-ℤ◌
sub_nonneg x y h = ground arith

module _ (v w : Children) (ls js : List String) (x : ℤ) where
  add_child-value :
      add_child v ls x ≡ some w
      → find js w.entries
        ≡ (if same ls js then some (child_or_zero (find ls v.entries) +ℤ x) else find js v.entries)
  unfolding add_child
  add_child-value h =
      ground (arith, find-with_value v ls js (child_or_zero (find ls v.entries) +ℤ x))

  set_child-value :
      set_child v ls x ≡ some w
      → find js w.entries ≡ (if same ls js then some x else find js v.entries)
  unfolding set_child
  set_child-value h = ground (arith, find-with_value v ls js x)

or_zero-child : (o : Option ℤ) → or_zero prom_ℤ o ≡ child_or_zero o
or_zero-child none = refl
or_zero-child (some x) = refl

module _ (v : Children) (ls : List String) (x : ℤ) where
  add_child-total :
      length ls ≡ length v.desc.labels → ltb_ℤ x (pos 0) ≡ false → add_child v ls x ≢ none
  unfolding add_child
  add_child-total a h = ground arith

  add_child-negative : ltb_ℤ x (pos 0) ≡ true → add_child v ls x ≡ none
  unfolding add_child
  add_child-negative h = ground arith

  set_child-total : length ls ≡ length v.desc.labels → set_child v ls x ≢ none
  unfolding set_child
  set_child-total a = ground arith

  add_child-desc : (w : Children) → add_child v ls x ≡ some w → w.desc ≡ v.desc
  unfolding add_child
  add_child-desc w h = ground arith

  set_child-desc : (w : Children) → set_child v ls x ≡ some w → w.desc ≡ v.desc
  unfolding set_child
  set_child-desc w h = ground arith

find-nil : (ls : List String) → find ls [] ≡ none
unfolding find
find-nil ls = refl

pub laws_ℤ : PromLaws prom_ℤ
laws_ℤ = record {
  Exact = λ z. Unit {0};
  zero-add = λ x _. zero_+ℤ x;
  add-sub = λ x y _ _. +ℤ_sub x y;
  of_ℤ-Exact = λ n _. tt;
  of_ℤ-nonneg = λ n. ground arith;
  sub-nonneg = sub_nonneg;
  counter_desc-new = λ d. refl;
  counter_value-new = λ d ls. find-nil ls;
  counter_add-total = add_child-total;
  counter_add-negative = add_child-negative;
  counter_desc-add = λ v w ls x. add_child-desc v ls x w;
  counter_value-add =
      λ v w ls js x h. rw (or_zero-child (find ls v.entries)) (add_child-value v w ls js x h);
  counter_desc-delete = λ v ls. refl;
  counter_value-delete = λ v ls js. find-remove ls js v.entries;
  gauge_desc-new = λ d. refl;
  gauge_value-new = λ d ls. find-nil ls;
  gauge_set-total = set_child-total;
  gauge_desc-set = λ v w ls x. set_child-desc v ls x w;
  gauge_value-set = set_child-value;
}
