-- ===== src/Vec/Keys.antt =====
-- The keys under which counterDelta remembers values tell label values apart.
use Prim.Native.Char.{code, nul}
use text.Mathlib.TextLemmas.{nil-append, cons-append, cons-eq-cons}
use pgxporter.Prelude.{
  String, ◌<>◌, ◌≡◌, ◌≢◌, refl, sym, ap, ◌∙◌, List, [], ◌∷◌, All, arith, length, eq_iff,
  if◌then◌else◌, ltb, Bool, true, ◌&&◌, some, str_eq,
}
use pgxporter.Vec.{key_of, lookup, insert}

-- A text with no NUL, as PostgreSQL sends every text.
abbrev pub IsNulFree : String → Type 0
IsNulFree String.[] = Unit {0}
IsNulFree (String.◌∷◌ c s) = (c ≢ nul) × IsNulFree s

-- The same as a test.
unfoldable pub is_nul_free : String → Bool
is_nul_free String.[] = true
is_nul_free (String.◌∷◌ c s) = ltb 0 (code c) && is_nul_free s

pub is_nul_free-IsNulFree : (s : String) → is_nul_free s ≡ true → IsNulFree s
unfolding is_nul_free
is_nul_free-IsNulFree String.[] h = tt
is_nul_free-IsNulFree (String.◌∷◌ c s) h = (
  (λ e. let z : code c ≡ 0 = ap code e in ground (arith, z, h)),
  is_nul_free-IsNulFree s (ground (arith, h)),
)

module _ {ℓ} {V : Type ℓ} where
  -- What is found after an insertion: the new value under its key, the old one elsewhere.
  pub lookup-insert :
      (written read : String) (value : V) (entries : List (String × V))
      → lookup read (insert written value entries)
        ≡ (if str_eq written read then some value else lookup read entries)
  unfolding lookup insert
  lookup-insert written read value [] = refl
  lookup-insert written read value ((there, old) ∷ rest) = ground (
    arith,
    lookup-insert written read value rest,
    eq_iff there written,
    eq_iff there read,
    eq_iff written read,
  )

abbrev sep : String
sep = String.◌∷◌ nul String.[]

sep_lem : sep ≡ "\0"
sep_lem = refl

-- What follows a separator, with the separator in front.
cut : (t : String) → sep <> t ≡ String.◌∷◌ nul t
cut t = cons-append nul String.[] t ∙ ap (String.◌∷◌ nul) (nil-append t)

split :
    (s t a b : String)
    → IsNulFree s
    → IsNulFree t
    → s <> String.◌∷◌ nul a ≡ t <> String.◌∷◌ nul b
    → (s ≡ t) × (a ≡ b)
split String.[] String.[] a b hs ht e =
    (refl, (cons-eq-cons.0 (sym (nil-append _) ∙ e ∙ nil-append _)).1)
split String.[] (String.◌∷◌ d t) a b hs ht e =
    absurd (ht.0 (sym (cons-eq-cons.0 (sym (nil-append _) ∙ e ∙ cons-append d t _)).0))
split (String.◌∷◌ c s) String.[] a b hs ht e =
    absurd (hs.0 (cons-eq-cons.0 (sym (cons-append c s _) ∙ e ∙ nil-append _)).0)
split (String.◌∷◌ c s) (String.◌∷◌ d t) a b hs ht e =
    let both = cons-eq-cons.0 (sym (cons-append c s _) ∙ e ∙ cons-append d t _) in
    let rest = split s t a b hs.1 ht.1 both.1 in (cc (both.0, rest.0), rest.1)

-- Two lists of label values of the same length, without NUL, that have the same key in the map of
-- counterDelta are the same.
pub key_of_injective :
    (xs ys : List String)
    → length xs ≡ length ys
    → All IsNulFree xs
    → All IsNulFree ys
    → key_of xs ≡ key_of ys
    → xs ≡ ys
unfolding key_of
key_of_injective [] [] n hx hy e = refl
key_of_injective [] (y ∷ ys) n hx hy e = absurd (omega arith)
key_of_injective (x ∷ xs) [] n hx hy e = absurd (omega arith)
key_of_injective (x ∷ []) (y ∷ []) n hx hy e = ap (λ t. t ∷ []) e
key_of_injective (x ∷ []) (y ∷ z ∷ ys) n hx hy e = absurd (omega arith)
key_of_injective (x ∷ w ∷ xs) (y ∷ []) n hx hy e = absurd (omega arith)
key_of_injective (x ∷ w ∷ xs) (y ∷ z ∷ ys) n hx hy e =
    let both =
      split x y (key_of (w ∷ xs)) (key_of (z ∷ ys)) hx.0 hy.0
        (ap (◌<>◌ x) (sym (cut _)) ∙ e ∙ ap (◌<>◌ y) (cut _)) in
    cc (both.0, key_of_injective (w ∷ xs) (z ∷ ys) (omega arith) hx.1 hy.1 both.1)
