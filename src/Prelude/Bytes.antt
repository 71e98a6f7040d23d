-- ===== src/Prelude/Bytes.antt =====
-- The bytes of a text, and what package strings does with them: Cut and Split at one byte, and Join.
use Prim.Native.Nat.{ℕ}
use Prim.Native.Char.{code}
use Prim.Native.String.{String, ◌++◌ as ◌<>◌}
use Prim.Native.String.append
use mathlib.Core.Path.{◌≡◌, refl, ap, ◌∙◌}
use mathlib.Core.Logic.{◌≢◌}
use mathlib.Core.Bool.{Bool, true, false}
use mathlib.Core.Option.{Option, none, some}
use mathlib.Core.List.{List, [], ◌∷◌, ◌++◌}
use native.Mathlib.Omega.{arith}
use pgxporter.Prelude.Tests.{◌==◌, if◌then◌else◌}
use pgxporter.Prelude.Lists.{All}

abbrev pub Bytes : Type 0
Bytes = List ℕ

-- The bytes of an ASCII text.
unfoldable pub codes : String → Bytes
codes String.[] = []
codes (String.◌∷◌ c s) = code c ∷ codes s

pub codes-append : (s t : String) → codes (s <> t) ≡ codes s ++ codes t
unfolding codes
codes-append String.[] t = ap codes (append.nil t)
codes-append (String.◌∷◌ c s) t =
    ap codes (append.cons c s t) ∙ ap (λ r. code c ∷ r) (codes-append s t)

abbrev pub is_empty : Bytes → Bool
is_empty [] = true
is_empty (c ∷ s) = false

abbrev pub Lacks : ℕ → Bytes → Type 0
Lacks sep = All (λ c. c ≢ sep)

-- The parts with `sep` between them.
unfoldable pub join : Bytes → List Bytes → Bytes
join sep [] = []
join sep (p ∷ []) = p
join sep (p ∷ q ∷ ps) = p ++ (sep ++ join sep (q ∷ ps))

-- The byte before the first part.
unfoldable pub push : ℕ → List Bytes → List Bytes
push c [] = (c ∷ []) ∷ []
push c (p ∷ ps) = (c ∷ p) ∷ ps

module _ (sep : ℕ) where
  -- What stands before the first `sep`, and what stands behind it.
  unfoldable pub cut : Bytes → Bytes × Option Bytes
  cut [] = ([], none)
  cut (c ∷ s) = let (a, b) = cut s in if c == sep then ([], some s) else (c ∷ a, b)

  -- The same at the last `sep`.
  unfoldable pub cut_last : Bytes → Option (Bytes × Bytes)
  cut_last [] = none
  cut_last (c ∷ s) = elim (cut_last s) [
    | some (a, b) ↦ some (c ∷ a, b)
    | none ↦ if c == sep then some ([], s) else none
  ]

  unfoldable pub split : Bytes → List Bytes
  unfolding push
  split [] = [] ∷ []
  split (c ∷ s) = let rest = split s in if c == sep then [] ∷ rest else push c rest

  pub cut-append : (a b : Bytes) → Lacks sep a → cut (a ++ sep ∷ b) ≡ (a, some b)
  unfolding cut
  cut-append [] b h = ground arith
  cut-append (c ∷ a) b h = ground (arith, cut-append a b h.1)

  pub cut_lem : (a : Bytes) → Lacks sep a → cut a ≡ (a, none)
  unfolding cut
  cut_lem [] h = refl
  cut_lem (c ∷ a) h = ground (arith, cut_lem a h.1)

  cut_last-none : (a : Bytes) → Lacks sep a → cut_last a ≡ none
  unfolding cut_last
  cut_last-none [] h = refl
  cut_last-none (c ∷ a) h = ground (arith, cut_last-none a h.1)

  pub cut_last-append : (a b : Bytes) → Lacks sep b → cut_last (a ++ sep ∷ b) ≡ some (a, b)
  unfolding cut_last
  cut_last-append [] b h = ground (arith, cut_last-none b h)
  cut_last-append (c ∷ a) b h = rw (cut_last-append a b h) refl

  split_lem : (p : Bytes) → Lacks sep p → split p ≡ p ∷ []
  unfolding split
  split_lem [] h = refl
  split_lem (c ∷ p) h = rw (split_lem p h.1) (ground arith)

  split-append : (p s : Bytes) → Lacks sep p → split (p ++ sep ∷ s) ≡ p ∷ split s
  unfolding split
  split-append [] s h = ground arith
  split-append (c ∷ p) s h = rw (split-append p s h.1) (ground arith)

  pub split-join :
      (ps : List Bytes) → ps ≢ [] → All (Lacks sep) ps → split (join (sep ∷ []) ps) ≡ ps
  unfolding join
  split-join [] n h = absurd (n refl)
  split-join (p ∷ []) n h = split_lem p h.0
  split-join (p ∷ q ∷ ps) n h =
      rw (split-append p (join (sep ∷ []) (q ∷ ps)) h.0, split-join (q ∷ ps) (λ e. cc e) h.1) refl
