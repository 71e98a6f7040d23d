-- ===== src/Db/Dsn/Reads.antt =====
-- exporter/db/dsn.go: texts that net/url reads as others, whatever follows.
use pgxporter.Prelude.{
  ℕ, ◌≡◌, ◌≢◌, refl, ap, sym, ◌∙◌, Bool, true, Option, none, some, List, [], ◌∷◌, ◌++◌, map,
  append-nil, append_assoc, All, arith,
}
use pgxporter.Prelude.Bytes.{Bytes, join}
use pgxporter.Prelude.Url.{
  plain, unescape_from, unescape_from-plain, unescape_from-escape_byte, query_escape, escape_byte,
  read_back, unplus, prepend, IsByte,
}

-- What is read, behind a text that is read already.
abbrev behind : Bytes → Option Bytes → Option Bytes
behind x none = none
behind x (some r) = some (x ++ r)

behind-nil : (o : Option Bytes) → o ≡ behind [] o
behind-nil none = refl
behind-nil (some r) = refl

behind-behind : (x y : Bytes) (o : Option Bytes) → behind x (behind y o) ≡ behind (x ++ y) o
behind-behind x y none = refl
behind-behind x y (some r) = ap some (sym (append_assoc x y r))

behind-prepend : (c : ℕ) (x : Bytes) (o : Option Bytes) → prepend c (behind x o) ≡ behind (c ∷ x) o
behind-prepend c x none = refl
behind-prepend c x (some r) = refl

pub prepend-behind : (c : ℕ) (o : Option Bytes) → prepend c o ≡ behind (c ∷ []) o
prepend-behind c none = refl
prepend-behind c (some r) = refl

module _ (q : Bool) where
  -- `a` is read as `x`.
  abbrev pub Reads : Bytes → Bytes → Type 0
  Reads a x =
      (rest : Bytes) → unescape_from q plain (a ++ rest) ≡ behind x (unescape_from q plain rest)

  Reads-nil : Reads [] []
  Reads-nil rest = behind-nil (unescape_from q plain rest)

  pub Reads-append : (a b x y : Bytes) → Reads a x → Reads b y → Reads (a ++ b) (x ++ y)
  Reads-append a b x y h k rest =
      ap (unescape_from q plain) (append_assoc a b rest)
      ∙ h (b ++ rest)
      ∙ ap (behind x) (k rest)
      ∙ behind-behind x y (unescape_from q plain rest)

  pub Reads-query_escape : (s : Bytes) → All IsByte s → Reads (query_escape s) (map (read_back q) s)
  unfolding query_escape
  Reads-query_escape [] h rest = Reads-nil rest
  Reads-query_escape (c ∷ s) h rest =
      ap (unescape_from q plain) (append_assoc (escape_byte c) (query_escape s) rest)
      ∙ unescape_from-escape_byte q c (query_escape s ++ rest) h.0
      ∙ ap (prepend (read_back q c)) (Reads-query_escape s h.1 rest)
      ∙ behind-prepend (read_back q c) (map (read_back q) s) (unescape_from q plain rest)

  -- Neither a percent sign nor a plus.
  abbrev pub IsLiteral : ℕ → Type 0
  IsLiteral c = (c ≢ b'%') × (c ≢ b'+')

  literal_unplus : (c : ℕ) → IsLiteral c → unplus q c ≡ c
  literal_unplus c h = ground arith

  pub Reads-literal : (s : Bytes) → All IsLiteral s → Reads s s
  Reads-literal [] h rest = Reads-nil rest
  Reads-literal (c ∷ s) h rest =
      unescape_from-plain q c (s ++ rest) h.0.0
      ∙ ap (λ (k : ℕ). prepend k (unescape_from q plain (s ++ rest))) (literal_unplus c h.0)
      ∙ ap (prepend c) (Reads-literal s h.1 rest)
      ∙ behind-prepend c s (unescape_from q plain rest)

  pub Reads-join :
      {A : Type 0} (f g : A → Bytes) (sep t : Bytes) (xs : List A)
      → Reads sep t
      → All (λ x. Reads (f x) (g x)) xs
      → Reads (join sep (map f xs)) (join t (map g xs))
  unfolding join
  Reads-join f g sep t [] h k = Reads-nil
  Reads-join f g sep t (x ∷ []) h k = k.0
  Reads-join f g sep t (x ∷ y ∷ xs) h k =
      Reads-append (f x) (sep ++ join sep (map f (y ∷ xs))) (g x) (t ++ join t (map g (y ∷ xs))) k.0
        (Reads-append sep (join sep (map f (y ∷ xs))) t (join t (map g (y ∷ xs))) h
          (Reads-join f g sep t (y ∷ xs) h k.1))

  pub Reads-all : (a x : Bytes) → Reads a x → unescape_from q plain a ≡ some x
  unfolding unescape_from
  Reads-all a x h = ap (unescape_from q plain) (sym (append-nil a)) ∙ h [] ∙ ap some (append-nil x)

pub map-read_back : (s : Bytes) → map (read_back true) s ≡ s
map-read_back [] = refl
map-read_back (c ∷ s) = ap (λ r. c ∷ r) (map-read_back s)
