-- ===== src/Prelude/Url.antt =====
-- Package net/url, on bytes: QueryEscape, and how a URI is read back.
use Prim.Native.Nat.{ℕ, ◌+◌, ◌-◌, ◌*◌, ◌/◌, ◌%◌, ◌<◌}
use mathlib.Core.Path.{◌≡◌, refl, ap, ◌∙◌}
use mathlib.Core.Logic.{◌≢◌, inl, inr}
use mathlib.Core.Bool.{Bool, true, false, ◌&&◌, ◌||◌}
use mathlib.Core.Option.{Option, none, some}
use mathlib.Core.List.{[], ◌∷◌, ◌++◌}
use native.Mathlib.Omega.{arith}
use pgxporter.Prelude.Tests.{ltb, leb, ◌==◌, if◌then◌else◌, ◌>>=◌, Bool-cases}
use pgxporter.Prelude.Lists.{All, All-append}
use pgxporter.Prelude.Bytes.{Bytes, Lacks}

abbrev pub between : ℕ → ℕ → ℕ → Bool
between lo hi c = leb lo c && leb c hi

-- Letters, digits and "-_.~" are never escaped.
unfoldable pub is_unreserved : ℕ → Bool
is_unreserved c =
    between b'a' b'z' c
    || (between b'A' b'Z' c
        || (between b'0' b'9' c || (c == b'-' || (c == b'_' || (c == b'.' || c == b'~')))))

unfoldable pub hex_digit : ℕ → ℕ
hex_digit n = if ltb n 10 then b'0' + n else b'A' + n - 10

unfoldable pub escape_byte : ℕ → Bytes
unfolding is_unreserved hex_digit
escape_byte c =
    if is_unreserved c
    then c ∷ []
    else if c == b' '
    then b'+' ∷ []
    else b'%' ∷ hex_digit (c / 16) ∷ hex_digit (c % 16) ∷ []

unfoldable pub query_escape : Bytes → Bytes
unfolding escape_byte
query_escape [] = []
query_escape (c ∷ s) = escape_byte c ++ query_escape s

unfoldable pub unhex : ℕ → Option ℕ
unhex c =
    if between b'0' b'9' c
    then some (c - b'0')
    else if between b'a' b'f' c
    then some (c - b'a' + 10)
    else if between b'A' b'F' c
    then some (c - b'A' + 10)
    else none

-- Where the reader stands: in the text, behind a percent sign, or behind its first digit.
pub data Mode : Type 0 where
  plain percent : Mode
  half : ℕ → Mode

-- A plus is a space in a query, and a plus elsewhere.
abbrev pub unplus : Bool → ℕ → ℕ
unplus in_query c = if in_query && c == b'+' then b' ' else c

abbrev pub prepend : ℕ → Option Bytes → Option Bytes
prepend c none = none
prepend c (some r) = some (c ∷ r)

unfoldable pub unescape_from : Bool → Mode → Bytes → Option Bytes
unfolding unhex
unescape_from q plain [] = some []
unescape_from q percent [] = none
unescape_from q (half d) [] = none
unescape_from q plain (c ∷ s) =
    let escaped = unescape_from q percent s in
    let rest = unescape_from q plain s in if c == b'%' then escaped else prepend (unplus q c) rest
unescape_from q percent (c ∷ s) = do d ← unhex c; unescape_from q (half d) s
unescape_from q (half d) (c ∷ s) = do e ← unhex c; prepend (16 * d + e) (unescape_from q plain s)

-- QueryUnescape, and the unescape of a user, a password and a path.
abbrev pub query_unescape : Bytes → Option Bytes
query_unescape = unescape_from true plain

abbrev pub unescape : Bytes → Option Bytes
unescape = unescape_from false plain

-- What reading makes of a byte that QueryEscape wrote: outside a query a space comes back as a plus.
abbrev pub read_back : Bool → ℕ → ℕ
read_back q c = if q then c else if c == b' ' then b'+' else c

abbrev pub IsByte : ℕ → Type 0
IsByte c = c < 256

unhex-hex_digit : (n : ℕ) → n < 16 → unhex (hex_digit n) ≡ some n
unfolding unhex hex_digit
unhex-hex_digit n h = ground arith

unreserved-plain : (c : ℕ) → is_unreserved c ≡ true → (c ≢ b'%') × (c ≢ b'+') × (c ≢ b' ')
unfolding is_unreserved
unreserved-plain c h = ground arith

module _ (q : Bool) where
  pub unescape_from-plain :
      (c : ℕ) (s : Bytes)
      → c ≢ b'%'
      → unescape_from q plain (c ∷ s) ≡ prepend (unplus q c) (unescape_from q plain s)
  unfolding unescape_from
  unescape_from-plain c s h = ground arith

  pub unescape_from-percent :
      (a b d e : ℕ) (s : Bytes)
      → unhex a ≡ some d
      → unhex b ≡ some e
      → unescape_from q plain (b'%' ∷ a ∷ b ∷ s) ≡ prepend (16 * d + e) (unescape_from q plain s)
  unfolding unescape_from
  unescape_from-percent a b d e s h k = rw (h, k) refl

  pub unescape_from-escape_byte :
      (c : ℕ) (rest : Bytes)
      → IsByte c
      → unescape_from q plain (escape_byte c ++ rest)
        ≡ prepend (read_back q c) (unescape_from q plain rest)
  unfolding escape_byte
  unescape_from-escape_byte c rest h = elim (Bool-cases (is_unreserved c)) [
    | inl u ↦
        let (a, b, d) = unreserved-plain c u in
        rw u (
          unescape_from-plain c rest a
          ∙ ap (λ (k : ℕ). prepend k (unescape_from q plain rest)) (ground arith))
    | inr r ↦ elim (Bool-cases (c == b' ')) [
      | inl s ↦
          rw (r, s)
            (unescape_from-plain b'+' rest (λ e. cc e)
              ∙ ap (λ (k : ℕ). prepend k (unescape_from q plain rest)) (ground arith))
      | inr n ↦
          rw (r, n)
            (unescape_from-percent (hex_digit (c / 16)) (hex_digit (c % 16)) (c / 16) (c % 16) rest
                (unhex-hex_digit (c / 16) (omega arith)) (unhex-hex_digit (c % 16) (omega arith))
              ∙ ap (λ (k : ℕ). prepend k (unescape_from q plain rest)) (ground arith))
    ]
  ]

-- The bytes that QueryEscape writes, and a backslash.
abbrev pub IsSafe : ℕ → Type 0
IsSafe c = (is_unreserved c || (c == b'%' || (c == b'+' || c == b'\\'))) ≡ true

hex_digit-IsSafe : (n : ℕ) → n < 16 → IsSafe (hex_digit n)
unfolding is_unreserved hex_digit
hex_digit-IsSafe n h = ground arith

escape_byte-IsSafe : (c : ℕ) → IsByte c → All IsSafe (escape_byte c)
unfolding escape_byte
escape_byte-IsSafe c h = elim (Bool-cases (is_unreserved c)) [
  | inl u ↦ rw u (rw u, tt)
  | inr r ↦ elim (Bool-cases (c == b' ')) [
    | inl s ↦ rw (r, s) (unfold is_unreserved in refl, tt)
    | inr n ↦
        rw (r, n)
          (
            unfold is_unreserved in refl,
            (
              hex_digit-IsSafe (c / 16) (omega arith),
              (hex_digit-IsSafe (c % 16) (omega arith), tt),
            ),
          )
  ]
]

pub query_escape-IsSafe : (s : Bytes) → All IsByte s → All IsSafe (query_escape s)
unfolding query_escape
query_escape-IsSafe [] h = tt
query_escape-IsSafe (c ∷ s) h =
    All-append IsSafe (escape_byte c) (query_escape s) (escape_byte-IsSafe c h.0)
      (query_escape-IsSafe s h.1)

-- A delimiter of URIs.
unfoldable pub is_delimiter : ℕ → Bool
is_delimiter c =
    c == b':'
    || (c == b'/'
        || (c == b'?' || (c == b'#' || (c == b'@' || (c == b'&' || (c == b'=' || c == b';'))))))

safe-ne-delimiter : (c d : ℕ) → is_delimiter d ≡ true → IsSafe c → c ≢ d
unfolding is_delimiter is_unreserved
safe-ne-delimiter c d h s e = ground arith

pub safe-Lacks : (d : ℕ) (s : Bytes) → is_delimiter d ≡ true → All IsSafe s → Lacks d s
safe-Lacks d [] h a = tt
safe-Lacks d (c ∷ s) h a = (safe-ne-delimiter c d h a.0, safe-Lacks d s h a.1)
