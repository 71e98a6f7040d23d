-- ===== src/Spec/Encodings.antt =====
-- exporter/collectors/spec_yaml.go: the encodings of min_pg_version.
use pgxporter.Prelude.{
  ℕ, ◌^◌, ◌<◌, ◌≡◌, ◌≢◌, refl, subst, ◌∙◌, ◌⊎◌, inl, inr, false, none, some, String, [], ◌∷◌, ◌++◌,
  arith, ◌==◌, Bool-cases, Option-cases,
}
use pgxporter.Prelude.Int.{ℤ, pos, IsInt64}
use pgxporter.Prelude.Decimal.{show_ℕ}
use pgxporter.Prelude.Bytes.{Bytes, codes}
use pgxporter.Prelude.Scan.{scan_int, is_digit}
use pgxporter.Prelude.Scan.ReadBack.{
  EndsNumber, at_end, at_other, HoldsInt64, scan_int-show_ℕ, scan_int-HoldsInt64,
}
use pgxporter.Spec.Yaml.{
  accepted, refused, sequence, scalar, scan_minor, scan_major_minor, scan_major, unmarshal_yaml,
}

-- No minor version is at the front: the text ends, or goes on with neither a digit nor a point.
pub data LacksMinor : Bytes → Type 0 where
  ends : LacksMinor []
  goes_on : {c : ℕ} {s : Bytes} → is_digit c ≡ false → c ≢ b'.' → LacksMinor (c ∷ s)

LacksMinor-EndsNumber : (s : Bytes) → LacksMinor s → EndsNumber s
LacksMinor-EndsNumber [] ends = at_end
LacksMinor-EndsNumber (c ∷ s) (goes_on d h) = at_other d

scan_minor-LacksMinor : (major : ℤ) (s : Bytes) → LacksMinor s → scan_minor major s ≡ none
unfolding scan_minor
scan_minor-LacksMinor major [] ends = refl
scan_minor-LacksMinor major (c ∷ s) (goes_on d h) = elim (Bool-cases (c == b'.')) [
  | inl e ↦ absurd (h (ground arith))
  | inr e ↦ rw e refl
]

point-EndsNumber : (s : Bytes) → EndsNumber (b'.' ∷ s)
unfolding is_digit
point-EndsNumber s = at_other refl

scan_int-minor :
    (s : Bytes) (major : ℤ) (rest : Bytes)
    → scan_int s ≡ some (major, rest)
    → scan_major_minor s ≡ scan_minor major rest
unfolding scan_major_minor
scan_int-minor s major rest e = rw (e, scan_major_minor) refl

scan_int-major :
    (s : Bytes) (major : ℤ) (rest : Bytes)
    → scan_int s ≡ some (major, rest)
    → scan_major s ≡ some (major, pos 0)
unfolding scan_major
scan_int-major s major rest e = rw (e, scan_major) refl

scan_minor-read :
    (major minor : ℤ) (s rest : Bytes)
    → scan_int s ≡ some (minor, rest)
    → scan_minor major (b'.' ∷ s) ≡ some (major, minor)
unfolding scan_minor
scan_minor-read major minor s rest e = rw (e, scan_minor) refl

scan_int-no_minor : (s : Bytes) → scan_int s ≡ none → scan_major_minor s ≡ none
unfolding scan_major_minor
scan_int-no_minor s e = rw (e, scan_major_minor) refl

scan_int-no_major : (s : Bytes) → scan_int s ≡ none → scan_major s ≡ none
unfolding scan_major
scan_int-no_major s e = rw (e, scan_major) refl

-- A version of two ints whose major is at the front of the text.
pub record IsVersion (s : Bytes) (version : ℤ × ℤ) : Type 0 where
  pub major : IsInt64 version.0
  pub minor : IsInt64 version.1
  pub front : (rest : Bytes) × (scan_int s ≡ some (version.0, rest))

scan_int-IsInt64 : (s : Bytes) (n : ℤ) (rest : Bytes) → scan_int s ≡ some (n, rest) → IsInt64 n
scan_int-IsInt64 s n rest e = subst HoldsInt64 e (scan_int-HoldsInt64 s)

scan_minor-cases :
    (major : ℤ) (s : Bytes)
    → (scan_minor major s ≡ none)
      ⊎ ((minor : ℤ) × (scan_minor major s ≡ some (major, minor)) × IsInt64 minor)
unfolding scan_minor
scan_minor-cases major [] = inl refl
scan_minor-cases major (c ∷ s) = elim (Bool-cases (c == b'.')) [
  | inr e ↦ inl (rw e refl)
  | inl e ↦ elim (Option-cases (scan_int s)) [
    | inl f ↦ inl (rw (e, f) refl)
    | inr ((minor, rest), f) ↦ inr (minor, rw (e, f) refl, scan_int-IsInt64 s minor rest f)
  ]
]

module _ (complaint : Bytes → String) where
  reads_both :
      (s : Bytes) (version : ℤ × ℤ)
      → scan_major_minor s ≡ some version
      → unmarshal_yaml complaint (scalar (accepted s)) ≡ accepted version
  unfolding unmarshal_yaml
  reads_both s version e = rw (e, unmarshal_yaml) refl

  reads_major :
      (s : Bytes) (version : ℤ × ℤ)
      → scan_major_minor s ≡ none
      → scan_major s ≡ some version
      → unmarshal_yaml complaint (scalar (accepted s)) ≡ accepted version
  unfolding unmarshal_yaml
  reads_major s version e f = rw (e, f, unmarshal_yaml) refl

  reads_neither :
      (s : Bytes)
      → scan_int s ≡ none
      → unmarshal_yaml complaint (scalar (accepted s)) ≡ refused (complaint s)
  unfolding unmarshal_yaml
  reads_neither s e = rw (scan_int-no_minor s e, scan_int-no_major s e, unmarshal_yaml) refl

  -- For a major and a minor version below 2 ^ 63, UnmarshalYAML reads the text major.minor, with
  -- anything behind it that starts with no digit, as the pair of the two, and the text of the major
  -- alone, with anything behind it that starts with neither a digit nor a point, as the pair of the
  -- major and 0.
  pub unmarshal_yaml-encodings :
      (major minor : ℕ) (rest junk : Bytes)
      → major < 2 ^ 63
      → minor < 2 ^ 63
      → EndsNumber rest
      → LacksMinor junk
      → (unmarshal_yaml complaint
            (scalar (accepted (codes (show_ℕ major) ++ b'.' ∷ (codes (show_ℕ minor) ++ rest))))
          ≡ unmarshal_yaml complaint (sequence (accepted (pos major, pos minor))))
        × (unmarshal_yaml complaint (scalar (accepted (codes (show_ℕ major) ++ junk)))
            ≡ unmarshal_yaml complaint (sequence (accepted (pos major, pos 0))))
  unfolding unmarshal_yaml
  unmarshal_yaml-encodings major minor rest junk h k e l =
      let behind = codes (show_ℕ minor) ++ rest in
      let both = codes (show_ℕ major) ++ b'.' ∷ behind in
      let bare = codes (show_ℕ major) ++ junk in
      let read = scan_int-show_ℕ major (b'.' ∷ behind) h (point-EndsNumber behind) in
      let read_bare = scan_int-show_ℕ major junk h (LacksMinor-EndsNumber junk l) in
      (
        reads_both both (pos major, pos minor)
            (scan_int-minor both (pos major) (b'.' ∷ behind) read
              ∙ scan_minor-read (pos major) (pos minor) behind rest
                  (scan_int-show_ℕ minor rest k e)),
        reads_major bare (pos major, pos 0)
            (scan_int-minor bare (pos major) junk read_bare
              ∙ scan_minor-LacksMinor (pos major) junk l)
            (scan_int-major bare (pos major) junk read_bare),
      )

  -- UnmarshalYAML refuses a text that has no int at the front, and reads every other one as two
  -- numbers that an int64 holds, the major being the int at the front.
  pub unmarshal_yaml-outcome :
      (s : Bytes)
      → ((unmarshal_yaml complaint (scalar (accepted s)) ≡ refused (complaint s))
          × (scan_int s ≡ none))
        ⊎ ((version : ℤ × ℤ) × (unmarshal_yaml complaint (scalar (accepted s)) ≡ accepted version)
            × IsVersion s version)
  unmarshal_yaml-outcome s = elim (Option-cases (scan_int s)) [
    | inl e ↦ inl (reads_neither s e, e)
    | inr ((major, rest), e) ↦ elim (scan_minor-cases major rest) [
      | inl f ↦ inr (
        (major, pos 0),
        reads_major s (major, pos 0) (scan_int-minor s major rest e ∙ f)
            (scan_int-major s major rest e),
        record { major = scan_int-IsInt64 s major rest e; minor = omega arith; front = (rest, e) },
      )
      | inr (minor, f, h) ↦ inr (
        (major, minor),
        reads_both s (major, minor) (scan_int-minor s major rest e ∙ f),
        record { major = scan_int-IsInt64 s major rest e; minor = h; front = (rest, e) },
      )
    ]
  ]
