-- ===== src/Prelude/Scan/ReadBack.antt =====
-- The verb %d of fmt.Sscanf reads back what is written for a number, and reads only ints.
use Prim.Native.Nat.{ℕ, zero, suc, ◌+◌, ◌*◌, ◌/◌, ◌%◌, ◌^◌, ◌<◌, ◌≤◌}
use mathlib.Core.Path.{◌≡◌, refl, sym, ap, ◌∙◌}
use mathlib.Core.Logic.{inl, inr}
use mathlib.Core.Bool.{true, false}
use mathlib.Core.Option.{Option, none, some}
use mathlib.Core.List.{[], ◌∷◌, ◌++◌}
use mathlib.Core.List.{append_assoc}
use native.Mathlib.Decide.{dec_lt}
use native.Mathlib.Omega.{arith}
use pgxporter.Prelude.Tests.{ltb, leb, ◌==◌, Bool-cases}
use pgxporter.Prelude.Int.{ℤ, pos, minus, IsInt64}
use pgxporter.Prelude.Decimal.{digit, digits, show_ℕ}
use pgxporter.Prelude.Bytes.{Bytes, codes, codes-append}
use pgxporter.Prelude.Scan.{
  is_digit, is_blank, skip_blanks, scan_digits, scan_number, above, below, scan_signed, scan_int,
}

digit_code : (d : ℕ) → d < 10 → codes (digit d) ≡ (b'0' + d) ∷ []
unfolding digit codes
digit_code zero h = refl
digit_code (suc zero) h = refl
digit_code (suc (suc zero)) h = refl
digit_code (suc (suc (suc zero))) h = refl
digit_code (suc (suc (suc (suc zero)))) h = refl
digit_code (suc (suc (suc (suc (suc zero))))) h = refl
digit_code (suc (suc (suc (suc (suc (suc zero)))))) h = refl
digit_code (suc (suc (suc (suc (suc (suc (suc zero))))))) h = refl
digit_code (suc (suc (suc (suc (suc (suc (suc (suc zero)))))))) h = refl
digit_code (suc (suc (suc (suc (suc (suc (suc (suc (suc zero))))))))) h = refl
digit_code (suc (suc (suc (suc (suc (suc (suc (suc (suc (suc d)))))))))) h = absurd (omega arith)

is_digit_code : (d : ℕ) → d < 10 → is_digit (b'0' + d) ≡ true
unfolding is_digit
is_digit_code d h = ground arith

-- No digit is at the front.
pub data EndsNumber : Bytes → Type 0 where
  at_end : EndsNumber []
  at_other : {c : ℕ} {s : Bytes} → is_digit c ≡ false → EndsNumber (c ∷ s)

scan_digits-end : (n : ℕ) (rest : Bytes) → EndsNumber rest → scan_digits n rest ≡ (n, rest)
unfolding scan_digits
scan_digits-end n [] h = refl
scan_digits-end n (c ∷ rest) (at_other h) = rw h refl

scan_last :
    (n d m : ℕ) (rest : Bytes)
    → d < 10
    → n * 10 + d ≡ m
    → scan_digits n ((b'0' + d) ∷ rest) ≡ scan_digits m rest
unfolding scan_digits
scan_last n d m rest h k = rw (is_digit_code d h) (ap (λ m. scan_digits m rest) (ground arith))

digits_last : (f n : ℕ) → n < 10 → codes (digits (suc f) n) ≡ (b'0' + n) ∷ []
unfolding digits
digits_last f n h = elim (Bool-cases (ltb n 10)) [
  | inl e ↦ rw e (digit_code n h)
  | inr e ↦ absurd (ground arith)
]

digits_tens :
    (f n : ℕ)
    → 10 ≤ n
    → codes (digits (suc f) n) ≡ codes (digits f (n / 10)) ++ (b'0' + n % 10) ∷ []
unfolding digits
digits_tens f n h = elim (Bool-cases (ltb n 10)) [
  | inl e ↦ absurd (ground arith)
  | inr e ↦ rw (e, codes-append, digit_code (n % 10) (omega arith)) refl
]

-- The digits of a number are read as that number.
scan_digits-digits :
    (f n : ℕ) (rest : Bytes)
    → n ≤ f
    → scan_digits 0 (codes (digits (suc f) n) ++ rest) ≡ scan_digits n rest
scan_digits-digits zero n rest h =
    rw (digits_last 0 n (omega arith)) (scan_last 0 n n rest (omega arith) (omega arith))
scan_digits-digits (suc f) n rest h = elim (dec_lt n 10) [
  | yes k ↦ rw (digits_last (suc f) n k) (scan_last 0 n n rest k (omega arith))
  | no k ↦
      rw (digits_tens (suc f) n (omega arith), append_assoc)
        (scan_digits-digits f (n / 10) ((b'0' + n % 10) ∷ rest) (omega arith)
          ∙ scan_last (n / 10) (n % 10) n rest (omega arith) (omega arith))
]

-- What is written for a number starts with a digit.
digits-first :
    (f n : ℕ)
    → n ≤ f
    → (c : ℕ) × (s : Bytes) × (codes (digits (suc f) n) ≡ c ∷ s) × (is_digit c ≡ true)
digits-first zero n h = (b'0' + n, [], digits_last 0 n (omega arith), is_digit_code n (omega arith))
digits-first (suc f) n h = elim (dec_lt n 10) [
  | yes k ↦ (b'0' + n, [], digits_last (suc f) n k, is_digit_code n k)
  | no k ↦
      let (c, s, e, d) = digits-first f (n / 10) (omega arith) in
      (
        c,
        s ++ (b'0' + n % 10) ∷ [],
        digits_tens (suc f) n (omega arith) ∙ ap (λ r. r ++ (b'0' + n % 10) ∷ []) e,
        d,
      )
]

digit-blank : (c : ℕ) → is_digit c ≡ true → is_blank c ≡ false
unfolding is_digit is_blank
digit-blank c h = ground arith

digit-minus : (c : ℕ) → is_digit c ≡ true → (c == b'-') ≡ false
unfolding is_digit
digit-minus c h = ground arith

digit-plus : (c : ℕ) → is_digit c ≡ true → (c == b'+') ≡ false
unfolding is_digit
digit-plus c h = ground arith

scan_int-digit :
    (c : ℕ) (s : Bytes)
    → is_digit c ≡ true
    → scan_int (c ∷ s) ≡ above (some (scan_digits 0 (c ∷ s)))
unfolding scan_int scan_number
scan_int-digit c s h = rw (digit-blank c h, digit-minus c h, digit-plus c h, h) refl

above_fits : (n : ℕ) (rest : Bytes) → n < 2 ^ 63 → above (some (n, rest)) ≡ some (pos n, rest)
unfolding above
above_fits n rest h = elim (Bool-cases (ltb n (2 ^ 63))) [
  | inl e ↦ rw e refl
  | inr e ↦ absurd (ground arith)
]

-- A number of an int that is written in front of no digit is read, and what stands behind it is left.
pub scan_int-show_ℕ :
    (n : ℕ) (rest : Bytes)
    → n < 2 ^ 63
    → EndsNumber rest
    → scan_int (codes (show_ℕ n) ++ rest) ≡ some (pos n, rest)
unfolding show_ℕ above
scan_int-show_ℕ n rest h k =
    let (c, s, e, d) = digits-first n n (omega arith) in
    ap (λ t. scan_int (t ++ rest)) e
    ∙ scan_int-digit c (s ++ rest) d
    ∙ ap (λ t. above (some (scan_digits 0 (t ++ rest)))) (sym e)
    ∙ ap (λ r. above (some r))
        (scan_digits-digits n n rest (omega arith) ∙ scan_digits-end n rest k)
    ∙ above_fits n rest h

abbrev pub HoldsInt64 : Option (ℤ × Bytes) → Type 0
HoldsInt64 none = Unit
HoldsInt64 (some (n, rest)) = IsInt64 n

above-HoldsInt64 : (r : Option (ℕ × Bytes)) → HoldsInt64 (above r)
unfolding above
above-HoldsInt64 none = tt
above-HoldsInt64 (some (n, rest)) = elim (Bool-cases (ltb n (2 ^ 63))) [
  | inl e ↦ rw e (ground arith)
  | inr e ↦ rw e tt
]

minus-IsInt64 : (n : ℕ) → n ≤ 2 ^ 63 → IsInt64 (minus n)
unfolding minus
minus-IsInt64 zero h = omega arith
minus-IsInt64 (suc n) h = omega arith

below-HoldsInt64 : (r : Option (ℕ × Bytes)) → HoldsInt64 (below r)
unfolding below
below-HoldsInt64 none = tt
below-HoldsInt64 (some (n, rest)) = elim (Bool-cases (leb n (2 ^ 63))) [
  | inl e ↦ rw e (minus-IsInt64 n (ground arith))
  | inr e ↦ rw e tt
]

scan_signed-HoldsInt64 : (s : Bytes) → HoldsInt64 (scan_signed s)
unfolding scan_signed
scan_signed-HoldsInt64 [] = tt
scan_signed-HoldsInt64 (c ∷ s) = elim (Bool-cases (c == b'-')) [
  | inl e ↦ rw e (below-HoldsInt64 (scan_number s))
  | inr e ↦ elim (Bool-cases (c == b'+')) [
    | inl f ↦ rw (e, f) (above-HoldsInt64 (scan_number s))
    | inr f ↦ rw (e, f) (above-HoldsInt64 (scan_number (c ∷ s)))
  ]
]

-- Only an int is read.
pub scan_int-HoldsInt64 : (s : Bytes) → HoldsInt64 (scan_int s)
unfolding scan_int
scan_int-HoldsInt64 s = scan_signed-HoldsInt64 (skip_blanks s)
