-- ===== src/Db/Dsn/Words.antt =====
-- exporter/db/dsn.go: the words of strings.Fields, and decimal numbers.
use pgxporter.Prelude.{
  ℕ, zero, suc, ◌/◌, ◌%◌, ◌≡◌, refl, inl, inr, Bool, true, false, String, List, [], ◌∷◌, ◌++◌, All,
  All-append, ◌==◌, ltb, Bool-cases, if◌then◌else◌,
}
use pgxporter.Prelude.Int.{ℤ, pos, negsuc}
use pgxporter.Prelude.Decimal.{digit, digits, show_ℕ, show_ℤ}
use pgxporter.Prelude.Bytes.{Bytes, is_empty, codes, codes-append, push}
use pgxporter.Prelude.Url.{is_unreserved}
use pgxporter.Prelude.Uri.{is_port}
use pgxporter.Prelude.Scan.{is_digit}
use pgxporter.Db.Dsn.{is_space, pieces, keep, fields, itoa}

abbrev pub IsWordByte : ℕ → Type 0
IsWordByte c = is_space c ≡ false

module _ (P : ℕ → Type 0) where
  push-All : (c : ℕ) (ps : List Bytes) → P c → All (All P) ps → All (All P) (push c ps)
  unfolding push
  push-All c [] h k = ((h, tt), tt)
  push-All c (p ∷ ps) h k = ((h, k.0), k.1)

  pieces-All : (s : Bytes) → All P s → All (All P) (pieces s)
  unfolding pieces
  pieces-All [] h = (tt, tt)
  pieces-All (c ∷ s) h = elim (Bool-cases (is_space c)) [
    | inl e ↦ rw e (tt, pieces-All s h.1)
    | inr e ↦ rw e (push-All c (pieces s) h.0 (pieces-All s h.1))
  ]

  keep-All : (ps : List Bytes) → All (All P) ps → All (All P) (keep ps)
  unfolding keep
  keep-All [] h = tt
  keep-All ([] ∷ ps) h = keep-All ps h.1
  keep-All ((c ∷ p) ∷ ps) h = (h.0, keep-All ps h.1)

  -- The words have only bytes of the text.
  pub fields-All : (s : Bytes) → All P s → All (All P) (fields s)
  unfolding fields
  fields-All s h = keep-All (pieces s) (pieces-All s h)

pieces-IsWord : (s : Bytes) → All (All IsWordByte) (pieces s)
unfolding pieces
pieces-IsWord [] = (tt, tt)
pieces-IsWord (c ∷ s) = elim (Bool-cases (is_space c)) [
  | inl e ↦ rw e (tt, pieces-IsWord s)
  | inr e ↦ rw e (push-All IsWordByte c (pieces s) e (pieces-IsWord s))
]

-- No word has a space.
pub fields-IsWord : (s : Bytes) → All (All IsWordByte) (fields s)
unfolding fields
fields-IsWord s = keep-All IsWordByte (pieces s) (pieces-IsWord s)

pieces_word : (s : Bytes) → All IsWordByte s → pieces s ≡ s ∷ []
unfolding pieces push
pieces_word [] h = refl
pieces_word (c ∷ s) h = rw (h.0, pieces_word s h.1) refl

-- A text with no space that is not empty is its only word.
pub fields_word : (c : ℕ) (s : Bytes) → All IsWordByte (c ∷ s) → fields (c ∷ s) ≡ (c ∷ s) ∷ []
unfolding fields keep
fields_word c s h = rw (pieces_word (c ∷ s) h) refl

-- A letter, a digit or one of "-_.~".
abbrev pub IsPlain : ℕ → Type 0
IsPlain c = is_unreserved c ≡ true

module _ (P : String → Type 0) where
  pick : (b : Bool) (s t : String) → P s → P t → P (if b then s else t)
  pick true s t h k = h
  pick false s t h k = k

  digit-cases :
      P "0"
      → P "1"
      → P "2"
      → P "3"
      → P "4"
      → P "5"
      → P "6"
      → P "7"
      → P "8"
      → P "9"
      → (d : ℕ) → P (digit d)
  unfolding digit
  digit-cases p0 p1 p2 p3 p4 p5 p6 p7 p8 p9 d = pick (d == 0) "0" _ p0 (
      pick (d == 1) "1" _ p1 (
        pick (d == 2) "2" _ p2 (
          pick (d == 3) "3" _ p3 (
            pick (d == 4) "4" _ p4 (
              pick (d == 5) "5" _ p5
                (pick (d == 6) "6" _ p6 (pick (d == 7) "7" _ p7 (pick (d == 8) "8" _ p8 (p9)))))))))

digit-IsPlain : (d : ℕ) → All IsPlain (codes (digit d))
unfolding codes is_unreserved
digit-IsPlain =
    digit-cases (λ s. All IsPlain (codes s)) (refl, tt) (refl, tt) (refl, tt) (refl, tt) (refl, tt)
      (refl, tt) (refl, tt) (refl, tt) (refl, tt) (refl, tt)

digits-All :
    (P : ℕ → Type 0) → ((d : ℕ) → All P (codes (digit d))) → (f n : ℕ) → All P (codes (digits f n))
unfolding digits
digits-All P h zero n = unfold codes in tt
digits-All P h (suc f) n = elim (Bool-cases (ltb n 10)) [
  | inl e ↦ rw e (h n)
  | inr e ↦
      rw (e, codes-append)
        (All-append P (codes (digits f (n / 10))) (codes (digit (n % 10)))
          (digits-All P h f (n / 10)) (h (n % 10)))
]

digits-IsPlain : (f n : ℕ) → All IsPlain (codes (digits f n))
digits-IsPlain = digits-All IsPlain digit-IsPlain

digit-IsDigit : (d : ℕ) → All (λ c. is_digit c ≡ true) (codes (digit d))
unfolding codes is_digit
digit-IsDigit =
    digit-cases (λ s. All (λ c. is_digit c ≡ true) (codes s)) (refl, tt) (refl, tt) (refl, tt)
      (refl, tt) (refl, tt) (refl, tt) (refl, tt) (refl, tt) (refl, tt) (refl, tt)

All-is_port : (s : Bytes) → All (λ c. is_digit c ≡ true) s → is_port s ≡ true
unfolding is_port
All-is_port [] h = refl
All-is_port (c ∷ s) h = rw (h.0, All-is_port s h.1) refl

-- A port that is not negative is one for net/url.
pub itoa-is_port : (n : ℕ) → is_port (itoa (pos n)) ≡ true
unfolding itoa show_ℤ show_ℕ
itoa-is_port n = All-is_port (codes (digits (suc n) n)) (digits-All _ digit-IsDigit (suc n) n)

pub itoa-IsPlain : (n : ℤ) → All IsPlain (itoa n)
unfolding itoa show_ℤ show_ℕ
itoa-IsPlain (pos n) = digits-IsPlain (suc n) n
itoa-IsPlain (negsuc n) = rw codes-append (
    All-append IsPlain (codes "-") (codes (show_ℕ (suc n)))
      (unfold codes is_unreserved in (refl, tt)) (digits-IsPlain (suc (suc n)) (suc n)))

append-ne-nil : (a b : Bytes) → is_empty b ≡ false → is_empty (a ++ b) ≡ false
append-ne-nil [] b h = h
append-ne-nil (c ∷ a) b h = refl

digit-ne-nil : (d : ℕ) → is_empty (codes (digit d)) ≡ false
unfolding codes
digit-ne-nil =
    digit-cases (λ s. is_empty (codes s) ≡ false) refl refl refl refl refl refl refl refl refl refl

digits-ne-nil : (f n : ℕ) → is_empty (codes (digits (suc f) n)) ≡ false
unfolding digits
digits-ne-nil f n = elim (Bool-cases (ltb n 10)) [
  | inl e ↦ rw e (digit-ne-nil n)
  | inr e ↦
      rw (e, codes-append)
        (append-ne-nil (codes (digits f (n / 10))) (codes (digit (n % 10))) (digit-ne-nil (n % 10)))
]

pub itoa-ne-nil : (n : ℤ) → is_empty (itoa n) ≡ false
unfolding itoa show_ℤ show_ℕ
itoa-ne-nil (pos n) = digits-ne-nil n n
itoa-ne-nil (negsuc n) = rw codes-append (unfold codes in refl)
