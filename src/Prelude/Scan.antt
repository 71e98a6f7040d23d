-- ===== src/Prelude/Scan.antt =====
-- The verb %d of fmt.Sscanf, for an int and an ASCII text: blanks, a sign, digits.
pub mod ReadBack
use Prim.Native.Nat.{ℕ, zero, suc, ◌+◌, ◌-◌, ◌*◌, ◌/◌, ◌%◌, ◌^◌, ◌<◌, ◌≤◌}
use mathlib.Core.Path.{◌≡◌, refl, sym, ap, ◌∙◌}
use mathlib.Core.Logic.{inl, inr}
use mathlib.Core.Bool.{Bool, true, false, ◌&&◌, ◌||◌}
use mathlib.Core.Option.{Option, none, some}
use mathlib.Core.List.{[], ◌∷◌, ◌++◌}
use mathlib.Core.List.{append_assoc}
use native.Mathlib.Decide.{dec_lt}
use native.Mathlib.Omega.{arith}
use pgxporter.Prelude.Tests.{ltb, leb, ◌==◌, if◌then◌else◌, Bool-cases}
use pgxporter.Prelude.Int.{ℤ, pos, minus, IsInt64}
use pgxporter.Prelude.Decimal.{digit, digits, show_ℕ}
use pgxporter.Prelude.Bytes.{Bytes, codes, codes-append}

unfoldable pub is_digit : ℕ → Bool
is_digit c = leb b'0' c && leb c b'9'

-- A blank that is no newline: a newline is an error, as it is for the digits.
unfoldable pub is_blank : ℕ → Bool
is_blank c = c == b' ' || (c == 9 || (c == 11 || (c == 12 || c == 13)))

unfoldable pub skip_blanks : Bytes → Bytes
unfolding is_blank
skip_blanks [] = []
skip_blanks (c ∷ s) = if is_blank c then skip_blanks s else c ∷ s

-- The digits at the front, behind those of `n`, and the rest.
unfoldable pub scan_digits : ℕ → Bytes → ℕ × Bytes
unfolding is_digit
scan_digits n [] = (n, [])
scan_digits n (c ∷ s) = if is_digit c then scan_digits (n * 10 + (c - b'0')) s else (n, c ∷ s)

unfoldable pub scan_number : Bytes → Option (ℕ × Bytes)
unfolding scan_digits
scan_number [] = none
scan_number (c ∷ s) = if is_digit c then some (scan_digits 0 (c ∷ s)) else none

-- The number in an int, 64 bits wide, or an overflow.
unfoldable pub above : Option (ℕ × Bytes) → Option (ℤ × Bytes)
above none = none
above (some (n, rest)) = if ltb n (2 ^ 63) then some (pos n, rest) else none

unfoldable pub below : Option (ℕ × Bytes) → Option (ℤ × Bytes)
unfolding minus
below none = none
below (some (n, rest)) = if leb n (2 ^ 63) then some (minus n, rest) else none

unfoldable pub scan_signed : Bytes → Option (ℤ × Bytes)
unfolding scan_number above below
scan_signed [] = none
scan_signed (c ∷ s) =
    if c == b'-'
    then below (scan_number s)
    else if c == b'+'
    then above (scan_number s)
    else above (scan_number (c ∷ s))

unfoldable pub scan_int : Bytes → Option (ℤ × Bytes)
unfolding skip_blanks scan_signed
scan_int s = scan_signed (skip_blanks s)
