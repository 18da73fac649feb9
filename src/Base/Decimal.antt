-- ===== src/Base/Decimal.antt =====
-- `fmt.Sprintf("%d", n)` for n ≥ 0, and what `fmt.Sscanf(s, "%d", &i)` leaves in an int64 that was 0.
use Prim.Native.Nat.{ℕ, zero, suc, ◌+◌, ◌-◌, ◌*◌, ◌/◌, ◌%◌, ◌^◌, ◌<◌, ◌≤◌}
use mathlib.Core.Path.{◌≡◌, refl, ap, ◌∙◌, sym}
use mathlib.Core.Bool.{Bool, true, false, ◌&&◌}
use mathlib.Core.List.{[], ◌∷◌, ◌++◌}
use mathlib.Core.Option.{Option, none, some}
use native.Mathlib.Omega.{arith}
use mathlib.Core.Logic.{◌≢◌, inl, inr}
use dock.Base.Tests.{Bool-cases, nat_eq, leb, ltb, if◌then◌else◌}
use dock.Base.Lists.{cons_nonempty, All, All-append, length}
use dock.Base.Strings.{Bytes, codes, Without}
use dock.Base.Space.{skip_space}

decimal : ℕ → ℕ → Bytes
decimal zero n = []
decimal (suc f) n = elim (ltb n 10) [
  | true ↦ (b'0' + n) ∷ []
  | false ↦ decimal f (n / 10) ++ (b'0' + n % 10) ∷ []
]

unfoldable pub format : ℕ → Bytes
unfolding decimal
format n = decimal (suc n) n

abbrev is_digit : ℕ → Bool
is_digit c = leb b'0' c && leb c b'9'

-- The longest run of digits at the front, as a number on top of `acc`.
scan_digits : ℕ → Bytes → ℕ
scan_digits acc [] = acc
scan_digits acc (c ∷ s) =
    let more = scan_digits (acc * 10 + (c - b'0')) s in if is_digit c then more else acc

-- An int64: its sign (true for a minus) and its magnitude.
abbrev pub Int64 : Type 0
Int64 = Bool × ℕ

-- `strconv.ParseInt` on the digits that were scanned; out of range nothing is stored.
in_range : Bool → ℕ → Int64
in_range true n = if leb n (2 ^ 63) then (true, n) else (false, 0)
in_range false n = if ltb n (2 ^ 63) then (false, n) else (false, 0)

scan_number : Bool → Bytes → Int64
unfolding in_range scan_digits
scan_number sign [] = (false, 0)
scan_number sign (c ∷ s) = if is_digit c then in_range sign (scan_digits 0 (c ∷ s)) else (false, 0)

scan_signed : Bytes → Int64
unfolding scan_number
scan_signed [] = (false, 0)
scan_signed (c ∷ s) =
    if nat_eq c b'-'
    then scan_number true s
    else if nat_eq c b'+'
    then scan_number false s
    else scan_number false (c ∷ s)

-- White space in front is skipped, one character a round; a newline stops the scan.
skip_blanks : ℕ → Bytes → Option Bytes
skip_blanks zero s = some s
skip_blanks (suc f) [] = some []
skip_blanks (suc f) (c ∷ s) =
    let rest = skip_blanks f (skip_space (c ∷ s)) in if nat_eq c b'\n' then none else rest

unfoldable pub scan_int : Bytes → Int64
unfolding scan_signed skip_blanks skip_space
scan_int s = elim (skip_blanks (length s) s) [ none ↦ (false, 0) | some t ↦ scan_signed t ]

abbrev pub IsDigit : ℕ → Type 0
IsDigit c = (b'0' ≤ c) × (c ≤ b'9')

decimal_small : (f n : ℕ) → ltb n 10 ≡ true → decimal (suc f) n ≡ (b'0' + n) ∷ []
unfolding decimal
decimal_small f n h = rw (h, decimal)

decimal_large :
    (f n : ℕ) → ltb n 10 ≡ false → decimal (suc f) n ≡ decimal f (n / 10) ++ (b'0' + n % 10) ∷ []
unfolding decimal
decimal_large f n h = rw (h, decimal)

decimal-IsDigit : (f n : ℕ) → All IsDigit (decimal f n)
unfolding decimal
decimal-IsDigit zero n = tt
decimal-IsDigit (suc f) n = ground (
  arith,
  All-append IsDigit (decimal f (n / 10)) ((b'0' + n % 10) ∷ []) (decimal-IsDigit f (n / 10))
      ((omega arith, omega arith), tt),
)

pub format-IsDigit : (n : ℕ) → All IsDigit (format n)
unfolding format
format-IsDigit n = decimal-IsDigit (suc n) n

scan_digits-append :
    (acc c : ℕ) (xs : Bytes)
    → All IsDigit xs
    → IsDigit c
    → scan_digits acc (xs ++ c ∷ []) ≡ scan_digits acc xs * 10 + (c - b'0')
unfolding scan_digits
scan_digits-append acc c [] h d = ground arith
scan_digits-append acc c (x ∷ xs) (p, h) d =
    ground (arith, scan_digits-append (acc * 10 + (x - b'0')) c xs h d)

scan_digits-decimal : (f n : ℕ) → n < f → scan_digits 0 (decimal f n) ≡ n
unfolding scan_digits
scan_digits-decimal zero n h = absurd (omega arith)
scan_digits-decimal (suc f) n h = elim (Bool-cases (ltb n 10)) [
  | inl small ↦ rw (decimal_small f n small) (ground arith)
  | inr large ↦ rw (decimal_large f n large) (
      ground (
        arith,
        scan_digits-append 0 (b'0' + n % 10) (decimal f (n / 10)) (decimal-IsDigit f (n / 10))
            (omega arith, omega arith),
        scan_digits-decimal f (n / 10) (ground arith),
      ))
]

IsDigit-Without : (c : ℕ) (s : Bytes) → b'9' < c → All IsDigit s → Without c s
IsDigit-Without c [] h d = tt
IsDigit-Without c (x ∷ s) h (p, d) = ((λ e. omega arith), IsDigit-Without c s h d)

decimal-ne-nil : (f n : ℕ) → decimal (suc f) n ≢ []
decimal-ne-nil f n = elim (Bool-cases (ltb n 10)) [
  | inl small ↦ rw (decimal_small f n small) (λ e. cc)
  | inr large ↦ rw (decimal_large f n large) (append-ne-nil (decimal f (n / 10)))
]
  where
    append-ne-nil : (xs : Bytes) → xs ++ (b'0' + n % 10) ∷ [] ≢ []
    append-ne-nil [] = λ e. cc
    append-ne-nil (x ∷ xs) = λ e. cc

skip_space-digit : (c : ℕ) (s : Bytes) → IsDigit c → skip_space (c ∷ s) ≡ c ∷ s
unfolding skip_space
skip_space-digit c [] d = ground arith
skip_space-digit c (x ∷ []) d = ground arith
skip_space-digit c (x ∷ y ∷ s) d = ground arith

skip_blanks-digit : (f c : ℕ) (s : Bytes) → IsDigit c → skip_blanks f (c ∷ s) ≡ some (c ∷ s)
unfolding skip_blanks
skip_blanks-digit zero c s d = refl
skip_blanks-digit (suc f) c s d =
    rw (skip_space-digit c s d) (ground (arith, skip_blanks-digit f c s d))

scan_signed-digits :
    (s : Bytes)
    → All IsDigit s
    → s ≢ []
    → scan_digits 0 s < 2 ^ 63
    → scan_int s ≡ (false, scan_digits 0 s)
unfolding scan_int
scan_signed-digits [] d ne h = absurd (ne refl)
scan_signed-digits (c ∷ s) (p, d) ne h = ground (arith, skip_blanks-digit (suc (length s)) c s p)

-- Printing and scanning a number below 2 ^ 63 gives it back.
pub scan_int-format : (n : ℕ) → n < 2 ^ 63 → scan_int (format n) ≡ (false, n)
unfolding format
scan_int-format n h =
    let value = scan_digits-decimal (suc n) n (omega arith) in
    scan_signed-digits (decimal (suc n) n) (decimal-IsDigit (suc n) n) (decimal-ne-nil n n)
      (omega arith)
    ∙ ap (λ v. (false, v)) value

-- Different numbers print differently.
pub format_inj : (m n : ℕ) → format m ≡ format n → m ≡ n
unfolding format
format_inj m n e =
    sym (scan_digits-decimal (suc m) m (omega arith))
    ∙ ap (scan_digits 0) e
    ∙ scan_digits-decimal (suc n) n (omega arith)

-- A printed number holds digits only, so neither a colon nor a dot.
pub format-Without : (c n : ℕ) → b'9' < c → Without c (format n)
unfolding format
format-Without c n h = IsDigit-Without c _ h (decimal-IsDigit (suc n) n)

scan_int-tests :
    (scan_int (codes " -12x") ≡ (true, 12))
    × (scan_int (codes "x") ≡ (false, 0))
    × (scan_int (codes "9223372036854775808") ≡ (false, 0))
unfolding scan_int
scan_int-tests = (refl, refl, refl)

pub format_nonempty : (n : ℕ) → format n ≢ []
unfolding format
format_nonempty n = elim (Bool-cases (ltb n 10)) [
  | inl t ↦ λ e. cons_nonempty [] _ (sym (decimal_small n n t) ∙ e)
  | inr f ↦ λ e. cons_nonempty (decimal n (n / 10)) _ (sym (decimal_large n n f) ∙ e)
]
