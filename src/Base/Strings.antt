-- ===== src/Base/Strings.antt =====
-- Go strings as byte sequences, with what package strings does to them.
use Prim.Native.Nat.{ℕ, ◌+◌}
use Prim.Native.Char.{code}
use Prim.Native.String.{String}
use mathlib.Core.Path.{◌≡◌, refl}
use mathlib.Core.Logic.{◌↔◌, ◌≢◌, inl, inr}
use mathlib.Core.Bool.{Bool, true, false, ◌&&◌, ◌||◌}
use mathlib.Core.List.{List, [], ◌∷◌, ◌++◌, map}
use mathlib.Core.Option.{Option, none, some}
use native.Mathlib.Omega.{arith}
use dock.Base.Tests.{Option-cases, Bool-cases, Keyed, nat_eq, nat_eq_iff, ltb, leb, if◌then◌else◌}
use dock.Base.Lists.{All}

abbrev pub Bytes : Type 0
Bytes = List ℕ

-- The bytes of an ASCII literal.
abbrev pub codes : String → Bytes
codes String.[] = []
codes (String.◌∷◌ c s) = code c ∷ codes s

unfoldable pub bytes_eq : Bytes → Bytes → Bool
bytes_eq [] [] = true
bytes_eq (x ∷ xs) (y ∷ ys) = nat_eq x y && bytes_eq xs ys
bytes_eq _ _ = false

pub bytes_eq_iff : (a b : Bytes) → (bytes_eq a b ≡ true) ↔ (a ≡ b)
unfolding bytes_eq
bytes_eq_iff [] [] = ground arith
bytes_eq_iff (x ∷ xs) (y ∷ ys) = ground (arith, nat_eq_iff x y, bytes_eq_iff xs ys)
bytes_eq_iff _ _ = ground arith

instance abbrev pub Bytes_eq : Keyed Bytes
Bytes_eq = record { eqb = bytes_eq; eqb_iff = bytes_eq_iff }

-- `strings.TrimPrefix(s, p)`, and whether `p` was there.
unfoldable pub strip_prefix? : Bytes → Bytes → Option Bytes
strip_prefix? s [] = some s
strip_prefix? [] (y ∷ p) = none
strip_prefix? (x ∷ s) (y ∷ p) = if nat_eq x y then strip_prefix? s p else none

unfoldable pub trim_prefix : Bytes → Bytes → Bytes
unfolding strip_prefix?
trim_prefix s p = elim (strip_prefix? s p) [ none ↦ s | some r ↦ r ]

-- `strings.HasPrefix(s, p)`
unfoldable pub has_prefix : Bytes → Bytes → Bool
unfolding strip_prefix?
has_prefix s p = elim (strip_prefix? s p) [ none ↦ false | some _ ↦ true ]

-- What stands before and after the first byte `c`: `strings.SplitN(s, c, 2)` has the second part
-- only where `c` occurs.
unfoldable pub cut : ℕ → Bytes → Bytes × Option Bytes
cut c [] = ([], none)
cut c (x ∷ s) =
    let (before, after) = cut c s in if nat_eq x c then ([], some s) else (x ∷ before, after)

-- The parts round the last byte `c`, as `strings.LastIndex` finds it; none where it does not occur.
unfoldable pub cut_last : ℕ → Bytes → Option (Bytes × Bytes)
cut_last c [] = none
cut_last c (x ∷ s) = elim (cut_last c s) [
  | some (before, after) ↦ some (x ∷ before, after)
  | none ↦ if nat_eq x c then some ([], s) else none
]

-- `strings.Split(s, c)`: always one part at least.
unfoldable pub split : ℕ → Bytes → Bytes × List Bytes
split c [] = ([], [])
split c (x ∷ s) =
    let (head, rest) = split c s in if nat_eq x c then ([], head ∷ rest) else (x ∷ head, rest)

-- `strings.Join(parts, sep)`
unfoldable pub join : Bytes → List Bytes → Bytes
join sep [] = []
join sep (p ∷ []) = p
join sep (p ∷ q ∷ ps) = p ++ (sep ++ join sep (q ∷ ps))

-- `strings.ToLower` on ASCII bytes; header names have no others.
unfoldable pub lower : ℕ → ℕ
lower c = if leb b'A' c && leb c b'Z' then c + 32 else c

unfoldable pub to_lower : Bytes → Bytes
unfolding lower
to_lower s = map lower s

-- `<` on Go strings: byte by byte.
unfoldable pub bytes_lt : Bytes → Bytes → Bool
bytes_lt xs [] = false
bytes_lt [] (y ∷ ys) = true
bytes_lt (x ∷ xs) (y ∷ ys) = ltb x y || nat_eq x y && bytes_lt xs ys

-- The byte `c` does not occur.
abbrev pub Without : ℕ → Bytes → Type 0
Without c = All (λ x. x ≢ c)

pub strip_prefix?-append : (p s : Bytes) → strip_prefix? (p ++ s) p ≡ some s
unfolding strip_prefix?
strip_prefix?-append [] s = ground arith
strip_prefix?-append (x ∷ p) s = ground (arith, strip_prefix?-append p s, nat_eq_iff x x)

pub strip_prefix?_sound : (s p r : Bytes) → strip_prefix? s p ≡ some r → s ≡ p ++ r
unfolding strip_prefix?
strip_prefix?_sound s [] r h = ground arith
strip_prefix?_sound [] (y ∷ p) r h = cc
strip_prefix?_sound (x ∷ s) (y ∷ p) r h =
    ground (arith, nat_eq_iff x y, λ (g : strip_prefix? s p ≡ some r). strip_prefix?_sound s p r g)

pub trim_prefix-append : (p s : Bytes) → trim_prefix (p ++ s) p ≡ s
unfolding trim_prefix
trim_prefix-append p s = rw (strip_prefix?-append p s, trim_prefix)

pub cut-none : (c : ℕ) (s : Bytes) → Without c s → cut c s ≡ (s, none)
unfolding cut
cut-none c [] h = refl
cut-none c (x ∷ s) (p, h) = ground (arith, nat_eq_iff x c, cut-none c s h)

pub cut-append : (c : ℕ) (s t : Bytes) → Without c s → cut c (s ++ c ∷ t) ≡ (s, some t)
unfolding cut
cut-append c [] t h = ground (arith, nat_eq_iff c c)
cut-append c (x ∷ s) t (p, h) = ground (arith, nat_eq_iff x c, cut-append c s t h)

pub cut_last-none : (c : ℕ) (s : Bytes) → Without c s → cut_last c s ≡ none
unfolding cut_last
cut_last-none c [] h = refl
cut_last-none c (x ∷ s) (p, h) = ground (arith, nat_eq_iff x c, cut_last-none c s h)

-- The last separator is found whatever stands before it.
pub cut_last-append : (c : ℕ) (s t : Bytes) → Without c t → cut_last c (s ++ c ∷ t) ≡ some (s, t)
unfolding cut_last
cut_last-append c [] t h = ground (arith, nat_eq_iff c c, cut_last-none c t h)
cut_last-append c (x ∷ s) t h = ground (arith, cut_last-append c s t h)

pub cut_last_sound : (c : ℕ) (s a b : Bytes) → cut_last c s ≡ some (a, b) → s ≡ a ++ c ∷ b
unfolding cut_last
cut_last_sound c [] a b h = cc
cut_last_sound c (x ∷ s) a b h = elim (Option-cases (cut_last c s)) [
  | inl e ↦ ground (arith, nat_eq_iff x c)
  | inr ((a', b'), e) ↦ ground (arith, cut_last_sound c s a' b' e)
]

pub cut_last-eq-none : (c : ℕ) (s : Bytes) → cut_last c s ≡ none → Without c s
unfolding cut_last
cut_last-eq-none c [] h = tt
cut_last-eq-none c (x ∷ s) h = elim (Option-cases (cut_last c s)) [
  | inl e ↦ ground (arith, nat_eq_iff x c, cut_last-eq-none c s e)
  | inr ((a', b'), e) ↦ ground arith
]

pub cut_last-Without : (c : ℕ) (s a b : Bytes) → cut_last c s ≡ some (a, b) → Without c b
unfolding cut_last
cut_last-Without c [] a b h = cc
cut_last-Without c (x ∷ s) a b h = elim (Option-cases (cut_last c s)) [
  | inl e ↦ ground (arith, cut_last-eq-none c s e)
  | inr ((a', b'), e) ↦ ground (arith, cut_last-Without c s a' b' e)
]

pub bytes_lt_trans :
    (a b c : Bytes) → bytes_lt a b ≡ true → bytes_lt b c ≡ true → bytes_lt a c ≡ true
unfolding bytes_lt
bytes_lt_trans a [] c h k = ground arith
bytes_lt_trans a (y ∷ b) [] h k = cc
bytes_lt_trans [] (y ∷ b) (z ∷ c) h k = refl
bytes_lt_trans (x ∷ a) (y ∷ b) (z ∷ c) h k = ground (arith, bytes_lt_trans a b c)

pub bytes_lt_irrefl : (a : Bytes) → bytes_lt a a ≡ false
unfolding bytes_lt
bytes_lt_irrefl [] = refl
bytes_lt_irrefl (x ∷ a) = ground (arith, bytes_lt_irrefl a)

pub bytes_ge_trans :
    (a b c : Bytes) → bytes_lt a b ≡ false → bytes_lt b c ≡ false → bytes_lt a c ≡ false
unfolding bytes_lt
bytes_ge_trans a b [] h k = refl
bytes_ge_trans a [] (z ∷ c) h k = cc
bytes_ge_trans [] (y ∷ b) (z ∷ c) h k = cc
bytes_ge_trans (x ∷ a) (y ∷ b) (z ∷ c) h k = ground (arith, bytes_ge_trans a b c)

pub bytes_lt_asymm : (a b : Bytes) → bytes_lt a b ≡ true → bytes_lt b a ≡ false
bytes_lt_asymm a b h = elim (Bool-cases (bytes_lt b a)) [
  | inl lt ↦ ground (arith, bytes_lt_trans a b a h lt, bytes_lt_irrefl a)
  | inr ge ↦ ge
]

pub bytes_lt_total : (a b : Bytes) → bytes_lt a b ≡ false → bytes_lt b a ≡ false → a ≡ b
unfolding bytes_lt
bytes_lt_total [] [] h k = refl
bytes_lt_total [] (y ∷ b) h k = cc
bytes_lt_total (x ∷ a) [] h k = cc
bytes_lt_total (x ∷ a) (y ∷ b) h k = ground (arith, bytes_lt_total a b)
