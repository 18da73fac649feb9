-- ===== src/Base/Space.antt =====
-- `strings.TrimSpace`: Unicode white space, as the bytes of its UTF-8 encoding.
use Prim.Native.Nat.{ℕ, zero, suc}
use mathlib.Core.Path.{◌≡◌, refl}
use mathlib.Core.Bool.{Bool, ◌&&◌, ◌||◌}
use mathlib.Core.List.{[], ◌∷◌, reverse}
use dock.Base.Tests.{nat_eq, leb, if◌then◌else◌}
use dock.Base.Lists.{length}
use dock.Base.Strings.{Bytes, codes}

-- The second and third byte of a white-space character that begins with 0xE1, 0xE2 or 0xE3.
abbrev wide_space : ℕ → ℕ → ℕ → Bool
wide_space a b c =
    nat_eq a 0xE1 && nat_eq b 0x9A && nat_eq c 0x80
    || nat_eq a 0xE2
      && (nat_eq b 0x80
            && (leb 0x80 c && leb c 0x8A || nat_eq c 0xA8 || nat_eq c 0xA9 || nat_eq c 0xAF)
          || nat_eq b 0x81 && nat_eq c 0x9F)
    || nat_eq a 0xE3 && nat_eq b 0x80 && nat_eq c 0x80

-- U+0085 and U+00A0
abbrev pair_space : ℕ → ℕ → Bool
pair_space a b = nat_eq a 0xC2 && (nat_eq b 0x85 || nat_eq b 0xA0)

abbrev pub ascii_space : ℕ → Bool
ascii_space a = leb 9 a && leb a 13 || nat_eq a 32

-- `unicode.IsSpace` on the first character, which is dropped.
abbrev skip1 : Bytes → Bytes
skip1 [] = []
skip1 (a ∷ s) = if ascii_space a then s else a ∷ s

abbrev skip2 : Bytes → Bytes
skip2 (a ∷ b ∷ s) = if pair_space a b then s else skip1 (a ∷ b ∷ s)
skip2 s = skip1 s

unfoldable pub skip_space : Bytes → Bytes
skip_space (a ∷ b ∷ c ∷ s) = if wide_space a b c then s else skip2 (a ∷ b ∷ c ∷ s)
skip_space s = skip2 s

-- The same for the last character, on the reversed text.
abbrev skip2_back : Bytes → Bytes
skip2_back (b ∷ a ∷ s) = if pair_space a b then s else skip1 (b ∷ a ∷ s)
skip2_back s = skip1 s

skip_space_back : Bytes → Bytes
skip_space_back (c ∷ b ∷ a ∷ s) = if wide_space a b c then s else skip2_back (c ∷ b ∷ a ∷ s)
skip_space_back s = skip2_back s

-- One character is dropped for each round; a text has no more characters than bytes.
abbrev rounds : (Bytes → Bytes) → ℕ → Bytes → Bytes
rounds f zero s = s
rounds f (suc n) s = rounds f n (f s)

unfoldable pub trim_left : Bytes → Bytes
unfolding skip_space
trim_left s = rounds skip_space (length s) s

unfoldable pub trim_space : Bytes → Bytes
unfolding trim_left skip_space_back
trim_space s = let t = reverse (trim_left s) in reverse (rounds skip_space_back (length t) t)

trim_space_ascii : trim_space (codes " ab c ") ≡ codes "ab c"
unfolding trim_space
trim_space_ascii = refl

trim_space_unicode :
    trim_space (0xC2 ∷ 0xA0 ∷ 0x61 ∷ 0xE2 ∷ 0x80 ∷ 0x89 ∷ 0xE3 ∷ 0x80 ∷ 0x80 ∷ []) ≡ codes "a"
unfolding trim_space
trim_space_unicode = refl
