-- ===== src/Base/Hex.antt =====
-- Package encoding/hex: `EncodeToString` and `DecodeString`.
use Prim.Native.Nat.{ℕ, ◌+◌, ◌-◌, ◌*◌, ◌/◌, ◌%◌, ◌<◌}
use mathlib.Core.Path.{◌≡◌, refl, ap}
use mathlib.Core.Logic.{◌≢◌}
use mathlib.Core.Bool.{◌&&◌}
use mathlib.Core.List.{[], ◌∷◌, ◌++◌}
use mathlib.Core.Option.{Option, none, some}
use native.Mathlib.Omega.{arith}
use dock.Base.Tests.{leb, ltb, if◌then◌else◌}
use dock.Base.Lists.{All}
use dock.Base.Strings.{Bytes, codes, Without}

-- Each number is a byte.
abbrev pub AreBytes : Bytes → Type 0
AreBytes = All (λ b. b < 256)

unfoldable pub hex_digit : ℕ → ℕ
hex_digit v = if ltb v 10 then b'0' + v else b'a' + (v - 10)

unfoldable pub hex_encode : Bytes → Bytes
hex_encode [] = []
hex_encode (b ∷ s) = hex_digit (b / 16) ∷ hex_digit (b % 16) ∷ hex_encode s

unfoldable pub hex_value : ℕ → Option ℕ
hex_value c =
    if leb b'0' c && leb c b'9'
    then some (c - b'0')
    else if leb b'a' c && leb c b'f'
    then some (c - b'a' + 10)
    else if leb b'A' c && leb c b'F'
    then some (c - b'A' + 10)
    else none

-- A digit that is none, or an odd number of digits, is an error.
pair_value : Option ℕ → Option ℕ → Option Bytes → Option Bytes
pair_value (some h) (some l) (some s) = some ((16 * h + l) ∷ s)
pair_value _ _ _ = none

unfoldable pub hex_decode : Bytes → Option Bytes
unfolding pair_value
hex_decode [] = some []
hex_decode (c ∷ []) = none
hex_decode (c ∷ d ∷ s) = pair_value (hex_value c) (hex_value d) (hex_decode s)

hex_value-digit : (v : ℕ) → v < 16 → hex_value (hex_digit v) ≡ some v
unfolding hex_value hex_digit
hex_value-digit v h = ground arith

-- Decoding what was encoded gives it back.
pub hex_decode-encode : (s : Bytes) → AreBytes s → hex_decode (hex_encode s) ≡ some s
unfolding hex_encode hex_decode
hex_decode-encode [] h = refl
hex_decode-encode (b ∷ s) (p, h) = ground (
  arith,
  hex_value-digit (b / 16) (omega arith),
  hex_value-digit (b % 16) (omega arith),
  hex_decode-encode s h,
)

pub hex_encode_inj : (s t : Bytes) → AreBytes s → AreBytes t → hex_encode s ≡ hex_encode t → s ≡ t
hex_encode_inj s t h k e = cc (hex_decode-encode s h, ap hex_decode e, hex_decode-encode t k)

hex_digit-ne : (c v : ℕ) → c < b'0' → hex_digit v ≢ c
unfolding hex_digit
hex_digit-ne c v h = ground arith

-- Hexadecimal text holds no character below '0', such as a dot.
pub hex_encode-Without : (c : ℕ) (s : Bytes) → c < b'0' → Without c (hex_encode s)
unfolding hex_encode
hex_encode-Without c [] h = tt
hex_encode-Without c (b ∷ s) h =
    (hex_digit-ne c _ h, (hex_digit-ne c _ h, hex_encode-Without c s h))

-- A text that ends in a character which is no digit does not decode.
pub hex_decode-bad_last : (c : ℕ) (s : Bytes) → hex_value c ≡ none → hex_decode (s ++ c ∷ []) ≡ none
unfolding hex_decode pair_value
hex_decode-bad_last c [] h = refl
hex_decode-bad_last c (x ∷ []) h = rw h (pair_value-none (hex_value x))
  where
    pair_value-none : (o : Option ℕ) → pair_value o none (some []) ≡ none
    pair_value-none none = refl
    pair_value-none (some v) = refl
hex_decode-bad_last c (x ∷ y ∷ s) h =
    rw (hex_decode-bad_last c s h) (no_rest (hex_value x) (hex_value y))
  where
    no_rest : (o p : Option ℕ) → pair_value o p none ≡ none
    no_rest none p = refl
    no_rest (some v) none = refl
    no_rest (some v) (some w) = refl

hex_decode-tests :
    (hex_decode (codes "0aFf") ≡ some (10 ∷ 255 ∷ []))
    × (hex_decode (codes "0af") ≡ none)
    × (hex_decode (codes "0g") ≡ none)
unfolding hex_decode hex_value
hex_decode-tests = (refl, refl, refl)
