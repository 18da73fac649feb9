-- ===== src/Base/Base64.antt =====
-- Package encoding/base64, `StdEncoding`: `EncodeToString` and `DecodeString`.
use Prim.Native.Nat.{ℕ, ◌+◌, ◌-◌, ◌*◌, ◌/◌, ◌%◌, ◌<◌}
use mathlib.Core.Path.{◌≡◌, refl}
use mathlib.Core.Logic.{◌≢◌}
use mathlib.Core.Bool.{Bool, true, ◌&&◌, ◌||◌, not}
use mathlib.Core.List.{[], ◌∷◌, ◌++◌}
use mathlib.Core.Option.{Option, none, some}
use native.Mathlib.Omega.{arith}
use dock.Base.Tests.{nat_eq, leb, ltb, if◌then◌else◌}
use dock.Base.Lists.{keep}
use dock.Base.Strings.{Bytes, codes}
use dock.Base.Hex.{AreBytes}

unfoldable pub sextet : ℕ → ℕ
sextet v =
    if ltb v 26
    then b'A' + v
    else if ltb v 52
    then b'a' + (v - 26)
    else if ltb v 62
    then b'0' + (v - 52)
    else if ltb v 63
    then b'+'
    else b'/'

abbrev pub pad : ℕ
pad = b'='

unfoldable pub base64_encode : Bytes → Bytes
base64_encode [] = []
base64_encode (a ∷ []) = sextet (a / 4) ∷ sextet (a % 4 * 16) ∷ pad ∷ pad ∷ []
base64_encode (a ∷ b ∷ []) =
    sextet (a / 4) ∷ sextet (a % 4 * 16 + b / 16) ∷ sextet (b % 16 * 4) ∷ pad ∷ []
base64_encode (a ∷ b ∷ c ∷ s) =
    sextet (a / 4)
    ∷ sextet (a % 4 * 16 + b / 16)
    ∷ sextet (b % 16 * 4 + c / 64)
    ∷ sextet (c % 64)
    ∷ base64_encode s

unfoldable pub sextet_value : ℕ → Option ℕ
sextet_value c =
    if leb b'A' c && leb c b'Z'
    then some (c - b'A')
    else if leb b'a' c && leb c b'z'
    then some (c - b'a' + 26)
    else if leb b'0' c && leb c b'9'
    then some (c - b'0' + 52)
    else if nat_eq c b'+'
    then some 62
    else if nat_eq c b'/'
    then some 63
    else none

-- Four characters with what the rest decodes to. Padding ends the text; the bits that a padded group
-- leaves over are not checked.
full : Option ℕ → Option ℕ → Option ℕ → Option ℕ → Option Bytes → Option Bytes
full (some p) (some q) (some r) (some t) (some s) =
    some ((p * 4 + q / 16) ∷ (q % 16 * 16 + r / 4) ∷ (r % 4 * 64 + t) ∷ s)
full _ _ _ _ _ = none

one_pad : Option ℕ → Option ℕ → Option ℕ → Option Bytes
one_pad (some p) (some q) (some r) = some ((p * 4 + q / 16) ∷ (q % 16 * 16 + r / 4) ∷ [])
one_pad _ _ _ = none

two_pads : Option ℕ → Option ℕ → Option Bytes
two_pads (some p) (some q) = some ((p * 4 + q / 16) ∷ [])
two_pads _ _ = none

-- A padded group is the last one.
group : ℕ → ℕ → ℕ → ℕ → Bytes → Option Bytes → Option Bytes
unfolding full one_pad two_pads
group a b c d [] rest =
    if nat_eq c pad && nat_eq d pad
    then two_pads (sextet_value a) (sextet_value b)
    else if nat_eq d pad
    then one_pad (sextet_value a) (sextet_value b) (sextet_value c)
    else full (sextet_value a) (sextet_value b) (sextet_value c) (sextet_value d) rest
group a b c d _ rest = full (sextet_value a) (sextet_value b) (sextet_value c) (sextet_value d) rest

groups : Bytes → Option Bytes
unfolding group
groups [] = some []
groups (a ∷ b ∷ c ∷ d ∷ s) = group a b c d s (groups s)
groups _ = none

-- '\r' and '\n' are skipped wherever they stand.
abbrev not_newline : ℕ → Bool
not_newline c = not (nat_eq c b'\r' || nat_eq c b'\n')

unfoldable pub base64_decode : Bytes → Option Bytes
unfolding groups keep
base64_decode s = groups (keep not_newline s)

sextet_value-sextet : (v : ℕ) → v < 64 → sextet_value (sextet v) ≡ some v
unfolding sextet_value sextet
sextet_value-sextet v h = ground arith

sextet-ne-pad : (v : ℕ) → sextet v ≢ pad
unfolding sextet
sextet-ne-pad v = ground arith

sextet-no-newline : (v : ℕ) → not_newline (sextet v) ≡ true
unfolding sextet
sextet-no-newline v = ground arith

module _ (a b c : ℕ) (p : a < 256) (q : b < 256) (r : c < 256) where
  full-three :
      (s : Bytes)
      → full
          (some (a / 4))
          (some (a % 4 * 16 + b / 16))
          (some (b % 16 * 4 + c / 64))
          (some (c % 64))
          (some s)
        ≡ some (a ∷ b ∷ c ∷ s)
  unfolding full
  full-three s = ground arith

  group-full :
      (s t : Bytes)
      → group
          (sextet (a / 4))
          (sextet (a % 4 * 16 + b / 16))
          (sextet (b % 16 * 4 + c / 64))
          (sextet (c % 64))
          t
          (some s)
        ≡ some (a ∷ b ∷ c ∷ s)
  unfolding group
  group-full s [] = ground (
    arith,
    sextet_value-sextet (a / 4) (omega arith),
    sextet_value-sextet (a % 4 * 16 + b / 16) (omega arith),
    sextet_value-sextet (b % 16 * 4 + c / 64) (omega arith),
    sextet_value-sextet (c % 64) (omega arith),
    sextet-ne-pad (c % 64),
    full-three s,
  )
  group-full s (e ∷ t) = ground (
    arith,
    sextet_value-sextet (a / 4) (omega arith),
    sextet_value-sextet (a % 4 * 16 + b / 16) (omega arith),
    sextet_value-sextet (b % 16 * 4 + c / 64) (omega arith),
    sextet_value-sextet (c % 64) (omega arith),
    full-three s,
  )

keep-sextet : (v : ℕ) (s : Bytes) → keep not_newline (sextet v ∷ s) ≡ sextet v ∷ keep not_newline s
unfolding keep
keep-sextet v s = ground (arith, sextet-no-newline v)

keep-pad : (s : Bytes) → keep not_newline (pad ∷ s) ≡ pad ∷ keep not_newline s
unfolding keep
keep-pad s = refl

keep-nil : keep not_newline [] ≡ []
unfolding keep
keep-nil = refl

newline_free : (s : Bytes) → keep not_newline (base64_encode s) ≡ base64_encode s
unfolding base64_encode
newline_free [] = keep-nil
newline_free (a ∷ []) = simp (keep-sextet, keep-pad, keep-nil)
newline_free (a ∷ b ∷ []) = simp (keep-sextet, keep-pad, keep-nil)
newline_free (a ∷ b ∷ c ∷ s) = simp (keep-sextet, newline_free s)

groups-encode : (s : Bytes) → AreBytes s → groups (base64_encode s) ≡ some s
unfolding groups base64_encode
groups-encode [] h = refl
groups-encode (a ∷ []) (p, h) = ground (
  arith,
  sextet_value-sextet (a / 4) (omega arith),
  sextet_value-sextet (a % 4 * 16) (omega arith),
)
groups-encode (a ∷ b ∷ []) (p, (q, h)) = ground (
  arith,
  sextet_value-sextet (a / 4) (omega arith),
  sextet_value-sextet (a % 4 * 16 + b / 16) (omega arith),
  sextet_value-sextet (b % 16 * 4) (omega arith),
  sextet-ne-pad (b % 16 * 4),
)
groups-encode (a ∷ b ∷ c ∷ s) (p, (q, (r, h))) =
    rw (groups-encode s h) (group-full a b c p q r s (base64_encode s))

-- Decoding what was encoded gives it back.
pub base64_decode-encode : (s : Bytes) → AreBytes s → base64_decode (base64_encode s) ≡ some s
unfolding base64_decode
base64_decode-encode s h = rw (newline_free s) (groups-encode s h)

-- How many bytes the last, padded group of the encoding stands for; 0 where there is none.
abbrev pub left_over : Bytes → ℕ
left_over [] = 0
left_over (a ∷ []) = 1
left_over (a ∷ b ∷ []) = 2
left_over (a ∷ b ∷ c ∷ s) = left_over s

-- Unless the length is a multiple of three the encoding ends in padding.
pub base64_encode-padded :
    (s : Bytes) → left_over s ≢ 0 → (t : Bytes) × (base64_encode s ≡ t ++ pad ∷ [])
unfolding base64_encode
base64_encode-padded [] h = absurd (h refl)
base64_encode-padded (a ∷ []) h = (sextet (a / 4) ∷ sextet (a % 4 * 16) ∷ pad ∷ [], refl)
base64_encode-padded (a ∷ b ∷ []) h =
    (sextet (a / 4) ∷ sextet (a % 4 * 16 + b / 16) ∷ sextet (b % 16 * 4) ∷ [], refl)
base64_encode-padded (a ∷ b ∷ c ∷ s) h =
    let (t, e) = base64_encode-padded s h in
    (
      sextet (a / 4)
          ∷ sextet (a % 4 * 16 + b / 16)
          ∷ sextet (b % 16 * 4 + c / 64)
          ∷ sextet (c % 64)
          ∷ t,
      rw e,
    )

base64_decode-tests :
    (base64_decode (codes "TWFu\nTWE=") ≡ some (codes "ManMa"))
    × (base64_decode (codes "TWFuTQ==") ≡ some (codes "ManM"))
    × (base64_decode (codes "TWFuT") ≡ none)
    × (base64_encode (codes "ManM") ≡ codes "TWFuTQ==")
unfolding base64_decode base64_encode sextet sextet_value
base64_decode-tests = (refl, refl, refl, refl)
