-- ===== src/Session.antt =====
-- main.go: the session secret, session tokens and their check.
pub mod Token
pub mod Secret
mod Tests
use dock.Base.{
  ℕ, ◌+◌, ◌-◌, ◌*◌, ◌^◌, Bool, List, [], ◌∷◌, ◌++◌, Option, none, some, Bytes, codes, cut_last,
  ◌==◌, Bytes_eq, ltb, leb, if◌then◌else◌, true, false,
}
use Prim.Native.Nat.{min}
use dock.Base.Decimal.{format, scan_int, Int64}
use dock.Base.Hex.{hex_encode, hex_decode}
use dock.Base.Base64.{base64_decode}

-- Durations are nanoseconds.
abbrev pub second : ℕ
second = 1_000_000_000

abbrev pub max_duration : ℕ
max_duration = 2 ^ 63 - 1

-- Seconds from year 1, where `time.Time` begins to count, to 1970.
abbrev pub unix_epoch : ℕ
unix_epoch = 62_135_596_800

-- `time.Since(time.Unix(ts, 0))` at `now` nanoseconds after 1970. A difference that does not fit a
-- Duration is the largest one; a time in the future gives 0 here for a negative Duration. A `ts` that
-- overflows `time.Time` wraps to the distant past.
unfoldable pub since : ℕ → Int64 → ℕ
since now (true, ts) = min (now + ts * second) max_duration
since now (false, ts) =
    if leb (2 ^ 63 - unix_epoch) ts then max_duration else min (now - ts * second) max_duration

-- `loadSessionSecret` with the value of DOCK_SESSION_SECRET and the bytes that
-- `generateSessionSecret` would draw.
unfoldable pub load_session_secret : Bytes → Bytes → Bytes
load_session_secret [] generated = generated
load_session_secret (c ∷ raw) generated = elim (hex_decode (c ∷ raw)) [
  | some decoded ↦ decoded
  | none ↦ elim (base64_decode (c ∷ raw)) [ some decoded ↦ decoded | none ↦ c ∷ raw ]
]

-- HMAC-SHA256 enters as the function from a secret and a payload to the MAC's bytes.
module _ (hmac : Bytes → Bytes → Bytes) where
  unfoldable pub signed : Bytes → Bytes → Bytes
  signed secret payload = payload ++ b'.' ∷ hex_encode (hmac secret payload)

  -- `createSessionToken` at `ts` seconds after 1970
  unfoldable pub create_session_token : Bytes → Bytes → ℕ → Bytes
  unfolding signed
  create_session_token username secret ts = signed secret (username ++ b':' ∷ format ts)

  -- The part of `extractSessionUser` behind the check of the signature.
  payload_user : Bytes → ℕ → ℕ → Option Bytes
  payload_user payload max_age now = elim (cut_last b':' payload) [
    | none ↦ none
    | some (username, ts) ↦
        if ltb max_age (since now (scan_int ts))
        then none
        else if username == []
        then none
        else some username
  ]

  -- `extractSessionUser`: none for `("", false)`.
  unfoldable pub extract_session_user : Bytes → Bytes → ℕ → ℕ → Option Bytes
  unfolding payload_user
  extract_session_user token secret max_age now = elim (cut_last b'.' token) [
    | none ↦ none
    | some (payload, sig) ↦
        if sig == hex_encode (hmac secret payload) then payload_user payload max_age now else none
  ]
