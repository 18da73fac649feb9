-- ===== src/Auth/Octets.antt =====
-- Which session tokens consist of octets that a cookie's value may have (RFC 6265).
use dock.Base.{ℕ, ◌≤◌, ◌<◌, ◌≢◌, ◌/◌, ◌%◌, [], ◌∷◌, ◌++◌, arith, Bytes, All, All-append, All-weaken}
use dock.Base.Decimal.{IsDigit, format, format-IsDigit}
use dock.Base.Hex.{AreBytes, hex_digit, hex_encode}
use dock.Session.{signed, create_session_token}

-- Printable ASCII but for the space, the quote, the comma, the semicolon and the backslash
abbrev pub IsOctet : ℕ → Type 0
IsOctet b = (33 ≤ b) × (b ≤ 126) × (b ≢ 34) × (b ≢ b',') × (b ≢ b';') × (b ≢ 92)

abbrev pub AreOctets : Bytes → Type 0
AreOctets = All IsOctet

digit-IsOctet : (c : ℕ) → IsDigit c → IsOctet c
digit-IsOctet c (lo, hi) =
    (omega arith, omega arith, omega arith, omega arith, omega arith, omega arith)

hex_digit-IsOctet : (v : ℕ) → v < 16 → IsOctet (hex_digit v)
unfolding hex_digit
hex_digit-IsOctet v h =
    (ground arith, ground arith, ground arith, ground arith, ground arith, ground arith)

hex_encode-AreOctets : (s : Bytes) → AreBytes s → AreOctets (hex_encode s)
unfolding hex_encode
hex_encode-AreOctets [] h = tt
hex_encode-AreOctets (b ∷ s) (p, h) = (
  hex_digit-IsOctet (b / 16) (omega arith),
  (hex_digit-IsOctet (b % 16) (omega arith), hex_encode-AreOctets s h),
)

module _ (hmac : Bytes → Bytes → Bytes) where
  -- The token of a user whose name has such octets only, if the MAC has bytes.
  pub create_session_token-AreOctets :
      (u secret : Bytes) (ts : ℕ)
      → ((m : Bytes) → AreBytes (hmac secret m))
      → AreOctets u
      → AreOctets (create_session_token hmac u secret ts)
  unfolding create_session_token signed
  create_session_token-AreOctets u secret ts bytes name =
      let payload = u ++ b':' ∷ format ts in
      let time = All-weaken IsDigit IsOctet digit-IsOctet (format ts) (format-IsDigit ts) in
      All-append IsOctet payload (b'.' ∷ hex_encode (hmac secret payload))
        (All-append IsOctet u (b':' ∷ format ts) name (colon, time))
        (dot, hex_encode-AreOctets (hmac secret payload) (bytes payload))
    where
      colon : IsOctet b':'
      colon = (omega arith, omega arith, omega arith, omega arith, omega arith, omega arith)

      dot : IsOctet b'.'
      dot = (omega arith, omega arith, omega arith, omega arith, omega arith, omega arith)
