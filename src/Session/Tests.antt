-- ===== src/Session/Tests.antt =====
-- Tests and witnesses for the session functions, with a toy MAC in place of HMAC-SHA256.
use dock.Base.{ℕ, ◌%◌, ◌+◌, ◌≡◌, ◌↔◌, refl, [], ◌∷◌, ◌++◌, some, Bytes, codes}
use dock.Base.Decimal.{format}
use dock.Base.Hex.{hex_encode, hex_digit}
use dock.Base.Base64.{base64_encode}
use dock.Session.{load_session_secret, create_session_token, extract_session_user}
use dock.Session.Token.{IsTokenFor, extract_session_user-eq-some_iff}
use dock.Session.Secret.{load-base64_misread, triples, pairs_of_aa}

-- One byte: the sum of all bytes.
abbrev sum_bytes : Bytes → ℕ
sum_bytes [] = 0
sum_bytes (b ∷ s) = (b + sum_bytes s) % 256

abbrev toy_mac : Bytes → Bytes → Bytes
toy_mac secret payload = sum_bytes (secret ++ payload) ∷ []

abbrev week : ℕ
week = 604_800_000_000_000

-- A name with the separators in it.
abbrev odd_name : Bytes
odd_name = codes "a:b.c"

token_text : create_session_token toy_mac odd_name (7 ∷ []) 12 ≡ codes "a:b.c:12.32"
unfolding create_session_token format hex_encode hex_digit
token_text = refl

abbrev key32 : Bytes
key32 = codes "0123456789abcdef0123456789abcdef"

abbrev week_later : ℕ
week_later = 604_812_000_000_000

extract_session_user-eq-some_iff_example :
    (extract_session_user toy_mac (codes "a:b.c:12.32") (7 ∷ []) week week_later ≡ some odd_name)
    ↔ IsTokenFor toy_mac odd_name (codes "a:b.c:12.32") (7 ∷ []) week week_later
extract_session_user-eq-some_iff_example =
    extract_session_user-eq-some_iff toy_mac (codes "a:b.c:12.32") (7 ∷ []) odd_name week week_later

-- A 48-byte key becomes 32 other bytes.
load-base64_misread_example : load_session_secret (base64_encode (triples 16)) [] ≡ pairs_of_aa 16
load-base64_misread_example = load-base64_misread 15 []
