-- ===== src/Http/Writer.antt =====
-- `http.ResponseWriter`: what has been set and written so far.
use dock.Http.{contains}
use dock.Base.{
  ℕ, ◌+◌, ◌-◌, ◌*◌, ◌^◌, length, ◌&&◌, ◌||◌, leb, ltb, nat_eq, Bool, true, false, List, [], ◌∷◌,
  ◌++◌, Option, none, some, Bytes, Bytes_eq, Map, codes, insert, lookup, ◌==◌, if◌then◌else◌,
}

-- `http.Cookie` with Path "/" and SameSite Lax, as Dock sets all of them. A MaxAge of none is unset,
-- and 0 here stands for a negative one, which deletes the cookie.
pub record Cookie : Type 0 where
  pub name : Bytes
  pub value : Bytes
  pub max_age : Option ℕ
  pub http_only : Bool
  pub secure : Bool

-- The header and the cookies can change until the status is sent; `sent` is what the client gets: the
-- status with the header and the cookies at that time. The method of the request is not HEAD, to which
-- net/http sends no body.
pub record Writer : Type 0 where
  pub header : Map Bytes Bytes
  pub cookies : List Cookie
  pub sent : Option (ℕ × Map Bytes Bytes × List Cookie)
  pub body : Bytes

abbrev pub new_writer : Writer
new_writer = record { header = []; cookies = []; sent = none; body = [] }

-- `w.Header().Set(k, v)`
unfoldable pub set_header : Writer → Bytes → Bytes → Writer
set_header w k v = record w { header = insert k v w.header }

-- `http.SetCookie(w, c)`
unfoldable pub set_cookie : Writer → Cookie → Writer
set_cookie w c = record w { cookies = w.cookies ++ c ∷ [] }

-- `w.WriteHeader(code)`: only the first call counts.
unfoldable pub write_header : Writer → ℕ → Writer
write_header w code = elim w.sent [
  | none ↦ record w { sent = some (code, w.header, w.cookies) }
  | some _ ↦ w
]

unfoldable pub first_status : Writer → ℕ → Option Writer
first_status w code =
    if ltb code 100 || ltb 999 code
    then none
    else if ltb code 200 && (ltb code 101 || ltb 101 code)
    then some w
    else some (write_header w code)

-- `w.WriteHeader(code)` of any code: none for a panic, which net/http makes of a code that has not
-- three digits. A code below 200 but 101 is sent ahead and settles nothing.
-- Once a status has been sent, nothing happens.
unfoldable pub write_status : Writer → ℕ → Option Writer
unfolding first_status
write_status w code = elim w.sent [ none ↦ first_status w code | some _ ↦ some w ]

-- `w.Write(b)`, which sends the status 200 if none has been sent.
unfoldable pub write : Writer → Bytes → Writer
write w b = let w' = write_header w 200 in record w' { body = w'.body ++ b }

digits : ℕ → Bytes → Option ℕ
digits acc [] = some acc
digits acc (c ∷ s) =
    let rest = digits (10 * acc + (c - b'0')) s in if leb b'0' c && leb c b'9' then rest else none

unsigned : Bytes → Option ℕ
unfolding digits
unsigned [] = none
unsigned (c ∷ s) = elim (digits 0 (c ∷ s)) [
  | none ↦ none
  | some n ↦ if ltb n (2 ^ 63) then some n else none
]

-- `strconv.ParseInt(v, 10, 64)`, where that is not negative.
unfoldable pub parse_length : Bytes → Option ℕ
unfolding unsigned
parse_length [] = none
parse_length (c ∷ s) =
    let signed = unsigned s in let bare = unsigned (c ∷ s) in if nat_eq c b'+' then signed else bare

-- The length that a status was sent with, if any.
unfoldable pub declared : Writer → Option ℕ
declared w = elim w.sent [
  | none ↦ none
  | some (code, header, cookies) ↦ elim (lookup (codes "Content-Length") header) [
    | none ↦ none
    | some v ↦ parse_length v
  ]
]

-- The first `w.Write(b)` after a status has been sent: with the status 101, 204 or 304 there is no body,
-- and nothing is written where it is more than the length that was declared.
unfoldable pub write_body : Writer → ℕ → Bytes → Writer
write_body w code b =
    let written = write w b in
    if nat_eq code 101 || nat_eq code 204 || nat_eq code 304
    then w
    else elim (declared w) [ none ↦ written | some n ↦ if ltb n (length b) then w else written ]

-- `http.Error(w, text, code)`
unfoldable pub http_error : Writer → Bytes → ℕ → Writer
http_error w text code =
    write
      (write_header
        (set_header (set_header w (codes "Content-Type") (codes "text/plain; charset=utf-8"))
          (codes "X-Content-Type-Options") (codes "nosniff"))
        code)
      (text ++ b'\n' ∷ [])

-- `fmt.Fprintln(w, text)`
unfoldable pub fprintln : Writer → Bytes → Writer
unfolding write
fprintln w text = write w (text ++ b'\n' ∷ [])

has_content_type : Writer → Bool
has_content_type w = elim (lookup (codes "Content-Type") w.header) [ none ↦ false | some _ ↦ true ]

-- `http.Redirect(w, r, "/", http.StatusFound)` for a request with the method
unfoldable pub redirect_home : Writer → Bytes → Writer
unfolding has_content_type
redirect_home w method =
    let had = has_content_type w in
    let located = set_header w (codes "Location") (codes "/") in
    let html = set_header located (codes "Content-Type") (codes "text/html; charset=utf-8") in
    if had
    then write_header located 302
    else if method == codes "GET"
    then fprintln (write_header html 302) (codes "<a href=\"/\">Found</a>.\n")
    else if method == codes "HEAD"
    then write_header html 302
    else write_header located 302

is_token : ℕ → Bool
is_token c =
    (leb b'a' c && leb c b'z')
    || (leb b'A' c && leb c b'Z')
    || (leb b'0' c && leb c b'9')
    || contains c (codes "!#$%&'*+-.^_`|~")

upper : ℕ → ℕ
upper c = if leb b'a' c && leb c b'z' then c - 32 else c

lower : ℕ → ℕ
lower c = if leb b'A' c && leb c b'Z' then c + 32 else c

capitals : Bool → Bytes → Bytes
unfolding upper lower
capitals first [] = []
capitals first (c ∷ s) = (if first then upper c else lower c) ∷ capitals (nat_eq c b'-') s

all_tokens : Bytes → Bool
unfolding is_token
all_tokens [] = true
all_tokens (c ∷ s) = is_token c && all_tokens s

-- `http.CanonicalHeaderKey`
unfoldable pub canonical_key : Bytes → Bytes
unfolding capitals all_tokens
canonical_key k = if all_tokens k then capitals true k else k
