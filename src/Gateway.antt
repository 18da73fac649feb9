-- ===== src/Gateway.antt =====
-- gateway.go: which Shore gets a request, and in what form.
pub mod Path
pub mod Forwarded
pub mod Resolve
pub mod Route
pub mod Answer
pub mod Routed
pub mod Untouched
pub mod Kept
pub mod Stream
mod Tests
use dock.Base.{
  ℕ, ◌≡◌, Bool, true, false, not, ◌&&◌, ◌||◌, List, [], ◌∷◌, ◌++◌, Option, none, some, Bytes,
  Bytes_eq, Map, codes, keep, cut, trim_prefix, to_lower, lookup, insert, ◌==◌, nat_eq,
  if◌then◌else◌,
}
use dock.Protocol.{Headers}
use dock.Shore.{ShoreConnection}
use dock.Registry.{ShoreRegistry, get_by_owner}
use dock.Http.{Request, header_get, flatten_headers, extract_client_ip}

abbrev pub active_short_cookie_name : Bytes
active_short_cookie_name = codes "hermit_active_shore"

abbrev pub shore_prefix : Bytes
shore_prefix = codes "shore-"

-- A Shore with its pointer, and the prefix to strip.
abbrev pub Resolved : Type 0
Resolved = Option (ℕ × ShoreConnection × Bytes)

found : Option (ℕ × ShoreConnection) → Bytes → Resolved → Resolved
found none strip otherwise = otherwise
found (some (ref, s)) strip otherwise = some (ref, s, strip)

-- The second half of `resolveShore`: the value of the cookie, none where there is no such cookie.
resolve_by_cookie : ShoreRegistry → Bytes → Option Bytes → Resolved
unfolding found
resolve_by_cookie r user none = none
resolve_by_cookie r user (some value) =
    if value == [] then none else found (get_by_owner r user (shore_prefix ++ value)) [] none

-- `resolveShore`
unfoldable pub resolve_shore : ShoreRegistry → Request → Resolved
unfolding found resolve_by_cookie
resolve_shore r req =
    let by_cookie = resolve_by_cookie r req.user (lookup active_short_cookie_name req.cookies) in
    let trimmed = trim_prefix req.path (codes "/") in
    let segment = (cut b'/' trimmed).0 in
    if trimmed == []
    then by_cookie
    else found (get_by_owner r req.user (shore_prefix ++ segment)) segment by_cookie

ensure_slash : Bytes → Bytes
ensure_slash [] = b'/' ∷ []
ensure_slash (c ∷ p) = if nat_eq c b'/' then c ∷ p else b'/' ∷ c ∷ p

strip_path : Bytes → Bytes → Bytes
unfolding ensure_slash
strip_path path strip = if strip == [] then path else ensure_slash (trim_prefix path (b'/' ∷ strip))

-- The path that `routeToShore` forwards, from the URL's path and query and the prefix to strip.
unfoldable pub forward_path : Bytes → Bytes → Bytes → Bytes
unfolding strip_path
forward_path path raw_query strip =
    if raw_query == [] then strip_path path strip else strip_path path strip ++ b'?' ∷ raw_query

-- The names that no client may send.
unfoldable pub is_identity : Bytes → Bool
is_identity k =
    let name = to_lower k in
    name == codes "x-dock-user" || name == codes "x-dock-email" || name == codes "x-dock-provider"

-- `delete` in the loop over the headers
drop_identity : Headers → Headers
drop_identity h = keep (λ b. not (is_identity b.0)) h

add_nonempty : Bytes → Bytes → Headers → Headers
add_nonempty k v h = if v == [] then h else insert k v h

-- The headers that `routeToShore` forwards.
unfoldable pub forward_headers : Request → Headers
unfolding drop_identity add_nonempty
forward_headers req = add_nonempty (codes "X-Dock-User") req.user (
    drop_identity (
      add_nonempty (codes "X-Forwarded-For") (header_get req (codes "X-Forwarded-For")) (
        insert (codes "X-Real-IP") (extract_client_ip req.remote_addr)
          (flatten_headers req.header))))
