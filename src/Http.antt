-- ===== src/Http.antt =====
-- What the handlers read of a request and write to a response, with the helpers of main.go and
-- gateway.go on headers and addresses.
mod Tests
pub mod Methods
pub mod Writer
use dock.Base.{
  ℕ, ◌≡◌, Bool, true, false, ◌&&◌, ◌||◌, List, [], ◌∷◌, ◌++◌, Option, none, some, Bytes, Bytes_eq,
  Map, codes, join, cut, cut_last, strip_prefix?, lookup, insert, delete, ◌==◌, nat_eq,
  if◌then◌else◌,
}

-- `http.Request`: `path` and `raw_query` are of its URL, the keys of `header` are in Go's canonical
-- form, `cookies` are those that net/http could parse, first match first. `user` is what
-- `requireSession` put into the context, empty for nothing (`getUser`). `body` is none for a nil Body;
-- a Body gives what reading it to its end gives, none for an error
-- within its first 10 MB.
pub record Request : Type 0 where
  pub method : Bytes
  pub path : Bytes
  pub raw_query : Bytes
  pub header : Map Bytes (List Bytes)
  pub cookies : Map Bytes Bytes
  pub remote_addr : Bytes
  pub body : Option (Option Bytes)
  pub user : Bytes

first_value : Option (List Bytes) → Bytes
first_value none = []
first_value (some []) = []
first_value (some (v ∷ vs)) = v

-- `r.Header.Get(name)` for a name in canonical form
unfoldable pub header_get : Request → Bytes → Bytes
unfolding first_value
header_get r name = first_value (lookup name r.header)

-- `flattenHeaders`
unfoldable pub flatten_headers : Map Bytes (List Bytes) → Map Bytes Bytes
flatten_headers [] = []
flatten_headers ((k, vals) ∷ h) = insert k (join (codes ", ") vals) (flatten_headers h)

unfoldable pub contains : ℕ → Bytes → Bool
contains c [] = false
contains c (x ∷ s) = nat_eq x c || contains c s

-- What is left of a bracketed host behind its '[': all up to a ']' at its end.
inside_brackets : Bytes × Option Bytes → Bytes → Option Bytes
inside_brackets (host, some []) port =
    if contains b'[' (host ++ port) || contains b']' port then none else some host
inside_brackets _ port = none

host_part : Bytes → Bytes → Option Bytes
unfolding contains inside_brackets
host_part before port = elim (strip_prefix? before (b'[' ∷ [])) [
  | some inner ↦ inside_brackets (cut b']' inner) port
  | none ↦
      if contains b':' before || contains b'[' (before ++ port) || contains b']' (before ++ port)
      then none
      else some before
]

-- The host of `net.SplitHostPort`, none for an error.
unfoldable pub split_host : Bytes → Option Bytes
unfolding host_part
split_host s = elim (cut_last b':' s) [ none ↦ none | some (before, port) ↦ host_part before port ]

-- `extractClientIP`
unfoldable pub extract_client_ip : Bytes → Bytes
unfolding split_host
extract_client_ip addr = elim (split_host addr) [ none ↦ addr | some host ↦ host ]
