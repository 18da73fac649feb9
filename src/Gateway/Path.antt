-- ===== src/Gateway/Path.antt =====
-- The path that is forwarded.
use dock.Base.{
  codes, ℕ, ◌≡◌, ◌≢◌, ◌⊎◌, refl, sym, ap, ◌∙◌, inl, inr, Bool, true, false, List, [], ◌∷◌, ◌++◌,
  Option, none, some, arith, Bytes, Bytes_eq, bytes_eq_iff, trim_prefix, trim_prefix-append,
  append_assoc, append-nil, nat_eq_iff, if◌then◌else◌, ◌==◌, Bool-cases, beq_ne, Without, cut,
  cut-append, cut-none,
}
use dock.Shore.{ShoreConnection}
use dock.Registry.{ShoreRegistry, get_by_owner}
use dock.Http.{Request}
use dock.Gateway.{strip_path, forward_path, resolve_shore, shore_prefix}

abbrev pub query : Bytes → Bytes
query raw = if raw == [] then [] else b'?' ∷ raw

query-some : (raw : Bytes) → raw ≢ [] → query raw ≡ b'?' ∷ raw
query-some raw ne = ground (arith, bytes_eq_iff raw [])

forward_path-query :
    (path raw strip : Bytes) → forward_path path raw strip ≡ strip_path path strip ++ query raw
unfolding forward_path
forward_path-query path raw strip = ground (arith, append-nil (strip_path path strip))

strip_path-below :
    (seg rest : Bytes) → seg ≢ [] → strip_path (b'/' ∷ seg ++ b'/' ∷ rest) seg ≡ b'/' ∷ rest
unfolding strip_path
strip_path-below seg rest ne = ground (
  arith,
  bytes_eq_iff seg [],
  trim_prefix-append (b'/' ∷ seg) (b'/' ∷ rest),
  nat_eq_iff b'/' b'/',
)

strip_path-root : (seg : Bytes) → seg ≢ [] → strip_path (b'/' ∷ seg) seg ≡ b'/' ∷ []
unfolding strip_path
strip_path-root seg ne =
    ground (arith, bytes_eq_iff seg [], trim_prefix-append (b'/' ∷ seg) [], append-nil (b'/' ∷ seg))

-- A request for "/seg/rest" whose first segment is not empty goes on as "/rest", and one for "/seg"
-- as "/", each with its query.
pub forward_path-prefix :
    (seg rest raw : Bytes)
    → seg ≢ []
    → (forward_path (b'/' ∷ seg ++ b'/' ∷ rest) raw seg ≡ b'/' ∷ rest ++ query raw)
      × (forward_path (b'/' ∷ seg) raw seg ≡ b'/' ∷ query raw)
forward_path-prefix seg rest raw ne = (
  forward_path-query (b'/' ∷ seg ++ b'/' ∷ rest) raw seg
      ∙ ap (λ p. p ++ query raw) (strip_path-below seg rest ne),
  forward_path-query (b'/' ∷ seg) raw seg ∙ ap (λ p. p ++ query raw) (strip_path-root seg ne),
)

query_moved : (p raw : Bytes) → raw ≢ [] → (p ++ b'?' ∷ raw) ++ query [] ≡ p ++ query raw
unfolding dock.Base.bytes_eq
query_moved p raw ne = append-nil (p ++ b'?' ∷ raw) ∙ ap (λ q. p ++ q) (sym (query-some raw ne))

-- The URL's path is decoded, and it is not encoded again: a request whose path holds a question mark
-- (sent as %3F) and that has no query is forwarded just as another request, whose path ends before
-- the question mark and whose query is what follows it.
pub forward_path-confused :
    (seg rest raw : Bytes)
    → seg ≢ []
    → raw ≢ []
    → forward_path (b'/' ∷ seg ++ b'/' ∷ (rest ++ b'?' ∷ raw)) [] seg
      ≡ forward_path (b'/' ∷ seg ++ b'/' ∷ rest) raw seg
forward_path-confused seg rest raw ne ne' =
    (forward_path-prefix seg (rest ++ b'?' ∷ raw) [] ne).0
    ∙ query_moved (b'/' ∷ rest) raw ne'
    ∙ sym (forward_path-prefix seg rest raw ne).0

append_nonempty : (s : Bytes) → (c : ℕ) → (t : Bytes) → s ++ c ∷ t ≢ []
append_nonempty [] c t = λ e. cc
append_nonempty (x ∷ s) c t = λ e. cc

-- `resolve_shore` on a path whose first segment has a Shore
resolve_shore-segment :
    (r : ShoreRegistry)
    → (req : Request) → (ref : ℕ) → (s : ShoreConnection) → (trimmed seg : Bytes)
    → trim_prefix req.path (codes "/") ≡ trimmed
    → trimmed ≢ []
    → (cut b'/' trimmed).0 ≡ seg
    → get_by_owner r req.user (shore_prefix ++ seg) ≡ some (ref, s)
    → resolve_shore r req ≡ some (ref, s, seg)
unfolding resolve_shore
resolve_shore-segment r req ref s trimmed seg at_path ne at_cut mine =
    rw (at_path, at_cut, mine, beq_ne trimmed [] ne)

-- A request whose path begins with "/seg/", or is "/seg", goes to the requester's own Shore
-- "shore-seg", if there is one, with the segment to be stripped, whatever its cookies say.
pub resolve_shore-prefix :
    (r : ShoreRegistry)
    → (req : Request) → (ref : ℕ) → (s : ShoreConnection) → (seg rest : Bytes) → seg ≢ []
    → Without b'/' seg
    → get_by_owner r req.user (shore_prefix ++ seg) ≡ some (ref, s)
    → (req.path ≡ b'/' ∷ seg ++ b'/' ∷ rest) ⊎ (req.path ≡ b'/' ∷ seg)
    → resolve_shore r req ≡ some (ref, s, seg)
resolve_shore-prefix r req ref s seg rest ne plain mine (inl at_path) =
    resolve_shore-segment r req ref s (seg ++ b'/' ∷ rest) seg
      (ap (λ p. trim_prefix p (codes "/")) at_path
        ∙ trim_prefix-append (codes "/") (seg ++ b'/' ∷ rest))
      (append_nonempty seg b'/' rest) (ap (λ c. c.0) (cut-append b'/' seg rest plain)) mine
resolve_shore-prefix r req ref s seg rest ne plain mine (inr at_path) =
    resolve_shore-segment r req ref s seg seg
      (ap (λ p. trim_prefix p (codes "/")) at_path ∙ trim_prefix-append (codes "/") seg) ne
      (ap (λ c. c.0) (cut-none b'/' seg plain)) mine
