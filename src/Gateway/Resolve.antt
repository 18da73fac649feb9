-- ===== src/Gateway/Resolve.antt =====
-- Which Shores `resolveShore` can return.
use dock.Base.{
  ℕ, ◌≡◌, ◌⊎◌, refl, inl, inr, [], ◌++◌, Option, none, some, arith, Bytes, Bytes_eq, codes, lookup,
  get_elem?, cut, trim_prefix, ◌==◌, Bool-cases,
}
use dock.Shore.{ShoreConnection}
use dock.Registry.{ShoreRegistry, get_by_owner}
use dock.Registry.Lookup.{get_by_owner-eq-some_iff}
use dock.Http.{Request}
use dock.Gateway.{
  Resolved, found, resolve_by_cookie, resolve_shore, shore_prefix, active_short_cookie_name,
}

-- The first segment of a path
abbrev pub first_segment : Bytes → Bytes
first_segment path = (cut b'/' (trim_prefix path (codes "/"))).0

found_cases :
    (o : Option (ℕ × ShoreConnection))
    → (strip : Bytes) → (otherwise : Resolved) → (ref : ℕ) → (s : ShoreConnection) → (got : Bytes)
    → found o strip otherwise ≡ some (ref, s, got)
    → ((o ≡ some (ref, s)) × (got ≡ strip)) ⊎ (otherwise ≡ some (ref, s, got))
unfolding found
found_cases none strip otherwise ref s got h = inr h
found_cases (some (q, t)) strip otherwise ref s got h = inl (ground arith)

module _ (r : ShoreRegistry) (user : Bytes) (ref : ℕ) (s : ShoreConnection) (got : Bytes) where
  resolve_by_cookie_sound :
      (cookie : Option Bytes)
      → resolve_by_cookie r user cookie ≡ some (ref, s, got)
      → (value : Bytes) × (cookie ≡ some value)
        × (get_by_owner r user (shore_prefix ++ value) ≡ some (ref, s))
        × (got ≡ [])
  unfolding resolve_by_cookie
  resolve_by_cookie_sound none h = cc
  resolve_by_cookie_sound (some value) h = elim (Bool-cases (value == [])) [
    | inl t ↦ ground arith
    | inr f ↦
        elim (found_cases (get_by_owner r user (shore_prefix ++ value)) [] none ref s got
          (rw f at h)) [ inl (o, g) ↦ (value, refl, o, g) | inr e ↦ cc ]
  ]

-- The Shore behind `ref` is registered under "shore-x" and belongs to the requester.
abbrev pub OwnShore : ShoreRegistry → Request → ℕ → ShoreConnection → Bytes → Type 0
OwnShore r req ref s x =
    (lookup (shore_prefix ++ x) r.shores ≡ some ref)
    × (get_elem? r.heap ref ≡ some s)
    × (s.owner ≡ req.user)

-- By the path, or by the cookie.
abbrev pub Chosen : Request → Bytes → Bytes → Type 0
Chosen req strip x =
    ((strip ≡ x) × (x ≡ first_segment req.path))
    ⊎ ((strip ≡ []) × (lookup active_short_cookie_name req.cookies ≡ some x))

cookie_sound :
    (r : ShoreRegistry)
    → (req : Request) → (ref : ℕ) → (s : ShoreConnection) → (strip : Bytes)
    → resolve_by_cookie r req.user (lookup active_short_cookie_name req.cookies)
      ≡ some (ref, s, strip)
    → (x : Bytes) × OwnShore r req ref s x × Chosen req strip x
cookie_sound r req ref s strip h =
    let (x, at, got, nothing) =
      resolve_by_cookie_sound r req.user ref s strip (lookup active_short_cookie_name req.cookies)
        h in
    (x, (get_by_owner-eq-some_iff r req.user (shore_prefix ++ x) ref s).0 got, inr (nothing, at))

-- A Shore that a request goes to is registered under the name "shore-x" and belongs to the
-- authenticated user. Either x is the first segment of the request's path, which is then the prefix to
-- strip, or x is the value of the cookie, and nothing is stripped.
pub resolve_shore_sound :
    (r : ShoreRegistry)
    → (req : Request) → (ref : ℕ) → (s : ShoreConnection) → (strip : Bytes)
    → resolve_shore r req ≡ some (ref, s, strip)
    → (x : Bytes) × OwnShore r req ref s x × Chosen req strip x
unfolding resolve_shore
resolve_shore_sound r req ref s strip h =
    let segment = first_segment req.path in
    let mine = get_by_owner r req.user (shore_prefix ++ segment) in
    let cookie = resolve_by_cookie r req.user (lookup active_short_cookie_name req.cookies) in
    elim (Bool-cases (trim_prefix req.path (codes "/") == [])) [
      | inl t ↦ cookie_sound r req ref s strip (rw t at h)
      | inr f ↦ elim (found_cases mine segment cookie ref s strip (rw f at h)) [
        | inl (o, g) ↦ (
          segment,
          (get_by_owner-eq-some_iff r req.user (shore_prefix ++ segment) ref s).0 o,
          inl (g, refl),
        )
        | inr e ↦ cookie_sound r req ref s strip e
      ]
    ]
