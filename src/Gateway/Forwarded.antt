-- ===== src/Gateway/Forwarded.antt =====
-- The headers that are forwarded.
use dock.Base.{
  subst, ℕ, ◌≡◌, ◌≢◌, refl, sym, ap, ◌∙◌, inl, inr, Bool, true, false, not, List, [], ◌∷◌, Option,
  none, some, arith, Bytes, Bytes_eq, Map, codes, join, keep, lookup, lookup-insert, insert,
  if◌then◌else◌, ◌==◌, Bool-cases, beq_ne, beq_cases, to_lower,
}
use mathlib.Core.Option
use dock.Protocol.{Headers}
use dock.Http.{Request, flatten_headers, header_get, extract_client_ip}
use dock.Gateway.{is_identity, drop_identity, add_nonempty, forward_headers}

abbrev pub x_dock_user : Bytes
x_dock_user = codes "X-Dock-User"

abbrev pub x_forwarded_for : Bytes
x_forwarded_for = codes "X-Forwarded-For"

abbrev pub x_real_ip : Bytes
x_real_ip = codes "X-Real-IP"

lookup-add_nonempty :
    (k' k v : Bytes)
    → (h : Headers)
    → lookup k' (add_nonempty k v h)
      ≡ (if v == [] then lookup k' h else if k == k' then some v else lookup k' h)
unfolding add_nonempty
lookup-add_nonempty k' k v h = ground (arith, lookup-insert k k' v h, Bool-cases (v == []))

lookup-drop_identity :
    (k : Bytes)
    → (h : Headers) → lookup k (drop_identity h) ≡ (if is_identity k then none else lookup k h)
unfolding drop_identity lookup keep
lookup-drop_identity k [] = elim (Bool-cases (is_identity k)) [ inl t ↦ rw t | inr f ↦ rw f ]
lookup-drop_identity k ((k', v) ∷ h) = elim (beq_cases k' k) [
  | inl (p, t) ↦
      ground (arith, p, t, ap is_identity p, lookup-drop_identity k h, Bool-cases (is_identity k))
  | inr (n, f) ↦ ground (arith, f, lookup-drop_identity k h, Bool-cases (is_identity k'))
]

lookup-flatten_headers :
    (k : Bytes)
    → (h : Map Bytes (List Bytes))
    → lookup k (flatten_headers h) ≡ Option.map (join (codes ", ")) (lookup k h)
unfolding flatten_headers lookup
lookup-flatten_headers k [] = refl
lookup-flatten_headers k ((k', vs) ∷ h) = ground (
  arith,
  lookup-insert k' k (join (codes ", ") vs) (flatten_headers h),
  lookup-flatten_headers k h,
  Bool-cases (k' == k),
)

-- The value that the names X-Forwarded-For and X-Real-IP get before anything is stripped
plain_headers : Request → Headers
plain_headers req =
    add_nonempty x_forwarded_for (header_get req x_forwarded_for)
      (insert x_real_ip (extract_client_ip req.remote_addr) (flatten_headers req.header))

forward_headers-plain :
    (req : Request)
    → forward_headers req ≡ add_nonempty x_dock_user req.user (drop_identity (plain_headers req))
unfolding forward_headers plain_headers
forward_headers-plain req = refl

is_identity-x_dock_user : is_identity x_dock_user ≡ true
unfolding is_identity to_lower dock.Base.bytes_eq
is_identity-x_dock_user = refl

-- No client can set an identity header: of the names that are X-Dock-User, X-Dock-Email or
-- X-Dock-Provider in any spelling, the forwarded headers hold X-Dock-User alone, with the name of the
-- authenticated user, and none if there is no user.
pub forward_headers-identity :
    (req : Request)
    → (k : Bytes) → is_identity k ≡ true
    → lookup k (forward_headers req)
      ≡ (if req.user == [] then none else if x_dock_user == k then some req.user else none)
forward_headers-identity req k h =
    ap (λ m. lookup k m) (forward_headers-plain req)
    ∙ lookup-add_nonempty k x_dock_user req.user (drop_identity (plain_headers req))
    ∙ rw (lookup-drop_identity k (plain_headers req), h)

-- The same, for the one name and a user that is someone's owner.
pub forward_headers-user :
    (req : Request) (owner : Bytes)
    → owner ≡ req.user
    → lookup x_dock_user (forward_headers req) ≡ (if owner == [] then none else some owner)
forward_headers-user req owner same =
    forward_headers-identity req x_dock_user is_identity-x_dock_user
    ∙ subst
        (λ u.
          (if u == [] then none else if x_dock_user == x_dock_user then some u else none)
          ≡ (if owner == [] then none else some owner))
        same (unfold dock.Base.bytes_eq in refl)

plain_headers_lem :
    (req : Request)
    → (k : Bytes)
    → lookup k (plain_headers req) ≡ (
        let joined = Option.map (join (codes ", ")) (lookup k req.header) in
        let rest = if x_real_ip == k then some (extract_client_ip req.remote_addr) else joined in
        let first = header_get req x_forwarded_for in
        if first == [] then rest else if x_forwarded_for == k then some first else rest)
unfolding plain_headers
plain_headers_lem req k =
    let ip = extract_client_ip req.remote_addr in
    rw (
      lookup-add_nonempty k x_forwarded_for (header_get req x_forwarded_for)
          (insert x_real_ip ip (flatten_headers req.header)),
      lookup-insert x_real_ip k ip (flatten_headers req.header),
      lookup-flatten_headers k req.header,
    )

not_x_dock_user : (k : Bytes) → is_identity k ≡ false → (x_dock_user == k) ≡ false
not_x_dock_user k h = elim (beq_cases x_dock_user k) [
  | inl (p, t) ↦ ground (arith, sym is_identity-x_dock_user ∙ ap is_identity p, h)
  | inr (n, f) ↦ f
]

-- What every other header is forwarded as: X-Forwarded-For has its first value if that is not empty,
-- X-Real-IP is the address of the connection, and the values of any other are joined by commas.
pub forward_headers-others :
    (req : Request)
    → (k : Bytes) → is_identity k ≡ false
    → lookup k (forward_headers req) ≡ (
        let joined = Option.map (join (codes ", ")) (lookup k req.header) in
        let rest = if x_real_ip == k then some (extract_client_ip req.remote_addr) else joined in
        let first = header_get req x_forwarded_for in
        if first == [] then rest else if x_forwarded_for == k then some first else rest)
forward_headers-others req k h =
    ap (λ m. lookup k m) (forward_headers-plain req)
    ∙ lookup-add_nonempty k x_dock_user req.user (drop_identity (plain_headers req))
    ∙ ground (
      arith,
      not_x_dock_user k h,
      lookup-drop_identity k (plain_headers req),
      Bool-cases (req.user == []),
    )
    ∙ plain_headers_lem req k
