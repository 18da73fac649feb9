-- ===== src/Server.antt =====
-- main.go: the routes of `main` that the middleware `requireSession` guards, and /healthz. A path is one
-- that `http.ServeMux` does not redirect.
pub mod Isolation
pub mod Serve
pub mod Running
mod Tests
use dock.Base.{
  ℕ, Bool, true, false, List, [], ◌∷◌, ◌++◌, Option, none, some, Bytes, Bytes_eq, codes, has_prefix,
  length, ◌==◌, if◌then◌else◌,
}
use dock.Base.Decimal.{format}
use dock.Shore.{ShoreConnection}
use dock.Registry.{ShoreRegistry, list}
use dock.Http.{Request}
use dock.Http.Writer.{Writer, set_header, write_header, write, http_error}
use dock.Auth.{Settings, require_session}
use dock.Gateway.Route.{Handed, Started, replied, route_to_shore}
use dock.Status.{StatusReply, status_handler, api_shores_handler}

-- The patterns that `main` hands to the mux.
pub data Route : Type 0 where
  healthz static shore_connect login register logout oauth status api_shores other : Route

-- The longest pattern that fits counts.
unfoldable pub mux : Bytes → Route
mux path =
    if path == codes "/healthz"
    then healthz
    else if has_prefix path (codes "/static/")
    then static
    else if path == codes "/shore/connect"
    then shore_connect
    else if path == codes "/login"
    then login
    else if path == codes "/register"
    then register
    else if path == codes "/logout"
    then logout
    else if has_prefix path (codes "/auth/")
    then oauth
    else if path == codes "/status"
    then status
    else if path == codes "/api/shores"
    then api_shores
    else other

-- The handler of /healthz
unfoldable pub healthz_handler : ShoreRegistry → Writer → Writer
healthz_handler r w =
    write (write_header (set_header w (codes "Content-Type") (codes "application/json")) 200)
      (codes "{\"status\":\"ok\",\"shores\":" ++ (format (length (list r.shores)) ++ codes "}"))

-- The page at "/", with the bytes of static/landing.html, none where that cannot be read.
unfoldable pub landing : Option Bytes → Writer → Writer
landing none w = http_error w (codes "Landing page not found") 500
landing (some page) w =
    write
      (write_header
        (set_header (set_header w (codes "Content-Type") (codes "text/html; charset=utf-8"))
          (codes "Cache-Control") (codes "no-store"))
        200)
      page

-- The pages that are embedded in the program.
pub record Pages : Type 0 where
  pub login_page : Bytes
  pub landing_page : Option Bytes

-- The handler behind the pattern "/", with the id that `generateID` draws and whether the Shore's
-- socket takes the message
unfoldable pub other_handler :
    Handed → Pages → ShoreRegistry → Bytes → Bool → Request → Writer → ShoreRegistry × Started
unfolding landing
other_handler kind pages r id sent req w =
    if req.path == codes "/"
    then (r, replied (landing pages.landing_page w))
    else route_to_shore kind r req id sent w

module _ (hmac : Bytes → Bytes → Bytes)
    (sort_slice : (ShoreConnection → ShoreConnection → Bool)
      → List ShoreConnection
      → List ShoreConnection)
    (encode : StatusReply → Bytes) (app : Settings) (pages : Pages) where
  -- A route behind `requireSession`
  unfoldable pub behind_session :
      ShoreRegistry
      → ℕ
      → (Request → ShoreRegistry × Started)
      → Request
      → Writer
      → ShoreRegistry × Started
  behind_session r now next req w =
      require_session hmac app pages.login_page now next (λ w'. (r, replied w')) req w

  -- The routes that `main` wraps, each by a `requireSession` of its own: none for any other.
  unfoldable pub guarded_route :
      Handed
      → ShoreRegistry
      → ℕ
      → Bytes
      → Bool
      → Request
      → Writer
      → Route
      → Option (ShoreRegistry × Started)
  guarded_route kind r now id sent req w status =
      some (behind_session r now (λ u. (r, replied (status_handler sort_slice encode r u w))) req w)
  guarded_route kind r now id sent req w api_shores =
      some (
        behind_session r now (λ u. (r, replied (api_shores_handler sort_slice encode r u w))) req w)
  guarded_route kind r now id sent req w other =
      some (behind_session r now (λ u. other_handler kind pages r id sent u w) req w)
  guarded_route kind r now id sent req w _ = none

  -- What the mux does with a request for one of those routes.
  unfoldable pub guarded :
      Handed
      → ShoreRegistry
      → ℕ
      → Bytes
      → Bool
      → Request
      → Writer
      → Option (ShoreRegistry × Started)
  guarded kind r now id sent req w = guarded_route kind r now id sent req w (mux req.path)
