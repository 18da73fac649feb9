-- ===== src/Server/Serve/Protected.antt =====
-- Which paths answer a client that has not signed in.
use dock.Base.{
  ℕ, ◌≡◌, ◌⊎◌, refl, ap, ◌∙◌, inl, inr, Bool, false, ◌||◌, Option, none, some, arith, Bytes,
  Bytes_eq, codes, lookup, has_prefix, ◌==◌, Option-cases,
}
use dock.Session.{extract_session_user}
use dock.Registry.{ShoreRegistry}
use dock.Http.{Request}
use dock.Http.Writer.{Writer}
use dock.Auth.{
  Settings, cookie_name, session_max_age, session_user, require_session, unauthenticated,
}
use dock.Gateway.Route.{Handed, Started, replied}
use dock.Status.{StatusReply}
use dock.Status.Reply.{SortSlice}
use dock.Server.{Route, mux, Pages, behind_session, guarded_route, guarded}
use dock.Server as Server
use dock.Server.Serve.{Shared, Outside, through, passed, on_route, serve}

-- The paths that are meant for everybody.
abbrev pub is_public : Bytes → Bool
is_public path =
    path == codes "/healthz"
    || path == codes "/shore/connect"
    || path == codes "/login"
    || path == codes "/register"
    || path == codes "/logout"
    || has_prefix path (codes "/static/")
    || has_prefix path (codes "/auth/")

-- The routes that are left.
IsPrivate : Route → Type 0
IsPrivate route = (route ≡ Server.status) ⊎ ((route ≡ Server.api_shores) ⊎ (route ≡ Server.other))

mux-IsPrivate : (path : Bytes) → is_public path ≡ false → IsPrivate (mux path)
unfolding mux IsPrivate
mux-IsPrivate path h = ground arith

module _ (hmac : Bytes → Bytes → Bytes) (app : Settings) where
  -- No cookie of the request carries a token that is accepted.
  abbrev pub SignedOut : Request → ℕ → Type 0
  SignedOut req now =
      (value : Bytes)
      → lookup cookie_name req.cookies ≡ some value
      → extract_session_user hmac value app.session_secret session_max_age now ≡ none

  session_user-none :
      (req : Request) (now : ℕ) → SignedOut req now → session_user hmac app now req ≡ none
  unfolding session_user
  session_user-none req now out = elim (Option-cases (lookup cookie_name req.cookies)) [
    | inl e ↦ rw (session_user, e) refl
    | inr (value, e) ↦ rw (session_user, e) (out value e)
  ]

  module _ (sort_slice : SortSlice) (encode : StatusReply → Bytes) (pages : Pages) where
    behind_session-none :
        (r : ShoreRegistry) (now : ℕ) (next : Request → ShoreRegistry × Started) (req : Request)
        (w : Writer)
        → session_user hmac app now req ≡ none
        → behind_session hmac sort_slice encode app pages r now next req w
          ≡ (r, replied (unauthenticated hmac pages.login_page req w))
    unfolding behind_session require_session
    behind_session-none r now next req w e = rw (behind_session, require_session, e) refl

    guarded_route-none :
        (kind : Handed) (r : ShoreRegistry) (now : ℕ) (id : Bytes) (sent : Bool) (req : Request)
        (w : Writer) (route : Route)
        → session_user hmac app now req ≡ none
        → IsPrivate route
        → guarded_route hmac sort_slice encode app pages kind r now id sent req w route
          ≡ some (r, replied (unauthenticated hmac pages.login_page req w))
    unfolding guarded_route IsPrivate
    guarded_route-none kind r now id sent req w route e (inl p) =
        rw p (ap some (behind_session-none r now _ req w e))
    guarded_route-none kind r now id sent req w route e (inr (inl p)) =
        rw p (ap some (behind_session-none r now _ req w e))
    guarded_route-none kind r now id sent req w route e (inr (inr p)) =
        rw p (ap some (behind_session-none r now _ req w e))

    module _ {Pool : Type 0} (pool : Option Pool) (compare : Bytes → Bytes → Bool)
        (generate : Bytes → Option Bytes) (static_file : Request → Writer → Writer) where
      on_route-IsPrivate :
          (route : Route) (s : Shared) (o : Outside Pool) (req : Request) (w : Writer)
          → IsPrivate route
          → on_route hmac sort_slice encode app pages pool compare generate static_file route s o
              req w
            ≡ passed s
                (guarded hmac sort_slice encode app pages o.kind s.registry o.now o.id o.sent req w)
      unfolding on_route IsPrivate
      on_route-IsPrivate route s o req w (inl p) = rw p refl
      on_route-IsPrivate route s o req w (inr (inl p)) = rw p refl
      on_route-IsPrivate route s o req w (inr (inr p)) = rw p refl

      -- Apart from /healthz, /shore/connect, /login, /register, /logout and what stands under /static/
      -- and /auth/, no path does anything for a client without a token that is accepted: it gets the
      -- login page or the status 401, which depend on nothing that is stored, and the registry and the
      -- user table stay as they are.
      pub serve-SignedOut :
          (s : Shared) (o : Outside Pool) (req : Request) (w : Writer)
          → is_public req.path ≡ false
          → SignedOut req o.now
          → serve hmac sort_slice encode app pages pool compare generate static_file s o req w
            ≡ some (s, through (replied (unauthenticated hmac pages.login_page req w)))
      unfolding serve guarded passed
      serve-SignedOut s o req w private out =
          let left = mux-IsPrivate req.path private in
          on_route-IsPrivate (mux req.path) s o req w left
          ∙ ap (passed s) (
              guarded_route-none o.kind s.registry o.now o.id o.sent req w (mux req.path)
                (session_user-none req o.now out) left)
