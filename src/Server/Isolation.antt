-- ===== src/Server/Isolation.antt =====
-- What a request can reach, from the mux on.
use dock.Base.{
  ℕ, ◌≡◌, ◌≢◌, refl, sym, ap, ◌∙◌, subst, inl, inr, Bool, Option, none, some, Bytes, Bytes_eq,
  codes, get_elem?, ◌==◌, Bool-cases, Option-cases,
}
use dock.Shore.{ShoreConnection}
use dock.Registry.{ShoreRegistry}
use dock.Http.{Request}
use dock.Http.Writer.{Writer}
use dock.Auth.{Settings, session_user, require_session}
use dock.Gateway.Route.{Handed, Started}
use dock.Gateway.Untouched.{Untouched, route_to_shore-Untouched}
use dock.Status.{StatusReply}
use dock.Status.Reply.{SortSlice}
use dock.Server.{
  Route, status, api_shores, other, mux, Pages, other_handler, behind_session, guarded_route,
  guarded,
}

other_handler-Untouched :
    (kind : Handed) (pages : Pages) (r : ShoreRegistry) (q : ℕ) (s : ShoreConnection) (id : Bytes)
    (sent : Bool) (req : Request) (w : Writer)
    → get_elem? r.heap q ≡ some s
    → s.owner ≢ req.user
    → Untouched r q s (other_handler kind pages r id sent req w).0
unfolding other_handler
other_handler-Untouched kind pages r q s id sent req w there ne =
    elim (Bool-cases (req.path == codes "/")) [
      | inl t ↦ rw (other_handler, t) (refl, there)
      | inr f ↦ rw (other_handler, f) (route_to_shore-Untouched r q s there kind req id sent w ne)
    ]

module _ (hmac : Bytes → Bytes → Bytes) (sort_slice : SortSlice) (encode : StatusReply → Bytes)
    (app : Settings) (pages : Pages) where
  -- What a handler behind the session may assume of its request holds for the user of the session.
  behind_session-Untouched :
      (r : ShoreRegistry) (q : ℕ) (s : ShoreConnection) (now : ℕ)
      (next : Request → ShoreRegistry × Started) (req : Request) (w : Writer)
      → get_elem? r.heap q ≡ some s
      → session_user hmac app now req ≢ some s.owner
      → ((u : Request) → s.owner ≢ u.user → Untouched r q s (next u).0)
      → Untouched r q s (behind_session hmac sort_slice encode app pages r now next req w).0
  unfolding behind_session require_session
  behind_session-Untouched r q s now next req w there stranger keeps =
      elim (Option-cases (session_user hmac app now req)) [
        | inl e ↦ rw (behind_session, require_session, e) (refl, there)
        | inr (user, e) ↦
            rw (behind_session, require_session, e)
              (keeps (record req { user = user }) (λ mine. stranger (e ∙ ap some (sym mine))))
      ]

  module _ (r : ShoreRegistry) (q : ℕ) (s : ShoreConnection) where
    -- What a route leaves of `s`, if it is guarded.
    Left : Option (ShoreRegistry × Started) → Type 0
    Left none = Unit
    Left (some (r1, _)) = Untouched r q s r1

    guarded_route-Left :
        (kind : Handed) (now : ℕ) (id : Bytes) (sent : Bool) (req : Request) (w : Writer)
        (route : Route)
        → get_elem? r.heap q ≡ some s
        → session_user hmac app now req ≢ some s.owner
        → Left (guarded_route hmac sort_slice encode app pages kind r now id sent req w route)
    unfolding guarded_route Left
    guarded_route-Left kind now id sent req w status there stranger =
        behind_session-Untouched r q s now _ req w there stranger (λ u ne. (refl, there))
    guarded_route-Left kind now id sent req w api_shores there stranger =
        behind_session-Untouched r q s now _ req w there stranger (λ u ne. (refl, there))
    guarded_route-Left kind now id sent req w other there stranger =
        behind_session-Untouched r q s now _ req w there stranger
          (λ u ne. other_handler-Untouched kind pages r q s id sent u w there ne)
    guarded_route-Left kind now id sent req w _ there stranger = tt

    -- Isolation of the users. Of the routes that are guarded, a request changes no Shore but one that
    -- belongs to the user whose session it carries, and the names under which Shores are registered
    -- not at all.
    pub guarded-isolated :
        (kind : Handed) (now : ℕ) (id : Bytes) (sent : Bool) (req : Request) (w : Writer)
        (r' : ShoreRegistry) (answer : Started)
        → get_elem? r.heap q ≡ some s
        → session_user hmac app now req ≢ some s.owner
        → guarded hmac sort_slice encode app pages kind r now id sent req w ≡ some (r', answer)
        → Untouched r q s r'
    unfolding guarded Left
    guarded-isolated kind now id sent req w r' answer there stranger h =
        subst Left h (guarded_route-Left kind now id sent req w (mux req.path) there stranger)
