-- ===== src/Auth/SignedIn.antt =====
-- main.go: `setSessionCookie` and `requireSession` together.
use dock.Base.{
  ℕ, ◌≡◌, ◌≢◌, ◌-◌, ◌*◌, ◌^◌, ◌≤◌, ◌<◌, refl, sym, ap, ◌∙◌, List, [], ◌∷◌, ◌++◌, Option, none, some,
  arith, Bytes, Bytes_eq, lookup,
}
use dock.Base.Hex.{AreBytes}
use dock.Auth.Octets.{AreOctets, create_session_token-AreOctets}
use dock.Session.{second, unix_epoch, create_session_token}
use dock.Session.Token.{extract-create, extract-create_expired}
use dock.Http.{Request}
use dock.Http.Writer.{Writer, Cookie}
use dock.Auth.{
  Settings, session_cookie, cookie_name, session_max_age, set_session_cookie, session_user,
  require_session, unauthenticated,
}

-- The cookie that was set last.
unfoldable pub last_cookie : List Cookie → Option Cookie
last_cookie [] = none
last_cookie (c ∷ []) = some c
last_cookie (c ∷ d ∷ cs) = last_cookie (d ∷ cs)

last_cookie-append : (cs : List Cookie) (c : Cookie) → last_cookie (cs ++ c ∷ []) ≡ some c
unfolding last_cookie
last_cookie-append [] c = refl
last_cookie-append (d ∷ []) c = refl
last_cookie-append (d ∷ e ∷ cs) c = last_cookie-append (e ∷ cs) c

-- The request brings back the cookie that was set: `carry` is what becomes of its value on the way, from
-- http.SetCookie to the browser and back to `r.Cookie`.
abbrev pub Returns : (Bytes → Bytes) → Request → Writer → Type 0
Returns carry req w =
    (c : Cookie) × (last_cookie w.cookies ≡ some c)
    × (lookup c.name req.cookies ≡ some (carry c.value))

module _ (hmac : Bytes → Bytes → Bytes) (carry : Bytes → Bytes) (app : Settings) where
  Returns-set_session_cookie :
      (ts : ℕ) (w : Writer) (u : Bytes) (req : Request)
      → Returns carry req (set_session_cookie hmac app ts w u)
      → lookup cookie_name req.cookies
        ≡ some (carry (create_session_token hmac u app.session_secret ts))
  unfolding set_session_cookie session_cookie dock.Http.Writer.set_cookie
  Returns-set_session_cookie ts w u req (c, last, back) =
      ground (arith, sym (last_cookie-append w.cookies (session_cookie hmac app ts u)) ∙ last, back)

  Returns-token :
      (ts : ℕ) (w : Writer) (u : Bytes) (req : Request)
      → ((v : Bytes) → AreOctets v → carry v ≡ v)
      → ((m : Bytes) → AreBytes (hmac app.session_secret m))
      → AreOctets u
      → Returns carry req (set_session_cookie hmac app ts w u)
      → lookup cookie_name req.cookies ≡ some (create_session_token hmac u app.session_secret ts)
  Returns-token ts w u req same bytes name back =
      Returns-set_session_cookie ts w u req back
      ∙ ap some (
          same (create_session_token hmac u app.session_secret ts)
            (create_session_token-AreOctets hmac u app.session_secret ts bytes name))

  -- A browser that brings back the cookie it was given is let through under the name that was signed
  -- in, to the handler behind, as long as the session lasts, if the name has printable ASCII only and no
  -- space, quote, comma, semicolon or backslash: the values that come back as they were set.
  pub require_session-signed :
      {A : Type 0} (page : Bytes) (ts now : ℕ) (next : Request → A) (otherwise : Writer → A)
      (req : Request) (w w' : Writer) (u : Bytes)
      → ((v : Bytes) → AreOctets v → carry v ≡ v)
      → ((m : Bytes) → AreBytes (hmac app.session_secret m))
      → AreOctets u
      → u ≢ []
      → ts < 2 ^ 63 - unix_epoch
      → now - ts * second ≤ session_max_age
      → Returns carry req (set_session_cookie hmac app ts w u)
      → require_session hmac app page now next otherwise req w' ≡ next (record req { user = u })
  unfolding require_session session_user
  require_session-signed page ts now next otherwise req w w' u same bytes name ne fits young back =
      rw (
        require_session,
        session_user,
        Returns-token ts w u req same bytes name back,
        extract-create hmac u app.session_secret ts session_max_age now ne fits young,
      )

  -- When the session has lasted longer than seven days, the handler behind is not reached: a browser
  -- gets the login page, any other client the status 401.
  pub require_session-expired :
      {A : Type 0} (page : Bytes) (ts now : ℕ) (next : Request → A) (otherwise : Writer → A)
      (req : Request) (w w' : Writer) (u : Bytes)
      → ((v : Bytes) → AreOctets v → carry v ≡ v)
      → ((m : Bytes) → AreBytes (hmac app.session_secret m))
      → AreOctets u
      → ts < 2 ^ 63 - unix_epoch
      → session_max_age < now - ts * second
      → Returns carry req (set_session_cookie hmac app ts w u)
      → require_session hmac app page now next otherwise req w'
        ≡ otherwise (unauthenticated hmac page req w')
  unfolding require_session session_user
  require_session-expired page ts now next otherwise req w w' u same bytes name fits old back = rw (
    require_session,
    session_user,
    Returns-token ts w u req same bytes name back,
    extract-create_expired hmac u app.session_secret ts session_max_age now fits (omega arith) old,
  )
