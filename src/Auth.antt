-- ===== src/Auth.antt =====
-- main.go: the handlers that sign users in and out, and the middleware that asks for a session.
pub mod Pick
pub mod OAuth
pub mod Register
pub mod Octets
pub mod SignedIn
pub mod Stored
mod Tests
use dock.Base.{
  ℕ, ◌+◌, ◌*◌, ◌/◌, ◌≡◌, Bool, true, false, not, ◌&&◌, ◌||◌, List, [], ◌∷◌, ◌++◌, Option, none,
  some, Bytes, Bytes_eq, codes, lookup, ◌==◌, nat_eq, if◌then◌else◌,
}
use dock.Base.Space.{trim_space}
use dock.Session.{second, create_session_token, extract_session_user}
use dock.Http.{Request}
use dock.Http.Writer.{
  Writer, Cookie, set_cookie, set_header, write_header, write, http_error, fprintln, redirect_home,
}
use dock.Users.{
  User, UserStore, Answer, no_rows, failed, ok, create_user, get_by_username, count_users,
  set_admin,
}

abbrev pub session_max_age : ℕ
session_max_age = 7 * 24 * 3600 * second

abbrev pub cookie_name : Bytes
cookie_name = codes "hermit_session"

-- What stays the same while Dock runs: `sessionSecret`, `secureCookies` and DOCK_ADMIN_USER.
pub record Settings : Type 0 where
  pub session_secret : Bytes
  pub secure_cookies : Bool
  pub admin_user : Bytes

-- The form's fields, empty where one is missing.
pub record Form : Type 0 where
  pub username : Bytes
  pub email : Bytes
  pub password : Bytes

-- Whether the engine carries out the statements of `CreateUser`, `CountUsers` and `SetAdmin`.
pub record Writes : Type 0 where
  pub creates : Bool
  pub counts : Bool
  pub grants : Bool

-- The first account, or the one that DOCK_ADMIN_USER names, becomes an administrator.
unfoldable pub grant_admin : Settings → Writes → UserStore → Bytes → UserStore
grant_admin app ups s username =
    if nat_eq (count_users s ups.counts) 1
      || (not (app.admin_user == []) && username == app.admin_user)
    then set_admin s ups.grants username
    else s

-- `w.WriteHeader(code)` and a line of text
unfoldable pub reply : Writer → ℕ → Bytes → Writer
reply w code text = fprintln (write_header w code) text

-- `/logout`
unfoldable pub logout : Settings → Request → Writer → Writer
logout app req w =
    redirect_home
      (set_cookie w (record {
        name = cookie_name;
        value = [];
        max_age = some 0;
        http_only = true;
        secure = app.secure_cookies;
      }))
      req.method

-- HMAC-SHA256 is a function, as in Session. Times are seconds after 1970 where a token is made, and
-- nanoseconds where one is checked.
module _ (hmac : Bytes → Bytes → Bytes) where
  unfoldable pub session_cookie : Settings → ℕ → Bytes → Cookie
  session_cookie app ts username = record {
    name = cookie_name;
    value = create_session_token hmac username app.session_secret ts;
    max_age = some (session_max_age / second);
    http_only = true;
    secure = app.secure_cookies;
  }

  -- `setSessionCookie`
  unfoldable pub set_session_cookie : Settings → ℕ → Writer → Bytes → Writer
  set_session_cookie app ts w username = set_cookie w (session_cookie app ts username)

  -- The user of the session cookie, if it is valid.
  unfoldable pub session_user : Settings → ℕ → Request → Option Bytes
  session_user app now req = elim (lookup cookie_name req.cookies) [
    | none ↦ none
    | some value ↦ extract_session_user hmac value app.session_secret session_max_age now
  ]

  -- What `requireSession` answers without a session, with the bytes of static/login.html.
  unfoldable pub unauthenticated : Bytes → Request → Writer → Writer
  unauthenticated login_page req w =
      if req.method == codes "GET" || req.method == codes "HEAD"
      then write
          (write_header
            (set_header (set_header w (codes "Content-Type") (codes "text/html; charset=utf-8"))
              (codes "Cache-Control") (codes "no-store"))
            200)
          login_page
      else http_error
          (set_header w (codes "WWW-Authenticate") (codes "Basic realm=\"hermit-dock\""))
          (codes "Unauthorized") 401

  -- `requireSession`: the handler behind it sees the user's name.
  unfoldable pub require_session :
      {A : Type 0} → Settings → Bytes → ℕ → (Request → A) → (Writer → A) → Request → Writer → A
  require_session app login_page now next otherwise req w = elim (session_user app now req) [
    | some username ↦ next (record req { user = username })
    | none ↦ otherwise (unauthenticated login_page req w)
  ]

  -- bcrypt: `compare hash password`, and the hash of a password with the salt that is drawn, none for
  -- an error.
  module _ (compare : Bytes → Bytes → Bool) (generate : Bytes → Option Bytes) where
    login_account : Settings → ℕ → Bytes → Writer → User → Writer
    login_account app ts password w user =
        if user.password_hash == []
        then reply w 401 (codes "use_oauth")
        else if compare user.password_hash password
        then reply (set_session_cookie app ts w user.username) 200 (codes "ok")
        else reply w 401 (codes "invalid")

    -- `/login`, with whether the engine carries out the query
    unfoldable pub login : Settings → ℕ → Bool → UserStore → Request → Form → Writer → Writer
    unfolding login_account
    login app ts up s req form w =
        if req.method == codes "POST"
        then elim (get_by_username s up (trim_space form.username)) [
          | no_rows ↦ reply w 401 (codes "invalid")
          | failed ↦ http_error w (codes "Internal error") 500
          | ok user ↦ login_account app ts form.password w user
        ]
        else http_error w (codes "Method not allowed") 405

    registered : Settings → Writes → ℕ → Bytes → Writer → UserStore × Bool → UserStore × Writer
    registered app ups ts username w (s, false) = (s, reply w 409 (codes "username_taken"))
    registered app ups ts username w (s, true) = (
      grant_admin app ups s username,
      reply (set_session_cookie app ts w username) 200 (codes "ok"),
    )

    -- `/register`; `now` is what `datetime('now')` gives.
    unfoldable pub register :
        Settings → ℕ → Bytes → Writes → UserStore → Request → Form → Writer → UserStore × Writer
    unfolding registered
    register app ts now ups s req form w =
        let username = trim_space form.username in
        if req.method == codes "POST"
        then if username == [] || form.password == []
          then (s, http_error w (codes "username and password required") 400)
          else elim (generate form.password) [
            | none ↦ (s, http_error w (codes "Internal error") 500)
            | some hash ↦
                registered app ups ts username w
                  (create_user s ups.creates now username (trim_space form.email) hash [] [])
          ]
        else (s, http_error w (codes "Method not allowed") 405)
