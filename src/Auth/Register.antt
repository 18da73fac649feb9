-- ===== src/Auth/Register.antt =====
-- main.go: `/register`, and `/login` after it.
use dock.Base.{
  ℕ, ◌≡◌, ◌≢◌, ◌⊎◌, refl, sym, ap, ◌∙◌, inl, inr, Bool, true, false, not, ◌&&◌, ◌||◌, List, [], ◌∷◌,
  ◌++◌, Option, none, some, arith, Bytes, Bytes_eq, codes, ◌==◌, nat_eq, beq_ne, beq_refl,
  if◌then◌else◌, Bool-cases, length, suc,
}
use dock.Base.Space.{trim_space}
use dock.Http.{Request}
use dock.Http.Writer.{Writer}
use dock.Users.{
  Row, User, UserStore, no_rows, ok, create_user, count_users, get_by_username, scan_user,
}
use dock.Users.Queries.{
  row_of, create_user-adds, create_user-taken, get_by_username-row, set_admin-found,
}
use dock.Auth.{
  Settings, Form, Writes, grant_admin, reply, set_session_cookie, login, login_account, register,
  registered,
}

-- `grant_admin` changes no name and no password.
pub grant_admin-account :
    (app : Settings) (ups : Writes) (s : UserStore) (m n : Bytes) (row : Row)
    → row_of s n ≡ some row
    → (row' : Row) × (row_of (grant_admin app ups s m) n ≡ some row')
      × (row'.username ≡ row.username)
      × (row'.password_hash ≡ row.password_hash)
unfolding grant_admin
grant_admin-account app ups s m n row e =
    elim (Bool-cases (
      nat_eq (count_users s ups.counts) 1 || (not (app.admin_user == []) && m == app.admin_user))) [
        | inl t ↦ rw t (set_admin-found s ups.grants m n row e)
        | inr f ↦ rw f (row, e, refl, refl)
      ]

module _ (hmac : Bytes → Bytes → Bytes) (compare : Bytes → Bytes → Bool)
    (generate : Bytes → Option Bytes) (app : Settings) where
  login-known :
      (ts : ℕ) (s : UserStore) (req : Request) (form : Form) (w : Writer) (row : Row)
      → req.method ≡ codes "POST"
      → row_of s (trim_space form.username) ≡ some row
      → row.password_hash ≢ []
      → compare row.password_hash form.password ≡ true
      → login hmac compare generate app ts true s req form w
        ≡ reply (set_session_cookie hmac app ts w row.username) 200 (codes "ok")
  unfolding login login_account scan_user dock.Base.bytes_eq reply
  login-known ts s req form w row post e ne same = rw (
    post,
    get_by_username-row s (trim_space form.username) row e,
    beq_ne row.password_hash [] ne,
    same,
  )

  register-free :
      (ts : ℕ) (now : Bytes) (ups : Writes) (s : UserStore) (req : Request) (form : Form)
      (w : Writer) (hash : Bytes)
      → req.method ≡ codes "POST"
      → trim_space form.username ≢ []
      → form.password ≢ []
      → generate form.password ≡ some hash
      → ups.creates ≡ true
      → get_by_username s true (trim_space form.username) ≡ no_rows
      → register hmac compare generate app ts now ups s req form w ≡ (
        grant_admin app ups
            (create_user s true now (trim_space form.username) (trim_space form.email) hash [] []).0
            (trim_space form.username),
        reply (set_session_cookie hmac app ts w (trim_space form.username)) 200 (codes "ok"),
      )
  unfolding register registered dock.Base.bytes_eq grant_admin reply
  register-free ts now ups s req form w hash post named given hashed up free =
      let username = trim_space form.username in
      rw (
        post,
        beq_ne username [] named,
        beq_ne form.password [] given,
        hashed,
        up,
        (create_user-adds s now username (trim_space form.email) hash [] [] free).0,
      )

  -- `/register` with a name that is taken, whatever the password, changes no account and sets no
  -- cookie.
  pub register-taken :
      (ts : ℕ) (now : Bytes) (ups : Writes) (s : UserStore) (req : Request) (form : Form)
      (w : Writer) (hash : Bytes) (u : User)
      → req.method ≡ codes "POST"
      → trim_space form.username ≢ []
      → form.password ≢ []
      → generate form.password ≡ some hash
      → ups.creates ≡ true
      → get_by_username s true (trim_space form.username) ≡ ok u
      → register hmac compare generate app ts now ups s req form w
        ≡ (s, reply w 409 (codes "username_taken"))
  unfolding register registered dock.Base.bytes_eq reply
  register-taken ts now ups s req form w hash u post named given hashed up taken =
      let username = trim_space form.username in
      rw (
        post,
        beq_ne username [] named,
        beq_ne form.password [] given,
        hashed,
        up,
        create_user-taken s now username (trim_space form.email) hash [] [] u taken,
      )

  -- An account that `/register` makes under a name that is free is signed in at once, and `/login` with
  -- the same form signs it in again, if bcrypt finds that the password fits the hash it made of it.
  pub register-login :
      (ts later : ℕ) (now : Bytes) (ups : Writes) (s : UserStore) (req : Request) (form : Form)
      (w w' : Writer) (hash : Bytes)
      → req.method ≡ codes "POST"
      → trim_space form.username ≢ []
      → form.password ≢ []
      → generate form.password ≡ some hash
      → hash ≢ []
      → compare hash form.password ≡ true
      → ups.creates ≡ true
      → get_by_username s true (trim_space form.username) ≡ no_rows
      → ((register hmac compare generate app ts now ups s req form w).1
          ≡ reply (set_session_cookie hmac app ts w (trim_space form.username)) 200 (codes "ok"))
        × (login hmac compare generate app later true
              (register hmac compare generate app ts now ups s req form w).0
              req
              form
              w'
            ≡ reply
                (set_session_cookie hmac app later w' (trim_space form.username))
                200
                (codes "ok"))
  register-login ts later now ups s req form w w' hash post named given hashed nonempty fits up
        free =
      let username = trim_space form.username in
      let done = register-free ts now ups s req form w hash post named given hashed up free in
      let (_, there) = create_user-adds s now username (trim_space form.email) hash [] [] free in
      let added = (create_user s true now username (trim_space form.email) hash [] []).0 in
      let (row, found, same_name, same_hash) =
        grant_admin-account app ups added username username _ there in
      (
        ap (λ r. r.1) done,
        ap (λ r. login hmac compare generate app later true r.0 req form w') done
            ∙ login-known later (grant_admin app ups added username) req form w' row post found
                (λ e. nonempty (sym same_hash ∙ e))
                (ap (λ h. compare h form.password) same_hash ∙ fits)
            ∙ ap (λ n. reply (set_session_cookie hmac app later w' n) 200 (codes "ok")) same_name,
      )
