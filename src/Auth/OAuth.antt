-- ===== src/Auth/OAuth.antt =====
-- main.go, `/auth/`: the routes of the OAuth providers.
pub mod Stored
use dock.Base.{
  ℕ, ◌≡◌, ap, ◌∙◌, ◌<◌, Bool, true, false, List, [], ◌∷◌, ◌++◌, Option, none, some, Bytes, Bytes_eq,
  codes, ◌==◌, split, trim_prefix, length, if◌then◌else◌,
}
use dock.Http.{Request}
use dock.Http.Writer.{Writer, http_error, redirect_home}
use dock.Users.{
  Row, User, UserStore, Answer, no_rows, failed, ok, create_user, count_users, get_by_username,
  get_by_provider,
}
use dock.Users.Queries.{row_of, row_of_sound, get_by_username-row, create_user-adds}
use dock.Auth.{Settings, Writes, grant_admin, set_session_cookie}
use dock.Auth.Register.{grant_admin-account}
use dock.Auth.Pick.{candidate, pick_username, pick_username_lem, pick_username-failing}

-- `goth.User`, the fields that Dock reads
pub record GothUser : Type 0 where
  pub provider : Bytes
  pub user_id : Bytes
  pub nick_name : Bytes
  pub name : Bytes
  pub email : Bytes

-- What `gothic.CompleteUserAuth` gives: an error's text or the provider's user.
pub data Completed : Type 0 where
  refused : Bytes → Completed
  completed : GothUser → Completed

-- Whether the engine carries out each query of the callback, in their order.
pub record Queries : Type 0 where
  pub finds : Bool
  pub picks : ℕ → Bool
  pub writes : Writes
  pub rereads : Bool

-- The name that the new account should have.
unfoldable pub base_name : GothUser → Bytes
base_name g =
    if g.nick_name == []
    then if g.name == [] then codes "user-" ++ g.user_id else g.name
    else g.nick_name

module _ (hmac : Bytes → Bytes → Bytes) where
  -- The session for the account, and the way home.
  unfoldable pub sign_in : Settings → ℕ → Bytes → Writer → User → Writer
  sign_in app ts method w user =
      redirect_home (set_session_cookie hmac app ts w user.username) method

  reread : Settings → ℕ → Bytes → UserStore → Writer → Answer → UserStore × Writer
  reread app ts method s w (ok user) = (s, sign_in app ts method w user)
  reread app ts method s w _ = (s, http_error w (codes "Internal error") 500)

  new_account :
      Settings → ℕ → Bytes → Queries → Bytes → Writer → UserStore × Bool → UserStore × Writer
  unfolding reread
  new_account app ts method ups username w (s, false) =
      (s, http_error w (codes "Failed to create account") 500)
  new_account app ts method ups username w (s, true) =
      let s' = grant_admin app ups.writes s username in
      reread app ts method s' w (get_by_username s' ups.rereads username)

  create_account :
      Settings
      → ℕ
      → Bytes
      → Bytes
      → Queries
      → UserStore
      → GothUser
      → Writer
      → Option Bytes
      → Option (UserStore × Writer)
  unfolding new_account
  create_account app ts now method ups s g w none = none
  create_account app ts now method ups s g w (some username) = some (
      new_account app ts method ups username w
        (create_user s ups.writes.creates now username g.email [] g.provider g.user_id))

  -- The callback: none while the loop for the username has not ended after `fuel` rounds.
  unfoldable pub callback :
      ℕ
      → Settings
      → ℕ
      → Bytes
      → Bytes
      → Queries
      → UserStore
      → Completed
      → Writer
      → Option (UserStore × Writer)
  unfolding create_account
  callback fuel app ts now method ups s (refused text) w =
      some (s, http_error w (codes "OAuth error: " ++ text) 500)
  callback fuel app ts now method ups s (completed g) w =
      elim (get_by_provider s ups.finds g.provider g.user_id) [
        | failed ↦ some (s, http_error w (codes "Internal error") 500)
        | ok user ↦ some (s, sign_in app ts method w user)
        | no_rows ↦
            create_account app ts now method ups s g w
              (pick_username fuel ups.picks s (base_name g) 0)
      ]

  is_callback : List Bytes → Bool
  is_callback [] = false
  is_callback (part ∷ parts) = part == codes "callback"

  -- `/auth/`; `begin` is `gothic.BeginAuthHandler` for the provider that the path names.
  unfoldable pub auth :
      ℕ
      → Settings
      → ℕ
      → Bytes
      → Queries
      → (Bytes → Writer → Writer)
      → (Bytes → Completed)
      → UserStore
      → Request
      → Writer
      → Option (UserStore × Writer)
  unfolding is_callback
  auth fuel app ts now ups begin complete s req w =
      let (provider, parts) = split b'/' (trim_prefix req.path (codes "/auth/")) in
      if provider == []
      then some (s, http_error w (codes "404 page not found") 404)
      else if is_callback parts
      then callback fuel app ts now req.method ups s (complete provider) w
      else some (s, begin provider w)

  -- While the engine fails every query for a username, the callback of a new user does not end: no
  -- number of rounds is enough.
  pub callback-failing :
      (fuel : ℕ) (app : Settings) (ts : ℕ) (now method : Bytes) (ups : Queries) (s : UserStore)
      (g : GothUser) (w : Writer)
      → get_by_provider s ups.finds g.provider g.user_id ≡ no_rows
      → ((j : ℕ) → ups.picks j ≡ false)
      → callback fuel app ts now method ups s (completed g) w ≡ none
  unfolding callback create_account
  callback-failing fuel app ts now method ups s g w missing down =
      rw (callback, missing, pick_username-failing fuel ups.picks s (base_name g) 0 down)

  new_account-signed :
      (app : Settings) (ts : ℕ) (method : Bytes) (ups : Queries) (username : Bytes) (w : Writer)
      (s : UserStore) (row : Row)
      → ups.rereads ≡ true
      → row_of s username ≡ some row
      → new_account app ts method ups username w (s, true) ≡ (
        grant_admin app ups.writes s username,
        redirect_home (set_session_cookie hmac app ts w username) method,
      )
  unfolding new_account reread sign_in dock.Users.scan_user
  new_account-signed app ts method ups username w s row rereads e =
      let (row', found, _, _) = grant_admin-account app ups.writes s username username row e in
      rw (rereads, get_by_username-row (grant_admin app ups.writes s username) username row' found)
        (ap
          (λ n. (
            grant_admin app ups.writes s username,
            redirect_home (set_session_cookie hmac app ts w n) method,
          ))
          (row_of_sound (grant_admin app ups.writes s username) username row' found))

  -- The account that the callback adds for a user it does not know, before it may become an
  -- administrator.
  abbrev pub added : UserStore → Bytes → GothUser → Bytes → UserStore
  added s now g username = (create_user s true now username g.email [] g.provider g.user_id).0

  -- The callback of a new user, once the loop has found a name.
  callback-picked :
      (fuel : ℕ) (app : Settings) (ts : ℕ) (now method : Bytes) (ups : Queries) (s : UserStore)
      (g : GothUser) (w : Writer) (username : Bytes)
      → get_by_provider s ups.finds g.provider g.user_id ≡ no_rows
      → pick_username fuel ups.picks s (base_name g) 0 ≡ some username
      → ups.writes.creates ≡ true
      → callback fuel app ts now method ups s (completed g) w
        ≡ some (
            new_account app ts method ups username w
              (create_user s true now username g.email [] g.provider g.user_id))
  unfolding callback create_account
  callback-picked fuel app ts now method ups s g w username missing picked creates =
      rw (callback, missing, picked, creates)

  -- When the engine carries out all the statements of the callback of a new user, it ends, within one
  -- round more than there are accounts. It signs the user in under a name that was free before: the
  -- one that the provider gives, or that with a number behind it.
  pub callback-new :
      (fuel : ℕ) (app : Settings) (ts : ℕ) (now method : Bytes) (ups : Queries) (s : UserStore)
      (g : GothUser) (w : Writer)
      → get_by_provider s ups.finds g.provider g.user_id ≡ no_rows
      → ((j : ℕ) → ups.picks j ≡ true)
      → ups.writes.creates ≡ true
      → ups.rereads ≡ true
      → length s.rows < fuel
      → (j : ℕ) × (get_by_username s true (candidate (base_name g) j) ≡ no_rows)
        × (callback fuel app ts now method ups s (completed g) w
            ≡ some (
              grant_admin app ups.writes
                  (added s now g (candidate (base_name g) j))
                  (candidate (base_name g) j),
              redirect_home (set_session_cookie hmac app ts w (candidate (base_name g) j)) method,
            ))
  callback-new fuel app ts now method ups s g w missing picks creates rereads lt =
      let (j, picked, free) = pick_username_lem fuel ups.picks s (base_name g) picks lt in
      let username = candidate (base_name g) j in
      let (success, there) = create_user-adds s now username g.email [] g.provider g.user_id free in
      (
        j,
        free,
        callback-picked fuel app ts now method ups s g w username missing picked creates
            ∙ ap (λ c. some (new_account app ts method ups username w c)) success
            ∙ ap some (
                new_account-signed app ts method ups username w (added s now g username) _ rereads
                  there),
      )
