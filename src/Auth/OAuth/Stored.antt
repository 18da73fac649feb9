-- ===== src/Auth/OAuth/Stored.antt =====
-- The OAuth routes keep the user table in order.
use dock.Base.{
  ℕ, inl, inr, Bool, true, false, [], Option, none, some, Bytes, Bytes_eq, codes, ◌==◌, Bool-cases,
  split, trim_prefix,
}
use dock.Http.{Request}
use dock.Http.Writer.{Writer}
use dock.Users.{UserStore, Answer, no_rows, failed, ok, get_by_provider}
use dock.Users.Table.{IsValid, create_user-IsValid}
use dock.Auth.{Settings, grant_admin}
use dock.Auth.Stored.{grant_admin-IsValid}
use dock.Auth.Pick.{pick_username}
use dock.Auth.OAuth.{
  GothUser, Completed, refused, completed, Queries, base_name, reread, new_account, create_account,
  callback, is_callback, auth,
}

-- The store that an answer comes with, if there is one, is in order.
abbrev pub AllValid : Option (UserStore × Writer) → Type 0
AllValid none = Unit
AllValid (some (s, w)) = IsValid s

module _ (hmac : Bytes → Bytes → Bytes) where
  reread-IsValid :
      (app : Settings) (ts : ℕ) (method : Bytes) (s : UserStore) (w : Writer) (a : Answer)
      → IsValid s
      → IsValid (reread hmac app ts method s w a).0
  unfolding reread
  reread-IsValid app ts method s w (ok user) v = v
  reread-IsValid app ts method s w no_rows v = v
  reread-IsValid app ts method s w failed v = v

  new_account-IsValid :
      (app : Settings) (ts : ℕ) (method : Bytes) (ups : Queries) (username : Bytes) (w : Writer)
      (o : UserStore × Bool)
      → IsValid o.0
      → IsValid (new_account hmac app ts method ups username w o).0
  unfolding new_account
  new_account-IsValid app ts method ups username w (s, false) v = v
  new_account-IsValid app ts method ups username w (s, true) v =
      reread-IsValid app ts method (grant_admin app ups.writes s username) w _
        (grant_admin-IsValid app ups.writes s username v)

  create_account-AllValid :
      (app : Settings) (ts : ℕ) (now method : Bytes) (ups : Queries) (s : UserStore) (g : GothUser)
      (w : Writer) (username : Option Bytes)
      → IsValid s
      → AllValid (create_account hmac app ts now method ups s g w username)
  unfolding create_account
  create_account-AllValid app ts now method ups s g w none v = tt
  create_account-AllValid app ts now method ups s g w (some username) v =
      new_account-IsValid app ts method ups username w _
        (create_user-IsValid s ups.writes.creates now username g.email [] g.provider g.user_id v)

  callback-AllValid :
      (fuel : ℕ) (app : Settings) (ts : ℕ) (now method : Bytes) (ups : Queries) (s : UserStore)
      (c : Completed) (w : Writer)
      → IsValid s
      → AllValid (callback hmac fuel app ts now method ups s c w)
  unfolding callback
  callback-AllValid fuel app ts now method ups s (refused text) w v = v
  callback-AllValid fuel app ts now method ups s (completed g) w v =
      by_answer (get_by_provider s ups.finds g.provider g.user_id)
    where
      by_answer :
          (a : Answer)
          → AllValid (elim a [
            | failed ↦ some (s, dock.Http.Writer.http_error w (codes "Internal error") 500)
            | ok user ↦ some (s, dock.Auth.OAuth.sign_in hmac app ts method w user)
            | no_rows ↦
                create_account hmac app ts now method ups s g w
                  (pick_username fuel ups.picks s (base_name g) 0)
          ])
      by_answer failed = v
      by_answer (ok user) = v
      by_answer no_rows =
          create_account-AllValid app ts now method ups s g w
            (pick_username fuel ups.picks s (base_name g) 0) v

  pub auth-AllValid :
      (fuel : ℕ) (app : Settings) (ts : ℕ) (now : Bytes) (ups : Queries)
      (begin : Bytes → Writer → Writer) (complete : Bytes → Completed) (s : UserStore)
      (req : Request) (w : Writer)
      → IsValid s
      → AllValid (auth hmac fuel app ts now ups begin complete s req w)
  unfolding auth
  auth-AllValid fuel app ts now ups begin complete s req w v =
      let parts = split b'/' (trim_prefix req.path (codes "/auth/")) in
      elim (Bool-cases (parts.0 == [])) [
        | inl t ↦ rw (auth, t) v
        | inr f ↦ elim (Bool-cases (is_callback hmac parts.1)) [
          | inl t ↦
              rw (auth, f, t)
                (callback-AllValid fuel app ts now req.method ups s (complete parts.0) w v)
          | inr g ↦ rw (auth, f, g) v
        ]
      ]
