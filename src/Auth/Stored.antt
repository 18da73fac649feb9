-- ===== src/Auth/Stored.antt =====
-- The handler of /register keeps the user table in order.
use dock.Base.{
  ℕ, inl, inr, Bool, true, false, not, ◌&&◌, ◌||◌, [], Option, Bytes, Bytes_eq, codes, ◌==◌, nat_eq,
  Option-cases, Bool-cases,
}
use dock.Base.Space.{trim_space}
use dock.Http.{Request}
use dock.Http.Writer.{Writer}
use dock.Users.{UserStore, count_users}
use dock.Users.Table.{IsValid, create_user-IsValid, set_admin-IsValid}
use dock.Auth.{Settings, Form, Writes, grant_admin, registered, register}

pub grant_admin-IsValid :
    (app : Settings) (ups : Writes) (s : UserStore) (m : Bytes)
    → IsValid s
    → IsValid (grant_admin app ups s m)
unfolding grant_admin
grant_admin-IsValid app ups s m v =
    elim (Bool-cases (
      nat_eq (count_users s ups.counts) 1 || (not (app.admin_user == []) && m == app.admin_user))) [
        | inl t ↦ rw t (set_admin-IsValid s ups.grants m v)
        | inr f ↦ rw f v
      ]

module _ (hmac : Bytes → Bytes → Bytes) where
  module _ (compare : Bytes → Bytes → Bool) (generate : Bytes → Option Bytes) where
    registered-IsValid :
        (app : Settings) (ups : Writes) (ts : ℕ) (username : Bytes) (w : Writer)
        (o : UserStore × Bool)
        → IsValid o.0
        → IsValid (registered hmac compare generate app ups ts username w o).0
    unfolding registered
    registered-IsValid app ups ts username w (s, false) v = v
    registered-IsValid app ups ts username w (s, true) v = grant_admin-IsValid app ups s username v

    pub register-IsValid :
        (app : Settings) (ts : ℕ) (now : Bytes) (ups : Writes) (s : UserStore) (req : Request)
        (form : Form) (w : Writer)
        → IsValid s
        → IsValid (register hmac compare generate app ts now ups s req form w).0
    unfolding register
    register-IsValid app ts now ups s req form w v =
        elim (Bool-cases (req.method == codes "POST")) [
          | inr f ↦ rw (register, f) v
          | inl t ↦ elim (Bool-cases (trim_space form.username == [] || form.password == [])) [
            | inl t' ↦ rw (register, t, t') v
            | inr f ↦ elim (Option-cases (generate form.password)) [
              | inl e ↦ rw (register, t, f, e) v
              | inr (hash, e) ↦
                  rw (register, t, f, e)
                    (registered-IsValid app ups ts (trim_space form.username) w _ (
                      create_user-IsValid s ups.creates now (trim_space form.username)
                        (trim_space form.email) hash [] [] v))
            ]
          ]
        ]
