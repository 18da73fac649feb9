-- ===== src/Auth/Tests.antt =====
-- Tests and witnesses for the sign-in handlers. The MAC is the identity on the payload, and the hash
-- of a password is the password with a byte in front.
use dock.Base.{
  leb, keep, nat_eq, not, ap, ◌&&◌, ◌||◌, ◌≤◌, ℕ, ◌*◌, ◌≡◌, ◌≢◌, refl, true, false, List, [], ◌∷◌,
  ◌++◌, Option, none, some, arith, Bool, Bytes, Bytes_eq, codes, bytes_eq, lookup, length, zero,
  suc, map,
}
use dock.Base.Space.{trim_space}
use dock.Session.{second}
use dock.Http.{Request}
use dock.Http.Writer.{Writer, new_writer, redirect_home}
use dock.Users.{
  UserStore, Row, User, no_rows, ok, empty_store, get_by_username, get_by_provider, create_user,
}
use dock.Auth.{
  Settings, Form, Writes, grant_admin, reply, set_session_cookie, session_cookie, cookie_name,
  login, register, require_session,
}
use dock.Auth.Pick.{candidate, pick_username}
use dock.Auth.OAuth.{
  GothUser, completed, Queries, base_name, callback, added, callback-new, callback-failing,
}
use dock.Auth.Register.{register-login}
use dock.Auth.Octets.{AreOctets}
use dock.Auth.SignedIn.{last_cookie, Returns, require_session-signed}

abbrev mac : Bytes → Bytes → Bytes
mac secret payload = payload

abbrev fits : Bytes → Bytes → Bool
fits hash pass = bytes_eq hash (b'h' ∷ pass)

abbrev hash_of : Bytes → Option Bytes
hash_of pass = some (b'h' ∷ pass)

abbrev settings : Settings
settings = record { session_secret = codes "k"; secure_cookies = true; admin_user = [] }

abbrev works : Writes
works = record { creates = true; counts = true; grants = true }

abbrev all_work : Queries
all_work = record { finds = true; picks = λ i. true; writes = works; rereads = true }

abbrev lookups_fail : Queries
lookups_fail = record { finds = true; picks = λ i. false; writes = works; rereads = true }

abbrev ann_row : Row
ann_row = record {
  id = 1;
  username = codes "ann";
  email = [];
  password_hash = codes "hpw";
  provider = [];
  provider_id = [];
  is_admin = 1;
  created_at = codes "t";
}

abbrev one_account : UserStore
one_account = record { rows = ann_row ∷ []; seq = 1 }

abbrev ann : GothUser
ann = record {
  provider = codes "github";
  user_id = codes "7";
  nick_name = codes "ann";
  name = [];
  email = [];
}

abbrev form : Form
form = record { username = codes " ann "; email = []; password = codes "pw" }

abbrev post : Request
post = record {
  method = codes "POST";
  path = codes "/register";
  raw_query = [];
  header = [];
  cookies = [];
  remote_addr = [];
  body = none;
  user = [];
}

-- The second account of that name gets a 2 behind it.
pick_username_second : pick_username 2 (λ i. true) one_account (codes "ann") 0 ≡ some (codes "ann2")
unfolding pick_username candidate get_by_username bytes_eq dock.Users.find_row
    dock.Base.Decimal.format
pick_username_second = refl

callback-new_example :
    (j : ℕ) × (get_by_username one_account true (candidate (base_name ann) j) ≡ no_rows)
    × (callback mac 2 settings 5
          (codes "t")
          (codes "GET")
          all_work
          one_account
          (completed ann)
          new_writer
        ≡ some (
          grant_admin settings works
              (added mac one_account (codes "t") ann (candidate (base_name ann) j))
              (candidate (base_name ann) j),
          redirect_home
              (set_session_cookie mac settings 5 new_writer (candidate (base_name ann) j))
              (codes "GET"),
        ))
unfolding get_by_provider bytes_eq dock.Users.find_row
callback-new_example =
    callback-new mac 2 settings 5 (codes "t") (codes "GET") all_work one_account ann new_writer refl
      (λ j. refl) refl refl (omega arith)

callback-failing_example :
    callback mac 1000 settings 5
      (codes "t")
      (codes "GET")
      lookups_fail
      one_account
      (completed ann)
      new_writer
    ≡ none
unfolding get_by_provider bytes_eq dock.Users.find_row
callback-failing_example =
    callback-failing mac 1000 settings 5 (codes "t") (codes "GET") lookups_fail one_account ann
      new_writer refl (λ j. refl)

register-login_example :
    ((register mac fits hash_of settings 5 (codes "t") works empty_store post form new_writer).1
      ≡ reply (set_session_cookie mac settings 5 new_writer (codes "ann")) 200 (codes "ok"))
    × (login mac fits hash_of settings 6 true
          (register mac fits hash_of settings 5
            (codes "t")
            works
            empty_store
            post
            form
            new_writer).0
          post
          form
          new_writer
        ≡ reply (set_session_cookie mac settings 6 new_writer (codes "ann")) 200 (codes "ok"))
unfolding trim_space get_by_username bytes_eq empty_store dock.Users.find_row
register-login_example =
    register-login mac fits hash_of settings 5 6 (codes "t") works empty_store post form new_writer
      new_writer (codes "hpw") refl (λ e. cc) (λ e. cc) refl (λ e. cc) refl refl refl

abbrev key_mac : Bytes → Bytes → Bytes
key_mac secret payload = secret

abbrev signed_writer : Writer
signed_writer = set_session_cookie key_mac settings 5 new_writer (codes "ann")

-- Bytes that a cookie cannot have are dropped.
is_octet : ℕ → Bool
is_octet b =
    leb 33 b && leb b 126 && not (nat_eq b 34 || nat_eq b b',' || nat_eq b b';' || nat_eq b 92)

abbrev dropping : Bytes → Bytes
dropping v = keep is_octet v

dropping-octets : (v : Bytes) → AreOctets v → dropping v ≡ v
unfolding keep is_octet
dropping-octets [] h = refl
dropping-octets (b ∷ v) ((lo, hi, n1, n2, n3, n4), h) =
    let t : is_octet b ≡ true = ground arith in rw (keep, t) (ap (◌∷◌ b) (dropping-octets v h))

abbrev returning : Request
returning = record post {
  cookies = (cookie_name, dropping (session_cookie key_mac settings 5 (codes "ann")).value) ∷ [];
}

returning-Returns : Returns dropping returning signed_writer
unfolding last_cookie lookup bytes_eq set_session_cookie dock.Http.Writer.set_cookie session_cookie
returning-Returns = (session_cookie key_mac settings 5 (codes "ann"), refl, refl)

ann-AreOctets : AreOctets (codes "ann")
ann-AreOctets = ground arith

require_session-signed_example :
    require_session key_mac settings []
      (10 * second)
      (λ r. r.user)
      (λ w. codes "none")
      returning
      new_writer
    ≡ codes "ann"
require_session-signed_example =
    require_session-signed key_mac dropping settings [] 5 (10 * second) (λ r. r.user)
      (λ w. codes "none") returning new_writer new_writer (codes "ann") dropping-octets
      (λ m. (omega arith, tt)) ann-AreOctets (λ e. cc) (omega arith) (omega arith) returning-Returns
