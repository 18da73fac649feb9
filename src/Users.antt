-- ===== src/Users.antt =====
-- users.go: the user store. The SQLite database is the rows of its one table in the order of their
-- ids, and each SQL statement is what it does to them. Whether the engine carries a statement out or
-- fails (a full disk, a lock, a closed file) is an argument, `up`.
pub mod Table
pub mod Queries
mod Tests
use dock.Base.{
  ℕ, zero, suc, ◌+◌, ◌≡◌, Bool, true, false, not, List, [], ◌∷◌, ◌++◌, Option, none, some, Bytes,
  Bytes_eq, codes, ◌==◌, nat_eq, length, map, if◌then◌else◌,
}

-- `User`
pub record User : Type 0 where
  pub id : ℕ
  pub username : Bytes
  pub email : Bytes
  pub password_hash : Bytes
  pub provider : Bytes
  pub provider_id : Bytes
  pub is_admin : Bool
  pub created_at : Bytes

-- A row of the table `users`: `CreateUser` never writes NULL. `is_admin` is an integer.
pub record Row : Type 0 where
  pub id : ℕ
  pub username : Bytes
  pub email : Bytes
  pub password_hash : Bytes
  pub provider : Bytes
  pub provider_id : Bytes
  pub is_admin : ℕ
  pub created_at : Bytes

-- The table, with the largest id that AUTOINCREMENT has given out.
pub record UserStore : Type 0 where
  pub rows : List Row
  pub seq : ℕ

-- What a query for one row gives: `sql.ErrNoRows` is `no_rows`, any other error `failed`.
pub data Answer : Type 0 where
  no_rows : Answer
  failed : Answer
  ok : User → Answer

-- `migrate` of a database that is not there yet
unfoldable pub empty_store : UserStore
empty_store = record { rows = []; seq = 0 }

-- `userStoreDBPath` with the value of DOCK_DB_PATH
unfoldable pub user_store_db_path : Bytes → Bytes
user_store_db_path p = if p == [] then codes "./dock.db" else p

-- `scanUser` of a row that is there
unfoldable pub scan_user : Row → User
scan_user row = record {
  id = row.id;
  username = row.username;
  email = row.email;
  password_hash = row.password_hash;
  provider = row.provider;
  provider_id = row.provider_id;
  is_admin = nat_eq row.is_admin 1;
  created_at = row.created_at;
}

-- The first row that a WHERE keeps.
unfoldable pub find_row : (Row → Bool) → List Row → Option Row
find_row p [] = none
find_row p (row ∷ rows) = if p row then some row else find_row p rows

answer : Option Row → Answer
answer none = no_rows
answer (some row) = ok (scan_user row)

-- `GetByUsername`
unfoldable pub get_by_username : UserStore → Bool → Bytes → Answer
unfolding answer
get_by_username s false username = failed
get_by_username s true username = answer (find_row (λ row. row.username == username) s.rows)

-- `GetByProvider`
unfoldable pub get_by_provider : UserStore → Bool → Bytes → Bytes → Answer
unfolding answer
get_by_provider s false provider provider_id = failed
get_by_provider s true provider provider_id = answer (
    find_row (λ row. if row.provider == provider then row.provider_id == provider_id else false)
      s.rows)

add_row : UserStore → Row → Option Row → UserStore × Bool
add_row s row (some taken) = (s, false)
add_row s row none = (record { rows = s.rows ++ row ∷ []; seq = row.id }, true)

-- `CreateUser`, with the time that `datetime('now')` gives: false for an error, which a name that is
-- taken is (UNIQUE).
unfoldable pub create_user :
    UserStore → Bool → Bytes → Bytes → Bytes → Bytes → Bytes → Bytes → UserStore × Bool
unfolding add_row
create_user s false now username email password_hash provider provider_id = (s, false)
create_user s true now username email password_hash provider provider_id =
    add_row s
      (record {
        id = suc s.seq;
        username = username;
        email = email;
        password_hash = password_hash;
        provider = provider;
        provider_id = provider_id;
        is_admin = 0;
        created_at = now;
      })
      (find_row (λ row. row.username == username) s.rows)

pub set_row : Bytes → Row → Row
set_row username row = if row.username == username then record row { is_admin = 1 } else row

-- `SetAdmin`
unfoldable pub set_admin : UserStore → Bool → Bytes → UserStore
unfolding set_row
set_admin s false username = s
set_admin s true username = record s { rows = map (set_row username) s.rows }

-- `ListUsers`: none for an error.
unfoldable pub list_users : UserStore → Bool → Option (List User)
list_users s false = none
list_users s true = some (map scan_user s.rows)

-- `CountUsers`: 0 with an error, which the callers drop.
unfoldable pub count_users : UserStore → Bool → ℕ
count_users s false = 0
count_users s true = length s.rows
