-- ===== src/Users/Queries.antt =====
-- What the queries of users.go find after a statement.
use dock.Base.{
  suc, ◌≡◌, refl, ap, ◌∙◌, inl, inr, Bool, true, false, List, [], ◌∷◌, ◌++◌, Option, none, some,
  arith, Bytes, Bytes_eq, bytes_eq_iff, ◌==◌, Bool-cases, Option-cases, beq_cases, beq_refl,
  if◌then◌else◌, map,
}
use dock.Users.Table.{set_row_keeps}
use dock.Users.{
  Row, User, UserStore, no_rows, ok, find_row, add_row, answer, create_user, get_by_username,
  set_row, set_admin, scan_user,
}

-- A search goes on in a row at the end where it finds nothing before.
find_row-append :
    (p : Row → Bool)
    → (rows : List Row) → (row : Row)
    → find_row p (rows ++ row ∷ [])
      ≡ elim (find_row p rows) [ some r ↦ some r | none ↦ if p row then some row else none ]
unfolding find_row
find_row-append p [] row = refl
find_row-append p (r ∷ rows) row = ground (arith, find_row-append p rows row, Bool-cases (p r))

-- The account that `CreateUser` adds
abbrev pub new_user : UserStore → Bytes → Bytes → Bytes → Bytes → Bytes → Bytes → User
new_user s now username email password_hash provider provider_id = record {
  id = suc s.seq;
  username = username;
  email = email;
  password_hash = password_hash;
  provider = provider;
  provider_id = provider_id;
  is_admin = false;
  created_at = now;
}

-- The row with a username
abbrev pub row_of : UserStore → Bytes → Option Row
row_of s username = find_row (λ row. row.username == username) s.rows

pub get_by_username-row :
    (s : UserStore) (name : Bytes) (row : Row)
    → row_of s name ≡ some row
    → get_by_username s true name ≡ ok (scan_user row)
unfolding get_by_username answer
get_by_username-row s name row e = rw e

pub get_by_username-free :
    (s : UserStore) (name : Bytes) → row_of s name ≡ none → get_by_username s true name ≡ no_rows
unfolding get_by_username answer
get_by_username-free s name e = rw e

pub row_of-free :
    (s : UserStore) (name : Bytes) → get_by_username s true name ≡ no_rows → row_of s name ≡ none
unfolding get_by_username answer
row_of-free s name h = elim (Option-cases (row_of s name)) [
  | inl e ↦ e
  | inr (row, e) ↦ ground arith
]

pub row_of-taken :
    (s : UserStore) (name : Bytes) (u : User)
    → get_by_username s true name ≡ ok u
    → (row : Row) × (row_of s name ≡ some row)
unfolding get_by_username answer
row_of-taken s name u h = elim (Option-cases (row_of s name)) [
  | inl e ↦ ground arith
  | inr found ↦ found
]

module _ (s : UserStore) (now username email password_hash provider provider_id : Bytes) where
  abbrev pub created : UserStore × Bool
  created = create_user s true now username email password_hash provider provider_id

  abbrev pub new_row : Row
  new_row = record {
    id = suc s.seq;
    username = username;
    email = email;
    password_hash = password_hash;
    provider = provider;
    provider_id = provider_id;
    is_admin = 0;
    created_at = now;
  }

  created_lem :
      row_of s username ≡ none
      → created ≡ (record { rows = s.rows ++ new_row ∷ []; seq = suc s.seq }, true)
  unfolding create_user add_row
  created_lem e = rw e

  -- `CreateUser` of a name that is taken is an error and changes nothing.
  pub create_user-taken : (u : User) → get_by_username s true username ≡ ok u → created ≡ (s, false)
  unfolding create_user add_row
  create_user-taken u h = rw (row_of-taken s username u h).1

  row_of-created :
      (other : Bytes)
      → row_of s username ≡ none
      → row_of created.0 other ≡ (if username == other then some new_row else row_of s other)
  row_of-created other e =
      ap (λ (t : UserStore × Bool). row_of t.0 other) (created_lem e)
      ∙ find_row-append (λ row. row.username == other) s.rows new_row
      ∙ elim (beq_cases username other) [
        | inl (p, t) ↦ ground (arith, t, e, ap (row_of s) p)
        | inr (n, f) ↦ ground (arith, f, Option-cases (row_of s other))
      ]

  pub create_user-adds :
      get_by_username s true username ≡ no_rows
      → (created ≡ (created.0, true)) × (row_of created.0 username ≡ some new_row)
  create_user-adds h =
      let e = row_of-free s username h in
      (
        ap (λ (t : UserStore × Bool). (created.0, t.1)) (created_lem e),
        row_of-created username e ∙ rw (beq_refl username),
      )

  -- `CreateUser` of a name that is free adds an account, no administrator, with the next id:
  -- `GetByUsername` finds it under that name, and under any other name what it found before.
  pub create_user-free :
      get_by_username s true username ≡ no_rows
      → (other : Bytes)
      → (created.1 ≡ true)
        × (get_by_username created.0 true other ≡ (
            if username == other
            then ok (new_user s now username email password_hash provider provider_id)
            else get_by_username s true other))
  unfolding get_by_username answer scan_user
  create_user-free h other =
      let e = row_of-free s username h in
      (
        ap (λ t. t.1) (created_lem e),
        ap answer (row_of-created other e)
            ∙ elim (Bool-cases (username == other)) [ inl t ↦ rw t | inr f ↦ rw f ],
      )

find_row-set_row :
    (m n : Bytes) (rows : List Row)
    → find_row (λ row. row.username == n) (map (set_row m) rows)
      ≡ elim (find_row (λ row. row.username == n) rows) [
        | none ↦ none
        | some row ↦ some (set_row m row)
      ]
unfolding find_row set_row
find_row-set_row m n [] = refl
find_row-set_row m n (row ∷ rows) =
    let same = (set_row_keeps m row).1 in
    elim (Bool-cases (row.username == n)) [
      | inl t ↦ rw (same, t)
      | inr f ↦ rw (same, f) (find_row-set_row m n rows)
    ]

set_row-password_hash : (m : Bytes) (row : Row) → (set_row m row).password_hash ≡ row.password_hash
unfolding set_row
set_row-password_hash m row = elim (Bool-cases (row.username == m)) [ inl t ↦ rw t | inr f ↦ rw f ]

-- `SetAdmin` leaves every account findable under its name, with its password.
pub set_admin-found :
    (s : UserStore) (up : Bool) (m n : Bytes) (row : Row)
    → row_of s n ≡ some row
    → (row' : Row) × (row_of (set_admin s up m) n ≡ some row')
      × (row'.username ≡ row.username)
      × (row'.password_hash ≡ row.password_hash)
unfolding set_admin
set_admin-found s false m n row e = (row, e, refl, refl)
set_admin-found s true m n row e = (
  set_row m row,
  find_row-set_row m n s.rows ∙ rw e,
  (set_row_keeps m row).1,
  set_row-password_hash m row,
)

find_row_sound :
    (p : Row → Bool) (rows : List Row) (row : Row) → find_row p rows ≡ some row → p row ≡ true
unfolding find_row
find_row_sound p [] row h = cc
find_row_sound p (r ∷ rows) row h = elim (Bool-cases (p r)) [
  | inl t ↦ ground (arith, t, h)
  | inr f ↦ find_row_sound p rows row (rw f at h)
]

pub row_of_sound :
    (s : UserStore) (n : Bytes) (row : Row) → row_of s n ≡ some row → row.username ≡ n
row_of_sound s n row h =
    (bytes_eq_iff row.username n).0 (find_row_sound (λ r. r.username == n) s.rows row h)
