-- ===== src/Users/Table.antt =====
-- The table's invariant and the queries after an insertion.
use dock.Base.{
  ℕ, suc, ◌≡◌, ◌≢◌, refl, inl, inr, ◌≤◌, ◌<◌, Bool, true, false, List, [], ◌∷◌, ◌++◌, none, arith,
  Bytes, Bytes_eq, ◌==◌, map, All, All-append, Bool-cases, Option-cases, beq_cases,
}
use dock.Users.{Row, UserStore, find_row, add_row, create_user, set_row, set_admin, empty_store}

-- Ascending ids and no username twice.
abbrev pub IsTable : List Row → Type 0
IsTable [] = Unit
IsTable (row ∷ rows) =
    All (λ (later : Row). (row.id < later.id) × (row.username ≢ later.username)) rows × IsTable rows

pub record IsValid (s : UserStore) : Type 0 where
  pub table : IsTable s.rows
  pub seq : All (λ (row : Row). row.id ≤ s.seq) s.rows

find_row-none :
    (username : Bytes) (rows : List Row)
    → find_row (λ row. row.username == username) rows ≡ none
    → All (λ (row : Row). row.username ≢ username) rows
unfolding find_row
find_row-none username [] h = tt
find_row-none username (row ∷ rows) h = elim (beq_cases row.username username) [
  | inl (p, t) ↦ ground arith
  | inr (n, f) ↦ (n, find_row-none username rows (rw f at h))
]

IsTable-append :
    (rows : List Row) (row : Row) (seq : ℕ)
    → IsTable rows
    → All (λ (r : Row). r.id ≤ seq) rows
    → All (λ (r : Row). r.username ≢ row.username) rows
    → seq < row.id
    → IsTable (rows ++ row ∷ []) × All (λ (r : Row). r.id ≤ row.id) (rows ++ row ∷ [])
IsTable-append [] row seq w b n lt = ground arith
IsTable-append (r ∷ rows) row seq (f, w) (b, bs) (n, ns) lt =
    let (later, below) = IsTable-append rows row seq w bs ns lt in
    let r-below : r.id < row.id = omega arith in
    (
      (
        All-append (λ (later : Row). (r.id < later.id) × (r.username ≢ later.username)) rows
            (row ∷ []) f ((r-below, n), tt),
        later,
      ),
      (omega arith, below),
    )

pub create_user-IsValid :
    (s : UserStore)
    → (up : Bool) → (now username email password_hash provider provider_id : Bytes) → IsValid s
    → IsValid (create_user s up now username email password_hash provider provider_id).0
unfolding create_user add_row
create_user-IsValid s false now username email password_hash provider provider_id v = v
create_user-IsValid s true now username email password_hash provider provider_id v =
    elim (Option-cases (find_row (λ row. row.username == username) s.rows)) [
      | inl e ↦
          let row : Row = record {
            id = suc s.seq;
            username = username;
            email = email;
            password_hash = password_hash;
            provider = provider;
            provider_id = provider_id;
            is_admin = 0;
            created_at = now;
          } in
          let (table, seq) =
            IsTable-append s.rows row s.seq v.table v.seq (find_row-none username s.rows e)
              (omega arith) in
          rw e (record { table = table; seq = seq })
      | inr (row, e) ↦ rw e v
    ]

pub set_row_keeps :
    (username : Bytes)
    → (row : Row)
    → ((set_row username row).id ≡ row.id) × ((set_row username row).username ≡ row.username)
unfolding set_row
set_row_keeps username row = elim (Bool-cases (row.username == username)) [
  | inl t ↦ rw t (refl, refl)
  | inr f ↦ rw f (refl, refl)
]

All-set_row :
    (username : Bytes)
    → (P Q : Row → Type 0) → ((row : Row) → P row → Q (set_row username row))
    → (rows : List Row) → All P rows
    → All Q (map (set_row username) rows)
All-set_row username P Q step [] h = tt
All-set_row username P Q step (row ∷ rows) (p, h) =
    (step row p, All-set_row username P Q step rows h)

set_row-IsTable :
    (username : Bytes) → (rows : List Row) → IsTable rows → IsTable (map (set_row username) rows)
set_row-IsTable username [] w = tt
set_row-IsTable username (row ∷ rows) (f, w) = (
  All-set_row username (λ (later : Row). (row.id < later.id) × (row.username ≢ later.username))
      (λ (later : Row).
        ((set_row username row).id < later.id) × ((set_row username row).username ≢ later.username))
      (λ later h. ground (arith, set_row_keeps username row, set_row_keeps username later)) rows f,
  set_row-IsTable username rows w,
)

pub set_admin-IsValid :
    (s : UserStore)
    → (up : Bool) → (username : Bytes) → IsValid s
    → IsValid (set_admin s up username)
unfolding set_admin
set_admin-IsValid s false username v = v
set_admin-IsValid s true username v = record {
  table = set_row-IsTable username s.rows v.table;
  seq =
      All-set_row username (λ (row : Row). row.id ≤ s.seq) (λ (row : Row). row.id ≤ s.seq)
        (λ row h. ground (arith, set_row_keeps username row)) s.rows v.seq;
}

-- The statements that Dock runs against the database, each with whether the engine carries it out.
pub data Statement : Type 0 where
  creates : Bool → Bytes → Bytes → Bytes → Bytes → Bytes → Bytes → Statement
  grants : Bool → Bytes → Statement

unfoldable pub run : UserStore → Statement → UserStore
run s (creates up now username email password_hash provider provider_id) =
    (create_user s up now username email password_hash provider provider_id).0
run s (grants up username) = set_admin s up username

unfoldable pub run_all : UserStore → List Statement → UserStore
run_all s [] = s
run_all s (q ∷ qs) = run_all (run s q) qs

run-IsValid : (s : UserStore) (q : Statement) → IsValid s → IsValid (run s q)
unfolding run
run-IsValid s (creates up now username email password_hash provider provider_id) v =
    create_user-IsValid s up now username email password_hash provider provider_id v
run-IsValid s (grants up username) v = set_admin-IsValid s up username v

run_all_keeps : (s : UserStore) (qs : List Statement) → IsValid s → IsValid (run_all s qs)
unfolding run_all
run_all_keeps s [] v = v
run_all_keeps s (q ∷ qs) v = run_all_keeps (run s q) qs (run-IsValid s q v)

-- After any sequence of insertions and grants, failed ones included, the rows are in the order of
-- their ids, no id and no username stands twice, and no id is greater than the last one given out.
pub run_all-IsValid : (qs : List Statement) → IsValid (run_all empty_store qs)
unfolding empty_store
run_all-IsValid qs = run_all_keeps empty_store qs (record { table = tt; seq = tt })
