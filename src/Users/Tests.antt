-- ===== src/Users/Tests.antt =====
-- Tests and witnesses for the user store.
use dock.Base.{◌≡◌, refl, true, [], ◌∷◌, Bytes_eq, codes, bytes_eq, List}
use dock.Users.{
  UserStore, Row, ok, no_rows, empty_store, create_user, get_by_username, user_store_db_path,
}
use dock.Users.Table.{IsValid, Statement, creates, grants, run, run_all, run_all-IsValid}

abbrev statements : List Statement
statements =
    creates true (codes "t") (codes "ann") [] (codes "h") [] []
    ∷ creates true (codes "t") (codes "ann") [] (codes "g") [] []
    ∷ grants true (codes "ann")
    ∷ []

-- The second insertion fails: the name is taken.
statements_run : run_all empty_store statements ≡ record {
  rows =
      record {
        id = 1;
        username = codes "ann";
        email = [];
        password_hash = codes "h";
        provider = [];
        provider_id = [];
        is_admin = 1;
        created_at = codes "t";
      }
      ∷ [];
  seq = 1;
}
unfolding run_all run empty_store create_user bytes_eq dock.Users.add_row dock.Users.find_row
    dock.Users.set_admin dock.Users.set_row
statements_run = refl

run_all-IsValid_example : IsValid (run_all empty_store statements)
run_all-IsValid_example = run_all-IsValid statements
