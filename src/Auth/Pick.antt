-- ===== src/Auth/Pick.antt =====
-- main.go, the callback of `/auth/`: the loop that looks for a username that is free.
use dock.Base.{
  ℕ, zero, suc, ◌+◌, ◌≡◌, ◌≢◌, ◌⊎◌, refl, sym, ap, ◌∙◌, inl, inr, ◌≤◌, ◌<◌, Bool, true, false, not,
  List, [], ◌∷◌, ◌++◌, Option, none, some, arith, Bytes, Bytes_eq, append-nil, ◌==◌, keep, length,
  Bool-cases, Option-cases, beq_cases, beq_ne, if◌then◌else◌,
}
use mathlib.Core.List.{append_cancel_left}
use dock.Base.Decimal.{format, format_nonempty, format_inj}
use dock.Users.{Row, UserStore, no_rows, failed, ok, find_row, get_by_username}
use dock.Users.Queries.{row_of, get_by_username-row, get_by_username-free}

-- The candidates: the base name, then the base name with 2, 3, and so on behind it.
unfoldable pub candidate : Bytes → ℕ → Bytes
candidate base zero = base
candidate base (suc i) = base ++ format (i + 2)

-- The loop, from the candidate with number `i` on: none when it has not ended after `fuel` rounds.
-- `ups i` says whether the engine carries out the query of round `i`.
unfoldable pub pick_username : ℕ → (ℕ → Bool) → UserStore → Bytes → ℕ → Option Bytes
pick_username zero ups s base i = none
pick_username (suc fuel) ups s base i =
    let rest = pick_username fuel ups s base (suc i) in
    elim (get_by_username s (ups i) (candidate base i)) [
      | no_rows ↦ some (candidate base i)
      | failed ↦ rest
      | ok taken ↦ rest
    ]

-- While every query fails, the loop does not end.
pub pick_username-failing :
    (fuel : ℕ) (ups : ℕ → Bool) (s : UserStore) (base : Bytes) (i : ℕ)
    → ((j : ℕ) → ups j ≡ false)
    → pick_username fuel ups s base i ≡ none
unfolding pick_username get_by_username
pick_username-failing zero ups s base i down = refl
pick_username-failing (suc fuel) ups s base i down =
    rw (pick_username, down i) (pick_username-failing fuel ups s base (suc i) down)

candidate_inj : (base : Bytes) (i j : ℕ) → candidate base i ≡ candidate base j → i ≡ j
unfolding candidate
candidate_inj base zero zero h = refl
candidate_inj base zero (suc j) h =
    absurd (format_nonempty (j + 2) (sym (append_cancel_left base [] _ (append-nil base ∙ h))))
candidate_inj base (suc i) zero h =
    absurd (format_nonempty (i + 2) (append_cancel_left base _ [] (h ∙ sym (append-nil base))))
candidate_inj base (suc i) (suc j) h =
    omega (arith, format_inj (i + 2) (j + 2) (append_cancel_left base _ _ h))

mem : Bytes → List Bytes → Bool
mem x [] = false
mem x (y ∷ names) = if y == x then true else mem x names

remove : Bytes → List Bytes → List Bytes
remove x names = keep (λ y. not (y == x)) names

length-remove_le : (x : Bytes) (names : List Bytes) → length (remove x names) ≤ length names
unfolding remove keep
length-remove_le x [] = omega arith
length-remove_le x (y ∷ names) = ground (arith, length-remove_le x names, Bool-cases (y == x))

length-remove :
    (x : Bytes) (names : List Bytes) → mem x names ≡ true → length (remove x names) < length names
unfolding remove keep mem
length-remove x [] h = cc
length-remove x (y ∷ names) h = elim (Bool-cases (y == x)) [
  | inl t ↦ ground (arith, t, length-remove_le x names)
  | inr f ↦ ground (arith, f, length-remove x names (rw f at h))
]

mem-remove :
    (x z : Bytes) (names : List Bytes) → z ≢ x → mem z names ≡ true → mem z (remove x names) ≡ true
unfolding remove keep mem
mem-remove x z [] n h = h
mem-remove x z (y ∷ names) n h = elim (beq_cases y z) [
  | inl (p, t) ↦ ground (arith, t, beq_ne y x (λ e. n (sym p ∙ e)))
  | inr (q, f) ↦ ground (arith, f, Bool-cases (y == x), mem-remove x z names n (rw f at h))
]

names : List Row → List Bytes
names [] = []
names (row ∷ rows) = row.username ∷ names rows

mem-names :
    (name : Bytes) (rows : List Row) (row : Row)
    → find_row (λ r. r.username == name) rows ≡ some row
    → mem name (names rows) ≡ true
unfolding find_row names mem
mem-names name [] row h = cc
mem-names name (r ∷ rows) row h = elim (Bool-cases (r.username == name)) [
  | inl t ↦ rw t
  | inr f ↦ rw f (mem-names name rows row (rw f at h))
]

-- Every candidate from number `i` on is free or among the names.
Covered : UserStore → Bytes → ℕ → List Bytes → Type 0
Covered s base i ns =
    (j : ℕ) → i ≤ j → (row_of s (candidate base j) ≡ none) ⊎ (mem (candidate base j) ns ≡ true)

Covered-start : (s : UserStore) (base : Bytes) → Covered s base 0 (names s.rows)
unfolding Covered
Covered-start s base j le = elim (Option-cases (row_of s (candidate base j))) [
  | inl e ↦ inl e
  | inr (row, e) ↦ inr (mem-names (candidate base j) s.rows row e)
]

Covered-step :
    (s : UserStore) (base : Bytes) (i : ℕ) (ns : List Bytes)
    → Covered s base i ns
    → Covered s base (suc i) (remove (candidate base i) ns)
unfolding Covered
Covered-step s base i ns c j le = elim (c j (omega arith)) [
  | inl e ↦ inl e
  | inr e ↦ inr (
      mem-remove (candidate base i) (candidate base j) ns
        (λ same. absurd (omega (arith, candidate_inj base j i same))) e)
]

Covered-taken :
    (s : UserStore) (base : Bytes) (i : ℕ) (ns : List Bytes) (row : Row)
    → Covered s base i ns
    → row_of s (candidate base i) ≡ some row
    → mem (candidate base i) ns ≡ true
unfolding Covered
Covered-taken s base i ns row c e = elim (c i (omega arith)) [
  | inl free ↦ ground (arith, free, e)
  | inr m ↦ m
]

pick_step-free :
    (fuel : ℕ) (ups : ℕ → Bool) (s : UserStore) (base : Bytes) (i : ℕ)
    → ups i ≡ true
    → row_of s (candidate base i) ≡ none
    → pick_username (suc fuel) ups s base i ≡ some (candidate base i)
unfolding pick_username candidate
pick_step-free fuel ups s base i up e =
    rw (pick_username, up, get_by_username-free s (candidate base i) e)

pick_step-taken :
    (fuel : ℕ) (ups : ℕ → Bool) (s : UserStore) (base : Bytes) (i : ℕ) (row : Row)
    → ups i ≡ true
    → row_of s (candidate base i) ≡ some row
    → pick_username (suc fuel) ups s base i ≡ pick_username fuel ups s base (suc i)
unfolding pick_username
pick_step-taken fuel ups s base i row up e =
    rw (pick_username, up, get_by_username-row s (candidate base i) row e)

pick_username-Covered :
    (fuel : ℕ) (ups : ℕ → Bool) (s : UserStore) (base : Bytes) (i : ℕ) (ns : List Bytes)
    → ((j : ℕ) → ups j ≡ true)
    → Covered s base i ns
    → length ns < fuel
    → (j : ℕ) × (pick_username fuel ups s base i ≡ some (candidate base j))
      × (get_by_username s true (candidate base j) ≡ no_rows)
pick_username-Covered zero ups s base i ns up c lt = absurd (omega arith)
pick_username-Covered (suc fuel) ups s base i ns up c lt =
    elim (Option-cases (row_of s (candidate base i))) [
      | inl e ↦ (
        i,
        pick_step-free fuel ups s base i (up i) e,
        get_by_username-free s (candidate base i) e,
      )
      | inr (row, e) ↦
          let fewer = length-remove (candidate base i) ns (Covered-taken s base i ns row c e) in
          let (j, found, free) =
            pick_username-Covered fuel ups s base (suc i) (remove (candidate base i) ns) up
              (Covered-step s base i ns c) (omega arith) in
          (j, pick_step-taken fuel ups s base i row (up i) e ∙ found, free)
    ]

length-names : (rows : List Row) → length (names rows) ≡ length rows
unfolding names
length-names [] = refl
length-names (row ∷ rows) = ap suc (length-names rows)

-- While the engine answers, the loop ends within one round more than there are accounts, with one of
-- its candidates, and that one is free.
pub pick_username_lem :
    (fuel : ℕ) (ups : ℕ → Bool) (s : UserStore) (base : Bytes)
    → ((j : ℕ) → ups j ≡ true)
    → length s.rows < fuel
    → (j : ℕ) × (pick_username fuel ups s base 0 ≡ some (candidate base j))
      × (get_by_username s true (candidate base j) ≡ no_rows)
pick_username_lem fuel ups s base up lt =
    pick_username-Covered fuel ups s base 0 (names s.rows) up (Covered-start s base)
      (omega (arith, length-names s.rows))
