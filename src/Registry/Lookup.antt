-- ===== src/Registry/Lookup.antt =====
-- What the lookups find.
use dock.Base.{
  ℕ, ◌≡◌, ◌↔◌, refl, sym, ap, ◌∙◌, inl, inr, List, [], ◌∷◌, Option, none, some, arith, Bytes,
  Bytes_eq, bytes_eq_iff, Map, lookup, get_elem?, Option-cases, Bool-cases, subst, ◌⊎◌, beq_cases,
  ◌==◌,
}
use mathlib.Core.List.{Memᴰ}
use mathlib.Core.List.Memᴰ.{cases_cons}
use dock.Shore.{ShoreConnection}
use dock.Registry.{ShoreRegistry, add_owned, owned_by, list_by_owner, get_by_owner}

-- `GetByOwner` finds exactly the Shore that is registered under the name, and only if it belongs to
-- the owner.
pub get_by_owner-eq-some_iff :
    (r : ShoreRegistry) (owner name : Bytes) (ref : ℕ) (s : ShoreConnection)
    → (get_by_owner r owner name ≡ some (ref, s))
      ↔ ((lookup name r.shores ≡ some ref) × (get_elem? r.heap ref ≡ some s) × (s.owner ≡ owner))
unfolding get_by_owner
get_by_owner-eq-some_iff r owner name ref s = (to, λ h. ground (arith, bytes_eq_iff s.owner owner))
  where
    to :
        get_by_owner r owner name ≡ some (ref, s)
        → (lookup name r.shores ≡ some ref) × (get_elem? r.heap ref ≡ some s) × (s.owner ≡ owner)
    to h = elim (Option-cases (lookup name r.shores)) [
      | inl e ↦ ground arith
      | inr (q, e) ↦ elim (Option-cases (get_elem? r.heap q)) [
        | inl e' ↦ ground arith
        | inr (t, e') ↦ ground (arith, bytes_eq_iff t.owner owner)
      ]
    ]

add_owned_sound :
    (owner : Bytes) (o : Option ShoreConnection) (rest : List ShoreConnection) (s : ShoreConnection)
    → Memᴰ s (add_owned owner o rest)
    → ((o ≡ some s) × (s.owner ≡ owner)) ⊎ Memᴰ s rest
unfolding add_owned
add_owned_sound owner none rest s h = inr h
add_owned_sound owner (some t) rest s h = elim (beq_cases t.owner owner) [
  | inl (mine, test) ↦ elim (cases_cons (rw test at h)) [
    | inl same ↦ inl (ap some (sym same), ap (λ (x : ShoreConnection). x.owner) same ∙ mine)
    | inr later ↦ inr later
  ]
  | inr (other, test) ↦ inr (rw test at h)
]

add_owned-here :
    (owner : Bytes) (rest : List ShoreConnection) (s : ShoreConnection)
    → s.owner ≡ owner
    → Memᴰ s (add_owned owner (some s) rest)
unfolding add_owned
add_owned-here owner rest s mine = rw ((bytes_eq_iff s.owner owner).1 mine) (Memᴰ.head refl)

add_owned-later :
    (owner : Bytes) (o : Option ShoreConnection) (rest : List ShoreConnection) (s : ShoreConnection)
    → Memᴰ s rest
    → Memᴰ s (add_owned owner o rest)
unfolding add_owned
add_owned-later owner none rest s h = h
add_owned-later owner (some t) rest s h = elim (Bool-cases (t.owner == owner)) [
  | inl mine ↦ rw mine (Memᴰ.tail h)
  | inr other ↦ rw other h
]

-- A Shore that belongs to the owner and stands behind an entry of the map.
abbrev pub IsOwned : List ShoreConnection → Map Bytes ℕ → Bytes → ShoreConnection → Type 0
IsOwned heap m owner s =
    (name : Bytes) × (ref : ℕ) × Memᴰ (name, ref) m
    × (get_elem? heap ref ≡ some s)
    × (s.owner ≡ owner)

owned_by_sound :
    (heap : List ShoreConnection) (owner : Bytes) (m : Map Bytes ℕ) (s : ShoreConnection)
    → Memᴰ s (owned_by heap owner m)
    → IsOwned heap m owner s
unfolding owned_by
owned_by_sound heap owner [] s h = elim h [ ]
owned_by_sound heap owner ((name, ref) ∷ m) s h =
    elim (add_owned_sound owner (get_elem? heap ref) (owned_by heap owner m) s h) [
      | inl (there, mine) ↦ (name, ref, Memᴰ.head refl, there, mine)
      | inr later ↦
          let (n, q, listed, there, mine) = owned_by_sound heap owner m s later in
          (n, q, Memᴰ.tail listed, there, mine)
    ]

owned_by_complete :
    (heap : List ShoreConnection) (owner : Bytes) (m : Map Bytes ℕ) (s : ShoreConnection)
    (name : Bytes) (ref : ℕ)
    → Memᴰ (name, ref) m
    → get_elem? heap ref ≡ some s
    → s.owner ≡ owner
    → Memᴰ s (owned_by heap owner m)
unfolding owned_by
owned_by_complete heap owner [] s name ref h there mine = elim h [ ]
owned_by_complete heap owner ((n, q) ∷ m) s name ref (Memᴰ.head e) there mine =
    let at_q : get_elem? heap q ≡ some s =
      ap (λ (b : Bytes × ℕ). get_elem? heap b.1) (sym e) ∙ there in
    subst (λ o. Memᴰ s (add_owned owner o (owned_by heap owner m))) (sym at_q)
      (add_owned-here owner (owned_by heap owner m) s mine)
owned_by_complete heap owner ((n, q) ∷ m) s name ref (Memᴰ.tail h) there mine =
    add_owned-later owner (get_elem? heap q) (owned_by heap owner m) s
      (owned_by_complete heap owner m s name ref h there mine)

-- A Shore is in the list for an owner exactly when it belongs to the owner and some name leads to it
-- in the map.
pub mem-list_by_owner_iff :
    (r : ShoreRegistry) (owner : Bytes) (s : ShoreConnection)
    → Memᴰ s (list_by_owner r owner) ↔ IsOwned r.heap r.shores owner s
unfolding list_by_owner
mem-list_by_owner_iff r owner s = (
  owned_by_sound r.heap owner r.shores s,
  λ (name, ref, listed, there, mine).
      owned_by_complete r.heap owner r.shores s name ref listed there mine,
)
