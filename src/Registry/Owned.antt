-- ===== src/Registry/Owned.antt =====
-- The Shores of an owner, whatever the order in which the map is visited.
use dock.Base.{
  ℕ, ◌≡◌, subst, inl, inr, List, Option, none, some, Bytes, Bytes_eq, Map, lookup, get_elem?, ◌==◌,
  Bool-cases, lookup_of_Memᴰ,
}
use mathlib.Core.Logic.{∥∥₁_elim}
use mathlib.Core.List.{Memᴰ, Perm, Permᴰ, Perm-prop}
use mathlib.Core.List.Perm
use dock.Shore.{ShoreConnection}
use dock.Registry.{ShoreRegistry, add_owned, owned_by, list_by_owner}
use dock.Registry.Invariant.{IsValid}
use dock.Registry.Lookup.{mem-list_by_owner_iff}

add_owned-perm :
    (owner : Bytes) (o : Option ShoreConnection) (l l' : List ShoreConnection)
    → Perm l l'
    → Perm (add_owned owner o l) (add_owned owner o l')
unfolding add_owned
add_owned-perm owner none l l' p = p
add_owned-perm owner (some s) l l' p = elim (Bool-cases (s.owner == owner)) [
  | inl t ↦ rw t (Perm.cons s p)
  | inr f ↦ rw f p
]

add_owned-swap :
    (owner : Bytes) (o o' : Option ShoreConnection) (l : List ShoreConnection)
    → Perm (add_owned owner o (add_owned owner o' l)) (add_owned owner o' (add_owned owner o l))
unfolding add_owned
add_owned-swap owner none o' l = Perm.rfl
add_owned-swap owner (some s) none l = Perm.rfl
add_owned-swap owner (some s) (some t) l = elim (Bool-cases (s.owner == owner)) [
  | inr f ↦ rw f Perm.rfl
  | inl u ↦ elim (Bool-cases (t.owner == owner)) [
    | inr f ↦ rw (u, f) Perm.rfl
    | inl v ↦ rw (u, v) (Perm.swap t s l)
  ]
]

owned_by-Permᴰ :
    (heap : List ShoreConnection) (owner : Bytes) {m m' : Map Bytes ℕ}
    → Permᴰ m m'
    → Perm (owned_by heap owner m) (owned_by heap owner m')
unfolding owned_by
owned_by-Permᴰ heap owner Permᴰ.nil = Perm.nil
owned_by-Permᴰ heap owner (Permᴰ.cons {a = a} {l₁ = l} {l₂ = l'} e p) =
    subst
      (λ (b : Bytes × ℕ).
        Perm (add_owned owner (get_elem? heap a.1) (owned_by heap owner l))
          (add_owned owner (get_elem? heap b.1) (owned_by heap owner l')))
      e
      (add_owned-perm owner (get_elem? heap a.1) (owned_by heap owner l) (owned_by heap owner l')
        (owned_by-Permᴰ heap owner p))
owned_by-Permᴰ heap owner (Permᴰ.swap {a = a} {b = b} {b' = b'} {l = l} e f) =
    let rest = owned_by heap owner l in
    subst
      (λ (c : Bytes × ℕ).
        Perm (add_owned owner (get_elem? heap a.1) (add_owned owner (get_elem? heap b.1) rest))
          (add_owned owner (get_elem? heap c.1) (add_owned owner (get_elem? heap b'.1) rest)))
      f
      (subst
        (λ (c : Bytes × ℕ).
          Perm (add_owned owner (get_elem? heap a.1) (add_owned owner (get_elem? heap b.1) rest))
            (add_owned owner (get_elem? heap b.1) (add_owned owner (get_elem? heap c.1) rest)))
        e (add_owned-swap owner (get_elem? heap a.1) (get_elem? heap b.1) rest))
owned_by-Permᴰ heap owner (Permᴰ.trans p q) =
    Perm.trans (owned_by-Permᴰ heap owner p) (owned_by-Permᴰ heap owner q)

-- Another order of the map gives the same Shores, in another order.
pub list_by_owner-perm :
    (r r' : ShoreRegistry) (owner : Bytes)
    → r.heap ≡ r'.heap
    → Perm r.shores r'.shores
    → Perm (list_by_owner r owner) (list_by_owner r' owner)
unfolding list_by_owner
list_by_owner-perm r r' owner same p =
    subst (λ h. Perm (owned_by r.heap owner r.shores) (owned_by h owner r'.shores)) same
      (∥∥₁_elim p Perm-prop (owned_by-Permᴰ r.heap owner))

-- In a valid registry the Shores of an owner have names of their own.
pub list_by_owner-distinct :
    (r : ShoreRegistry) (owner : Bytes) (a b : ShoreConnection)
    → IsValid r
    → Memᴰ a (list_by_owner r owner)
    → Memᴰ b (list_by_owner r owner)
    → a.name ≡ b.name
    → a ≡ b
list_by_owner-distinct r owner a b v ma mb e =
    let (n, p, listed, there, _) = (mem-list_by_owner_iff r owner a).0 ma in
    let (n', p', listed', there', _) = (mem-list_by_owner_iff r owner b).0 mb in
    let at_n = lookup_of_Memᴰ n p r.shores v.keys listed in
    let at_n' = lookup_of_Memᴰ n' p' r.shores v.keys listed' in
    let (s, found, named, _) = v.live n p at_n in
    let (t, found', named', _) = v.live n' p' at_n' in
    same n n' p p' s t at_n at_n' found found' there there' named named'
  where
    same :
        (n n' : Bytes) (p p' : ℕ) (s t : ShoreConnection)
        → lookup n r.shores ≡ some p
        → lookup n' r.shores ≡ some p'
        → get_elem? r.heap p ≡ some s
        → get_elem? r.heap p' ≡ some t
        → get_elem? r.heap p ≡ some a
        → get_elem? r.heap p' ≡ some b
        → s.name ≡ n
        → t.name ≡ n'
        → a ≡ b
    same n n' p p' s t l l' f f' g g' m m' = cc
