-- ===== src/Registry/Invariant.antt =====
-- Registered Shores carry the name they are registered under and are open, and every operation keeps
-- that so.
use native.Mathlib.Decide.{ℕ_discrete}
use dock.Base.{
  get_elem?-set_self, ℕ, subst, ◌≡◌, ◌≢◌, refl, sym, ap, ◌∙◌, inl, inr, false, List, [], ◌∷◌, ◌++◌,
  Option, none, some, arith, Bytes, Bytes_eq, Map, IsMap, lookup, insert, delete, delete-IsMap,
  insert-IsMap, lookup-delete_cases, lookup-insert_cases, length, length-set, get_elem?, set,
  get_elem?-append_last, get_elem?-append_old, get_elem?-set_ne, Option-cases, lookup-delete_ne,
}
use dock.Shore.{ShoreConnection, close}
use dock.Registry.{ShoreRegistry, modify, register, unregister, close_existing, read_loop_exit}

abbrev pub IsLive : List ShoreConnection → Bytes → ℕ → Type 0
IsLive heap name ref =
    (s : ShoreConnection) × (get_elem? heap ref ≡ some s) × (s.name ≡ name) × (s.done ≡ false)

abbrev pub AllLive : List ShoreConnection → Map Bytes ℕ → Type 0
AllLive heap m = (name : Bytes) (ref : ℕ) → lookup name m ≡ some ref → IsLive heap name ref

pub record IsValid (r : ShoreRegistry) : Type 0 where
  pub keys : IsMap r.shores
  pub live : AllLive r.heap r.shores

pub delete-AllLive :
    (heap : List ShoreConnection) (name : Bytes) (m : Map Bytes ℕ)
    → AllLive heap m
    → AllLive heap (delete name m)
delete-AllLive heap name m v = λ n ref h. v n ref (lookup-delete_cases name n ref m h).1

-- A Shore may change in any way once its name is gone.
pub drop-AllLive :
    (heap : List ShoreConnection) (m : Map Bytes ℕ) (ref : ℕ) (s s' : ShoreConnection)
    → get_elem? heap ref ≡ some s
    → AllLive heap m
    → AllLive (set heap ref s') (delete s.name m)
drop-AllLive heap m ref s s' at_ref v = λ n q h.
    let (ne, old) = lookup-delete_cases s.name n q m h in
    let (t, there, named, is_open) = v n q old in
    let apart : ref ≢ q =
      λ e. ne (ap (λ (x : ShoreConnection). x.name) (same ref q t e at_ref there) ∙ named) in
    (t, get_elem?-set_ne heap ref q s' apart ∙ there, named, is_open)
  where
    same :
        (ref q : ℕ) (t : ShoreConnection)
        → ref ≡ q
        → get_elem? heap ref ≡ some s
        → get_elem? heap q ≡ some t
        → s ≡ t
    same ref q t e a b = cc

pub insert-AllLive :
    (heap : List ShoreConnection) (m : Map Bytes ℕ) (s : ShoreConnection)
    → s.done ≡ false
    → AllLive heap (delete s.name m)
    → AllLive (heap ++ s ∷ []) (insert s.name (length heap) m)
insert-AllLive heap m s is_open v = λ n q h.
    elim (lookup-insert_cases s.name n (length heap) q m h) [
      | inl (e, same) ↦
          (s, ap (get_elem? (heap ++ s ∷ [])) (sym same) ∙ get_elem?-append_last heap s, e, is_open)
      | inr (ne, old) ↦
          let (t, there, named, t_open) = v n q (lookup-delete_ne s.name n m ne ∙ old) in
          (t, get_elem?-append_old heap s t q there, named, t_open)
    ]

pub modify-some :
    (ref : ℕ) (f : ShoreConnection → ShoreConnection) (heap : List ShoreConnection)
    (s : ShoreConnection)
    → get_elem? heap ref ≡ some s
    → modify ref f heap ≡ set heap ref (f s)
modify-some ref f heap s e = ground arith

existing-AllLive :
    (heap : List ShoreConnection) (m : Map Bytes ℕ) (name : Bytes) (o : Option ℕ)
    → lookup name m ≡ o
    → AllLive heap m
    → AllLive (close_existing o heap) (delete name m)
unfolding close_existing
existing-AllLive heap m name none e v = delete-AllLive heap name m v
existing-AllLive heap m name (some ref) e v =
    let (s, there, named, is_open) = v name ref e in
    rw (modify-some ref close heap s there) (
      subst (λ n. AllLive (set heap ref (close s)) (delete n m)) named
        (drop-AllLive heap m ref s (close s) there v))

length-close_existing :
    (o : Option ℕ) (heap : List ShoreConnection) → length (close_existing o heap) ≡ length heap
unfolding close_existing
length-close_existing none heap = refl
length-close_existing (some ref) heap = elim (Option-cases (get_elem? heap ref)) [
  | inl e ↦ ground arith
  | inr (s, e) ↦ ground (arith, modify-some ref close heap s e, length-set heap ref (close s))
]

-- Registering a Shore that is open.
pub register-IsValid :
    (r : ShoreRegistry) (s : ShoreConnection) → s.done ≡ false → IsValid r → IsValid (register r s)
unfolding register
register-IsValid r s is_open v =
    let heap : List ShoreConnection = close_existing (lookup s.name r.shores) r.heap in
    let live =
      insert-AllLive heap r.shores s is_open
        (existing-AllLive r.heap r.shores s.name (lookup s.name r.shores) refl v.live) in
    record {
      keys = insert-IsMap s.name (length r.heap) r.shores v.keys;
      live =
          subst (λ n. AllLive (heap ++ s ∷ []) (insert s.name n r.shores))
            (length-close_existing (lookup s.name r.shores) r.heap) live;
    }

pub unregister-IsValid :
    (r : ShoreRegistry) (name : Bytes) → IsValid r → IsValid (unregister r name)
unfolding unregister
unregister-IsValid r name v = record {
  keys = delete-IsMap name r.shores v.keys;
  live = delete-AllLive r.heap name r.shores v.live;
}

-- The state after the read loop of a Shore has ended.
pub read_loop_exit-some :
    (r : ShoreRegistry) (ref : ℕ) (s : ShoreConnection)
    → get_elem? r.heap ref ≡ some s
    → read_loop_exit r ref
      ≡ record { heap = set r.heap ref (close s); shores = delete s.name r.shores }
unfolding read_loop_exit
read_loop_exit-some r ref s e = ground arith

pub read_loop_exit-IsValid :
    (r : ShoreRegistry) (ref : ℕ) → IsValid r → IsValid (read_loop_exit r ref)
unfolding read_loop_exit
read_loop_exit-IsValid r ref v = elim (Option-cases (get_elem? r.heap ref)) [
  | inl e ↦ rw (e, read_loop_exit) v
  | inr (s, e) ↦ subst IsValid (sym (read_loop_exit-some r ref s e)) (record {
    keys = delete-IsMap s.name r.shores v.keys;
    live = drop-AllLive r.heap r.shores ref s (close s) e v.live;
  })
]

-- A Shore that keeps its name and stays as open as it was may change in any other way.
pub set-AllLive :
    (heap : List ShoreConnection) (m : Map Bytes ℕ) (ref : ℕ) (s s' : ShoreConnection)
    → get_elem? heap ref ≡ some s
    → s'.name ≡ s.name
    → s'.done ≡ s.done
    → AllLive heap m
    → AllLive (set heap ref s') m
set-AllLive heap m ref s s' e same_name same_done v = λ n q h.
    let (t, there, named, is_open) = v n q h in
    elim (ℕ_discrete ref q) [
      | yes p ↦
          let at_ref : get_elem? heap q ≡ some s = ap (get_elem? heap) (sym p) ∙ e in
          let both : t ≡ s = ground arith in
          (
            s',
            ap (get_elem? (set heap ref s')) (sym p) ∙ get_elem?-set_self heap ref s' s e,
            same_name ∙ ap (λ (x : ShoreConnection). x.name) (sym both) ∙ named,
            same_done ∙ ap (λ (x : ShoreConnection). x.done) (sym both) ∙ is_open,
          )
      | no ne ↦ (t, get_elem?-set_ne heap ref q s' ne ∙ there, named, is_open)
    ]
