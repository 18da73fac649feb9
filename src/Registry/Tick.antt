-- ===== src/Registry/Tick.antt =====
-- What a tick of the reaper does.
use dock.Base.{
  ℕ, ◌-◌, ◌<◌, ◌≤◌, ◌≡◌, ◌⊎◌, sym, ap, ◌∙◌, inl, inr, [], ◌∷◌, none, some, arith, Bytes, Bytes_eq,
  Map, IsMap, lookup, delete-IsMap, lookup-delete, lookup_of_Memᴰ, Memᴰ_of_lookup, get_elem?,
  Option-cases,
}
use dock.Shore.{ShoreConnection, close}
use dock.Registry.{ShoreRegistry, get, is_stale, reap_one, reap_over, reap}
use dock.Registry.Invariant.{IsValid, AllLive}
use dock.Registry.Reaper.{AllLive-AllApart, Outcome, reap_over-Outcome}

registered-Outcome :
    (r : ShoreRegistry) (now : ℕ) (name : Bytes) (ref : ℕ) (s : ShoreConnection)
    → IsValid r
    → lookup name r.shores ≡ some ref
    → get_elem? r.heap ref ≡ some s
    → Outcome now name ref s (reap r now)
unfolding reap
registered-Outcome r now name ref s v listed there =
    reap_over-Outcome now r r.shores name ref s
      (AllLive-AllApart now r.heap r.shores v.keys
        (λ n q d. v.live n q (lookup_of_Memᴰ n q r.shores v.keys d)))
      (Memᴰ_of_lookup name ref r.shores listed) listed there

-- In a registry whose names lead to open Shores of those names, a tick decides each registered Shore
-- by its own age: if its last ping is more than 45 seconds ago it is closed and its name is freed,
-- and otherwise it and its entry stay as they are.
pub reap-Outcome :
    (r : ShoreRegistry) (now : ℕ) (name : Bytes) (ref : ℕ) (s : ShoreConnection)
    → IsValid r
    → get r name ≡ some ref
    → get_elem? r.heap ref ≡ some s
    → ((45_000_000_000 < now - s.last_ping)
        × (get (reap r now) name ≡ none)
        × (get_elem? (reap r now).heap ref ≡ some (close s)))
      ⊎ ((now - s.last_ping ≤ 45_000_000_000)
          × (get (reap r now) name ≡ some ref)
          × (get_elem? (reap r now).heap ref ≡ some s))
unfolding get is_stale
reap-Outcome r now name ref s v listed there =
    elim (registered-Outcome r now name ref s v listed there) [
      | inl (old, h, k) ↦ inl (ground arith, h, k)
      | inr (young, h, k) ↦ inr (ground arith, h, k)
    ]

reap_one-none :
    (now : ℕ) (r : ShoreRegistry) (b : Bytes × ℕ) (name : Bytes)
    → lookup name r.shores ≡ none
    → lookup name (reap_one now r b).shores ≡ none
unfolding reap_one
reap_one-none now r (n, q) name h = elim (Option-cases (get_elem? r.heap q)) [
  | inl e ↦ rw (e, reap_one) h
  | inr (s, e) ↦ ground (arith, lookup-delete n name r.shores)
]

reap_over-none :
    (now : ℕ) (r : ShoreRegistry) (m : Map Bytes ℕ) (name : Bytes)
    → lookup name r.shores ≡ none
    → lookup name (reap_over now r m).shores ≡ none
unfolding reap_over
reap_over-none now r [] name h = h
reap_over-none now r (b ∷ m) name h =
    reap_over-none now (reap_one now r b) m name (reap_one-none now r b name h)

reap_one-IsMap :
    (now : ℕ) (r : ShoreRegistry) (b : Bytes × ℕ) → IsMap r.shores → IsMap (reap_one now r b).shores
unfolding reap_one
reap_one-IsMap now r (n, q) h = elim (Option-cases (get_elem? r.heap q)) [
  | inl e ↦ rw (e, reap_one) h
  | inr (s, e) ↦ ground (arith, delete-IsMap n r.shores h)
]

reap_over-IsMap :
    (now : ℕ) (r : ShoreRegistry) (m : Map Bytes ℕ)
    → IsMap r.shores
    → IsMap (reap_over now r m).shores
unfolding reap_over
reap_over-IsMap now r [] h = h
reap_over-IsMap now r (b ∷ m) h =
    reap_over-IsMap now (reap_one now r b) m (reap_one-IsMap now r b h)

-- A name that is free stays free.
pub get-reap-none :
    (r : ShoreRegistry) (now : ℕ) (name : Bytes) → get r name ≡ none → get (reap r now) name ≡ none
unfolding reap get
get-reap-none r now name h = reap_over-none now r r.shores name h

pub reap-IsValid : (r : ShoreRegistry) (now : ℕ) → IsValid r → IsValid (reap r now)
reap-IsValid r now v = record { keys = keys'; live = live' }
  where
    keys' : IsMap (reap r now).shores
    keys' = unfold reap in reap_over-IsMap now r r.shores v.keys

    live' : AllLive (reap r now).heap (reap r now).shores
    live' name ref h = elim (Option-cases (lookup name r.shores)) [
      | inl e ↦
          let gone : lookup name (reap r now).shores ≡ none =
            unfold reap in reap_over-none now r r.shores name e in
          ground arith
      | inr (q, e) ↦
          let (s, there, named, is_open) = v.live name q e in
          elim (registered-Outcome r now name q s v e there) [
            | inl (old, gone, _) ↦ ground arith
            | inr (young, kept, same) ↦
                let at_ref : q ≡ ref = ground arith in
                (s, ap (get_elem? (reap r now).heap) (sym at_ref) ∙ same, named, is_open)
          ]
    ]
