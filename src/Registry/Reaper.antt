-- ===== src/Registry/Reaper.antt =====
-- The loop of a tick of the reaper: what each round changes and leaves alone.
use mathlib.Core.List.{Memᴰ}
use dock.Base.{
  ℕ, ◌≡◌, ◌≢◌, refl, sym, ap, ◌∙◌, subst, inl, inr, true, false, List, [], ◌∷◌, none, some, arith,
  Bytes, Bytes_eq, Map, IsMap, Fresh, All, lookup, lookup-delete_self, lookup-delete_ne, get_elem?,
  get_elem?-set_self, get_elem?-set_ne, Option-cases, Bool-cases, ◌⊎◌,
}
use dock.Shore.{ShoreConnection, close}
use dock.Registry.{ShoreRegistry, is_stale, reap_one, reap_over}
use dock.Registry.Invariant.{IsLive}

module _ (now : ℕ) where
  -- Entries that share neither name nor pointer with `name` and `ref`.
  abbrev pub Apart : Bytes → ℕ → Map Bytes ℕ → Type 0
  Apart name ref = All (λ b. (b.0 ≢ name) × (b.1 ≢ ref))

  abbrev pub AllApart : Map Bytes ℕ → Type 0
  AllApart [] = Unit
  AllApart ((name, ref) ∷ m) = Apart name ref m × AllApart m

  Apart-Memᴰ :
      (name n : Bytes) (ref q : ℕ) (m : Map Bytes ℕ)
      → Apart name ref m
      → Memᴰ (n, q) m
      → (n ≢ name) × (q ≢ ref)
  Apart-Memᴰ name n ref q [] h d = elim d [ ]
  Apart-Memᴰ name n ref q (b ∷ m) (h, hs) (Memᴰ.head e) = (
    λ p. h.0 (ap (λ (x : Bytes × ℕ). x.0) (sym e) ∙ p),
    λ p. h.1 (ap (λ (x : Bytes × ℕ). x.1) (sym e) ∙ p),
  )
  Apart-Memᴰ name n ref q (b ∷ m) (h, hs) (Memᴰ.tail d) = Apart-Memᴰ name n ref q m hs d

  -- What a round leaves alone.
  abbrev Same : Bytes → ℕ → ShoreRegistry → ShoreRegistry → Type 0
  Same name ref r r' =
      (lookup name r'.shores ≡ lookup name r.shores)
      × (get_elem? r'.heap ref ≡ get_elem? r.heap ref)

  reap_one-Same :
      (r : ShoreRegistry) (name n : Bytes) (ref q : ℕ)
      → n ≢ name
      → q ≢ ref
      → Same name ref r (reap_one now r (n, q))
  unfolding reap_one
  reap_one-Same r name n ref q ne ne' = elim (Option-cases (get_elem? r.heap q)) [
    | inl e ↦ rw (e, reap_one) (refl, refl)
    | inr (s, e) ↦ elim (Bool-cases (is_stale now s)) [
      | inl old ↦
          ground (
            arith,
            lookup-delete_ne n name r.shores ne,
            get_elem?-set_ne r.heap q ref (close s) ne',
          )
      | inr young ↦ ground arith
    ]
  ]

  reap_over-Same :
      (r : ShoreRegistry) (m : Map Bytes ℕ) (name : Bytes) (ref : ℕ)
      → Apart name ref m
      → Same name ref r (reap_over now r m)
  unfolding reap_over
  reap_over-Same r [] name ref h = (refl, refl)
  reap_over-Same r ((n, q) ∷ m) name ref ((ne, ne'), h) =
      let (l, g) = reap_one-Same r name n ref q ne ne' in
      let (l', g') = reap_over-Same (reap_one now r (n, q)) m name ref h in (l' ∙ l, g' ∙ g)

  -- What becomes of one registered Shore: a stale one is closed and its name is freed.
  abbrev pub Outcome : Bytes → ℕ → ShoreConnection → ShoreRegistry → Type 0
  Outcome name ref s r' =
      ((is_stale now s ≡ true)
        × (lookup name r'.shores ≡ none)
        × (get_elem? r'.heap ref ≡ some (close s)))
      ⊎ ((is_stale now s ≡ false)
          × (lookup name r'.shores ≡ some ref)
          × (get_elem? r'.heap ref ≡ some s))

  reap_one-Outcome :
      (r : ShoreRegistry) (name : Bytes) (ref : ℕ) (s : ShoreConnection)
      → lookup name r.shores ≡ some ref
      → get_elem? r.heap ref ≡ some s
      → Outcome name ref s (reap_one now r (name, ref))
  unfolding reap_one
  reap_one-Outcome r name ref s listed there = elim (Bool-cases (is_stale now s)) [
    | inl old ↦ inl (
        ground (
          arith,
          lookup-delete_self name r.shores,
          get_elem?-set_self r.heap ref (close s) s there,
        ))
    | inr young ↦ inr (ground arith)
  ]

  Same-Outcome :
      (name : Bytes) (ref : ℕ) (s : ShoreConnection) (r r' : ShoreRegistry)
      → Same name ref r r'
      → Outcome name ref s r
      → Outcome name ref s r'
  Same-Outcome name ref s r r' (l, g) (inl (o, h, k)) = inl (o, l ∙ h, g ∙ k)
  Same-Outcome name ref s r r' (l, g) (inr (o, h, k)) = inr (o, l ∙ h, g ∙ k)

  pub reap_over-Outcome :
      (r : ShoreRegistry) (m : Map Bytes ℕ) (name : Bytes) (ref : ℕ) (s : ShoreConnection)
      → AllApart m
      → Memᴰ (name, ref) m
      → lookup name r.shores ≡ some ref
      → get_elem? r.heap ref ≡ some s
      → Outcome name ref s (reap_over now r m)
  unfolding reap_over
  reap_over-Outcome r [] name ref s a d listed there = elim d [ ]
  reap_over-Outcome r ((n, q) ∷ m) name ref s (a, as') (Memᴰ.head e) listed there =
      subst
        (λ (b : Bytes × ℕ).
          Apart b.0 b.1 m → Outcome name ref s (reap_over now (reap_one now r b) m))
        e
        (λ apart.
          Same-Outcome name ref s _ _ (reap_over-Same (reap_one now r (name, ref)) m name ref apart)
            (reap_one-Outcome r name ref s listed there))
        a
  reap_over-Outcome r ((n, q) ∷ m) name ref s (a, as') (Memᴰ.tail d) listed there =
      let (ne, ne') = Apart-Memᴰ n name q ref m a d in
      let (l, g) = reap_one-Same r name n ref q (λ p. ne (sym p)) (λ p. ne' (sym p)) in
      reap_over-Outcome (reap_one now r (n, q)) m name ref s as' d (l ∙ listed) (g ∙ there)

  AllLive-Apart :
      (heap : List ShoreConnection) (m : Map Bytes ℕ) (name : Bytes) (ref : ℕ)
      → IsLive heap name ref
      → ((n : Bytes) (q : ℕ) → Memᴰ (n, q) m → IsLive heap n q)
      → Fresh name m
      → Apart name ref m
  AllLive-Apart heap [] name ref v vs f = tt
  AllLive-Apart heap ((n, q) ∷ m) name ref v vs (ne, f) = (
    (ne, λ e. ne (same_name heap name n ref q v (vs n q (Memᴰ.head refl)) e)),
    AllLive-Apart heap m name ref v (λ k p d. vs k p (Memᴰ.tail d)) f,
  )
    where
      same_name :
          (heap : List ShoreConnection) (name n : Bytes) (ref q : ℕ)
          → IsLive heap name ref
          → IsLive heap n q
          → q ≡ ref
          → n ≡ name
      same_name heap name n ref q (s, there, named, _) (t, there', named', _) e =
          let at_ref : get_elem? heap ref ≡ some t = ap (get_elem? heap) (sym e) ∙ there' in
          let both : t ≡ s = ground arith in
          sym named' ∙ ap (λ (x : ShoreConnection). x.name) both ∙ named

  pub AllLive-AllApart :
      (heap : List ShoreConnection) (m : Map Bytes ℕ)
      → IsMap m
      → ((n : Bytes) (q : ℕ) → Memᴰ (n, q) m → IsLive heap n q)
      → AllApart m
  AllLive-AllApart heap [] k v = tt
  AllLive-AllApart heap ((n, q) ∷ m) (f, k) v = (
    AllLive-Apart heap m n q (v n q (Memᴰ.head refl)) (λ a b d. v a b (Memᴰ.tail d)) f,
    AllLive-AllApart heap m k (λ a b d. v a b (Memᴰ.tail d)),
  )
