-- ===== src/Registry/Choice.antt =====
-- `Default` picks the Shore whose name comes first.
use mathlib.Core.List.{Memᴰ}
use dock.Base.{
  ℕ, subst, ◌≡◌, ◌⊎◌, ◌∙◌, refl, sym, ap, inl, inr, false, List, [], ◌∷◌, none, some, arith, Bytes,
  bytes_lt, bytes_lt_irrefl, bytes_ge_trans, bytes_lt_asymm, lookup_of_Memᴰ, Bytes_eq, Map,
  get_elem?, Option-cases, Bool-cases,
}
use dock.Shore.{ShoreConnection}
use dock.Registry.{ShoreRegistry, default_from, default}
use dock.Registry.Invariant.{IsValid, IsLive}

-- A Shore behind an entry of the map.
abbrev pub IsListed : List ShoreConnection → Map Bytes ℕ → ShoreConnection → Type 0
IsListed heap m s = (name : Bytes) × (ref : ℕ) × Memᴰ (name, ref) m × (get_elem? heap ref ≡ some s)

-- `s` is `first` or a Shore of the map, and neither `first` nor any Shore of the map comes before it.
record IsFirst (heap : List ShoreConnection) (m : Map Bytes ℕ) (first s : ShoreConnection)
    : Type 0 where
  origin : (s ≡ first) ⊎ IsListed heap m s
  not_after : bytes_lt first.name s.name ≡ false
  least : (t : ShoreConnection) → IsListed heap m t → bytes_lt t.name s.name ≡ false

module _ (heap : List ShoreConnection) where
  IsListed-cons :
      (b : Bytes × ℕ) (m : Map Bytes ℕ) (t : ShoreConnection)
      → IsListed heap (b ∷ m) t
      → (get_elem? heap b.1 ≡ some t) ⊎ IsListed heap m t
  IsListed-cons b m t (n, q, Memᴰ.head e, there) =
      inl (ap (λ (x : Bytes × ℕ). get_elem? heap x.1) (sym e) ∙ there)
  IsListed-cons b m t (n, q, Memᴰ.tail d, there) = inr (n, q, d, there)

  -- One more entry, whose Shore is `o`.
  IsFirst-cons :
      (b : Bytes × ℕ) (m : Map Bytes ℕ) (first next s : ShoreConnection)
      → (next ≡ first) ⊎ (get_elem? heap b.1 ≡ some next)
      → bytes_lt first.name next.name ≡ false
      → ((t : ShoreConnection) → get_elem? heap b.1 ≡ some t → bytes_lt t.name next.name ≡ false)
      → IsFirst heap m next s
      → IsFirst heap (b ∷ m) first s
  IsFirst-cons (n, q) m first next s from le at_b v = record {
    origin = origin' v.origin from;
    not_after = bytes_ge_trans first.name next.name s.name le v.not_after;
    least = λ t listed. elim (IsListed-cons (n, q) m t listed) [
      | inl here ↦ bytes_ge_trans t.name next.name s.name (at_b t here) v.not_after
      | inr later ↦ v.least t later
    ];
  }
    where
      origin' :
          (s ≡ next) ⊎ IsListed heap m s
          → (next ≡ first) ⊎ (get_elem? heap q ≡ some next)
          → (s ≡ first) ⊎ IsListed heap ((n, q) ∷ m) s
      origin' (inl e) (inl p) = inl (e ∙ p)
      origin' (inl e) (inr h) = inr (n, q, Memᴰ.head refl, h ∙ ap some (sym e))
      origin' (inr (k, r, d, there)) _ = inr (k, r, Memᴰ.tail d, there)

  carry :
      (q : ℕ) (c t : ShoreConnection) (n : Bytes)
      → get_elem? heap q ≡ some c
      → get_elem? heap q ≡ some t
      → bytes_lt c.name n ≡ false
      → bytes_lt t.name n ≡ false
  carry q c t n there there' h =
      let same : c ≡ t = cc in subst (λ (x : ShoreConnection). bytes_lt x.name n ≡ false) same h

  default_from-IsFirst :
      (m : Map Bytes ℕ) (first : ShoreConnection)
      → (s : ShoreConnection) × (default_from heap (some first) m ≡ some s) × IsFirst heap m first s
  unfolding default_from
  default_from-IsFirst [] first = (
    first,
    refl,
    record {
      origin = inl refl;
      not_after = bytes_lt_irrefl first.name;
      least = λ t (n, q, d, there). elim d [ ];
    },
  )
  default_from-IsFirst ((n, q) ∷ m) first = elim (Option-cases (get_elem? heap q)) [
    | inl missing ↦
        let (s, e, v) = default_from-IsFirst m first in
        (
          s,
          rw (missing, default_from) e,
          IsFirst-cons (n, q) m first first s (inl refl) (bytes_lt_irrefl first.name)
              (λ t there. ground arith) v,
        )
    | inr (c, there) ↦ elim (Bool-cases (bytes_lt c.name first.name)) [
      | inl before ↦
          let (s, e, v) = default_from-IsFirst m c in
          (
            s,
            rw (there, default_from, before) e,
            IsFirst-cons (n, q) m first c s (inr there) (bytes_lt_asymm c.name first.name before)
                (λ t there'. carry q c t c.name there there' (bytes_lt_irrefl c.name)) v,
          )
      | inr after ↦
          let (s, e, v) = default_from-IsFirst m first in
          (
            s,
            rw (there, default_from, after) e,
            IsFirst-cons (n, q) m first first s (inl refl) (bytes_lt_irrefl first.name)
                (λ t there'. carry q c t first.name there there' after) v,
          )
    ]
  ]

-- `Default` finds no Shore exactly when none is registered, and otherwise a registered one such that
-- no registered Shore has a name before its own.
pub default_lem :
    (r : ShoreRegistry)
    → IsValid r
    → ((r.shores ≡ []) × (default r ≡ none))
      ⊎ ((s : ShoreConnection) × (default r ≡ some s)
          × IsListed r.heap r.shores s
          × ((t : ShoreConnection) → IsListed r.heap r.shores t → bytes_lt t.name s.name ≡ false))
unfolding default
default_lem r v = go r.shores (λ n q d. v.live n q (lookup_of_Memᴰ n q r.shores v.keys d))
  where
    go :
        (m : Map Bytes ℕ)
        → ((n : Bytes) (q : ℕ) → Memᴰ (n, q) m → IsLive r.heap n q)
        → ((m ≡ []) × (default_from r.heap none m ≡ none))
          ⊎ ((s : ShoreConnection) × (default_from r.heap none m ≡ some s)
              × IsListed r.heap m s
              × ((t : ShoreConnection) → IsListed r.heap m t → bytes_lt t.name s.name ≡ false))
    go [] live = inl (refl, refl)
    go ((n, q) ∷ m) live =
        let (c, there, _, _) = live n q (Memᴰ.head refl) in
        let (s, e, w) = default_from-IsFirst r.heap m c in
        let whole =
          IsFirst-cons r.heap (n, q) m c c s (inl refl) (bytes_lt_irrefl c.name)
            (λ t there'. carry r.heap q c t c.name there there' (bytes_lt_irrefl c.name)) w in
        inr (s, rw (there, default_from) e, listed c s q there whole.origin, whole.least)
      where
        listed :
            (c s : ShoreConnection) (q : ℕ)
            → get_elem? r.heap q ≡ some c
            → (s ≡ c) ⊎ IsListed r.heap ((n, q) ∷ m) s
            → IsListed r.heap ((n, q) ∷ m) s
        listed c s k there (inl same) = (n, k, Memᴰ.head refl, there ∙ ap some (sym same))
        listed c s k there (inr d) = d
