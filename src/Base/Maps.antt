-- ===== src/Base/Maps.antt =====
-- A Go map as an association list. Its order stands for the order in which `range` visits it, which
-- Go leaves open.
use mathlib.Core.Path.{◌≡◌, sym, ap, ◌∙◌}
use mathlib.Core.Logic.{◌≢◌, ◌⊎◌, inl, inr}
use mathlib.Core.List.{List, [], ◌∷◌, Memᴰ}
use mathlib.Core.Option.{Option, none, some}
use native.Mathlib.Omega.{arith}
use dock.Base.Tests.{Keyed, ◌==◌, if◌then◌else◌, beq_refl, beq_cases}
use dock.Base.Lists.{All}

abbrev pub Map {ℓ κ} : Type ℓ → Type κ → Type (ℓ ⊔ κ)
Map K V = List (K × V)

module _ {ℓ κ} {K : Type ℓ} {V : Type κ} ⦃e : Keyed K⦄ where
  -- `v, ok := m[k]`
  unfoldable pub lookup : K → Map K V → Option V
  lookup k [] = none
  lookup k ((j, v) ∷ m) = if j == k then some v else lookup k m

  -- `delete(m, k)`
  unfoldable pub delete : K → Map K V → Map K V
  delete k [] = []
  delete k ((j, v) ∷ m) = if j == k then delete k m else (j, v) ∷ delete k m

  -- `m[k] = v`
  unfoldable pub insert : K → V → Map K V → Map K V
  insert k v m = (k, v) ∷ delete k m

  pub lookup-delete :
      (k j : K) (m : Map K V) → lookup j (delete k m) ≡ (if k == j then none else lookup j m)
  unfolding lookup delete
  lookup-delete k j [] = ground arith
  lookup-delete k j ((i, v) ∷ m) =
      ground (arith, e.eqb_iff k j, e.eqb_iff i k, e.eqb_iff i j, lookup-delete k j m)

  pub lookup-insert :
      (k j : K) (v : V) (m : Map K V)
      → lookup j (insert k v m) ≡ (if k == j then some v else lookup j m)
  unfolding lookup insert
  lookup-insert k j v m = ground (arith, lookup-delete k j m)

  pub lookup-delete_self : (k : K) (m : Map K V) → lookup k (delete k m) ≡ none
  lookup-delete_self k m = ground (arith, lookup-delete k k m, beq_refl k)

  pub lookup-insert_self : (k : K) (v : V) (m : Map K V) → lookup k (insert k v m) ≡ some v
  lookup-insert_self k v m = ground (arith, lookup-insert k k v m, beq_refl k)

  -- No key stands twice.
  abbrev pub Fresh : K → Map K V → Type ℓ
  Fresh k m = All (λ b. b.0 ≢ k) m

  abbrev pub IsMap : Map K V → Type ℓ
  IsMap [] = Unit
  IsMap ((k, v) ∷ m) = Fresh k m × IsMap m

  pub delete-All {μ} : (P : K × V → Type μ) (k : K) (m : Map K V) → All P m → All P (delete k m)
  unfolding delete
  delete-All P k [] h = tt
  delete-All P k ((j, v) ∷ m) (p, h) = ground (arith, delete-All P k m h)

  pub delete-Fresh : (k : K) (m : Map K V) → Fresh k (delete k m)
  unfolding delete
  delete-Fresh k [] = tt
  delete-Fresh k ((j, v) ∷ m) = ground (arith, delete-Fresh k m, e.eqb_iff j k)

  pub delete-IsMap : (k : K) (m : Map K V) → IsMap m → IsMap (delete k m)
  unfolding delete
  delete-IsMap k [] h = tt
  delete-IsMap k ((j, v) ∷ m) (f, h) =
      ground (arith, delete-IsMap k m h, delete-All (λ b. b.0 ≢ j) k m f)

  pub insert-IsMap : (k : K) (v : V) (m : Map K V) → IsMap m → IsMap (insert k v m)
  unfolding insert
  insert-IsMap k v m h = (delete-Fresh k m, delete-IsMap k m h)

  -- What a lookup finds is an entry.
  pub Memᴰ_of_lookup : (k : K) (v : V) (m : Map K V) → lookup k m ≡ some v → Memᴰ (k, v) m
  unfolding lookup
  Memᴰ_of_lookup k v [] h = cc
  Memᴰ_of_lookup k v ((j, w) ∷ m) h = elim (beq_cases j k) [
    | inl (p, t) ↦ Memᴰ.head (ground arith)
    | inr (n, f) ↦ Memᴰ.tail (Memᴰ_of_lookup k v m (rw f at h))
  ]

  Fresh-Memᴰ : (k : K) (v : V) (m : Map K V) (j : K) → Fresh j m → Memᴰ (k, v) m → k ≢ j
  Fresh-Memᴰ k v [] j f h = elim h [ ]
  Fresh-Memᴰ k v (b ∷ m) j (p, f) (Memᴰ.head q) = λ r. p (ap (λ (x : K × V). x.0) (sym q) ∙ r)
  Fresh-Memᴰ k v (b ∷ m) j (p, f) (Memᴰ.tail h) = Fresh-Memᴰ k v m j f h

  -- In a map with distinct keys an entry is what a lookup finds.
  pub lookup_of_Memᴰ : (k : K) (v : V) (m : Map K V) → IsMap m → Memᴰ (k, v) m → lookup k m ≡ some v
  unfolding lookup
  lookup_of_Memᴰ k v [] w h = elim h [ ]
  lookup_of_Memᴰ k v ((j, u) ∷ m) (f, w) (Memᴰ.head p) = ground (arith, e.eqb_iff j k)
  lookup_of_Memᴰ k v ((j, u) ∷ m) (f, w) (Memᴰ.tail h) =
      ground (arith, e.eqb_iff j k, lookup_of_Memᴰ k v m w h, Fresh-Memᴰ k v m j f h)

  pub lookup-insert_cases :
      (k j : K) (v w : V) (m : Map K V)
      → lookup j (insert k v m) ≡ some w
      → ((k ≡ j) × (v ≡ w)) ⊎ ((k ≢ j) × (lookup j m ≡ some w))
  lookup-insert_cases k j v w m h = elim (beq_cases k j) [
    | inl (p, t) ↦ inl (p, ground (arith, lookup-insert k j v m))
    | inr (n, f) ↦ inr (n, ground (arith, lookup-insert k j v m))
  ]

  pub lookup-delete_cases :
      (k j : K) (w : V) (m : Map K V)
      → lookup j (delete k m) ≡ some w
      → (k ≢ j) × (lookup j m ≡ some w)
  lookup-delete_cases k j w m h = elim (beq_cases k j) [
    | inl (p, t) ↦ ground (arith, lookup-delete k j m)
    | inr (n, f) ↦ (n, ground (arith, lookup-delete k j m))
  ]

  pub lookup-delete_ne : (k j : K) (m : Map K V) → k ≢ j → lookup j (delete k m) ≡ lookup j m
  lookup-delete_ne k j m n = ground (arith, lookup-delete k j m, e.eqb_iff k j)

  pub lookup-insert_ne :
      (k j : K) (v : V) (m : Map K V) → k ≢ j → lookup j (insert k v m) ≡ lookup j m
  lookup-insert_ne k j v m n = ground (arith, lookup-insert k j v m, e.eqb_iff k j)
