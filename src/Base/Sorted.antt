-- ===== src/Base/Sorted.antt =====
-- Package sort: what `sort.Slice` promises, and why that fixes its result where no two entries tie.
use mathlib.Core.Path.{◌≡◌, ap, ap₂, ◌∙◌}
use mathlib.Core.Logic.Or
use mathlib.Core.Bool.{Bool, false}
use mathlib.Core.List.{
  List, [], ◌∷◌, Mem, Perm, Pairwise, mem-cons_self, mem-cons_of_mem, eq-or-mem_of_mem-cons,
}
use mathlib.Core.List.Pairwise
use mathlib.Core.List.Perm

module _ {ℓ} {A : Type ℓ} where
  -- No entry is less than one that stands before it.
  abbrev pub Ascending : (A → A → Bool) → List A → Type ℓ
  Ascending less = Pairwise (λ a b. less b a ≡ false)

  -- Entries that tie are the same entry.
  abbrev pub NoTies : (A → A → Bool) → List A → Type ℓ
  NoTies less l = (a b : A) → Mem a l → Mem b l → less a b ≡ false → less b a ≡ false → a ≡ b

  -- The result of `sort.Slice` has the same entries as the slice, in ascending order.
  pub record SortsBy (less : A → A → Bool) (sort : List A → List A) : Type ℓ where
    pub perm : (l : List A) → Perm (sort l) l
    pub ascending : (l : List A) → Ascending less (sort l)

  module _ (less : A → A → Bool) (irrefl : (a : A) → less a a ≡ false) where
    not_below : {a b : A} {l : List A} → Ascending less (a ∷ l) → Mem b (a ∷ l) → less b a ≡ false
    not_below {a} {b} (Pairwise.cons h s) m =
        Or.elim (hlevel) (eq-or-mem_of_mem-cons m) (λ e. ap (λ x. less x a) e ∙ irrefl a) (h b)

    pub Ascending-eq_of_perm :
        {l r : List A} → NoTies less l → Ascending less l → Ascending less r → Perm l r → l ≡ r
    Ascending-eq_of_perm {l = []} t _ _ p = Perm.nil-eq p
    Ascending-eq_of_perm {l = a ∷ l} {r = []} t _ _ p = Perm.eq-nil p
    Ascending-eq_of_perm {l = a ∷ l} {r = b ∷ r} t sl sr p =
        let b_there = (Perm.mem_iff p).1 mem-cons_self in
        let heads =
          t a b mem-cons_self b_there (not_below sr ((Perm.mem_iff p).0 mem-cons_self))
            (not_below sl b_there) in
        let tails = Perm.cons_inv (Perm.trans p (Perm.symm (Perm.cons' heads Perm.rfl))) in
        ap₂ ◌∷◌ heads (
          Ascending-eq_of_perm {l = l}
            (λ x y mx my. t x y (mem-cons_of_mem a mx) (mem-cons_of_mem a my)) (Pairwise.of_cons sl)
            (Pairwise.of_cons sr) tails)
