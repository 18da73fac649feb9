-- ===== src/Shore/Linked.antt =====
-- A map from ids to channel references in which each reference leads to a channel with a property,
-- and no two ids share one: what `pending` and `streams` keep to.
use native.Mathlib.Decide.{ℕ_discrete}
use dock.Base.{
  ℕ, ◌≡◌, ◌≢◌, sym, ap, ◌∙◌, inl, inr, List, [], ◌∷◌, ◌++◌, some, Bytes, Map, Bytes_eq, lookup,
  insert, delete, lookup-insert_cases, lookup-delete_cases, length, get_elem?, set,
  get_elem?-append_last, get_elem?-append_old, get_elem?-set_self, get_elem?-set_ne,
}

module _ {A : Type 0} (P : A → Type 0) where
  abbrev pub At : List A → ℕ → Type 0
  At cs ref = (c : A) × (get_elem? cs ref ≡ some c) × P c

  pub record Linked (m : Map Bytes ℕ) (cs : List A) : Type 0 where
    pub leads : (id : Bytes) (ref : ℕ) → lookup id m ≡ some ref → At cs ref
    pub single : (i j : Bytes) (ref : ℕ) → lookup i m ≡ some ref → lookup j m ≡ some ref → i ≡ j

  pub empty-Linked : (cs : List A) → Linked [] cs
  unfolding lookup
  empty-Linked cs = record { leads = λ id ref h. cc; single = λ i j ref h k. cc }

  out_of_range : (cs : List A) (c : A) → get_elem? cs (length cs) ≡ some c → ⊥
  out_of_range [] c h = cc
  out_of_range (x ∷ cs) c h = out_of_range cs c h

  pub delete-Linked :
      (id : Bytes) (m : Map Bytes ℕ) (cs : List A) → Linked m cs → Linked (delete id m) cs
  delete-Linked id m cs v = record {
    leads = λ j ref h. v.leads j ref (kept j ref h);
    single = λ i j ref h k. v.single i j ref (kept i ref h) (kept j ref k);
  }
    where
      kept : (j : Bytes) (ref : ℕ) → lookup j (delete id m) ≡ some ref → lookup j m ≡ some ref
      kept j ref h = (lookup-delete_cases id j ref m h).1

  pub insert-Linked :
      (id : Bytes) (c : A) (m : Map Bytes ℕ) (cs : List A)
      → P c
      → Linked m cs
      → Linked (insert id (length cs) m) (cs ++ c ∷ [])
  insert-Linked id c m cs p v = record { leads = leads'; single = single' }
    where
      leads' :
          (j : Bytes) (ref : ℕ)
          → lookup j (insert id (length cs) m) ≡ some ref
          → At (cs ++ c ∷ []) ref
      leads' j ref h = elim (lookup-insert_cases id j (length cs) ref m h) [
        | inl (e, same) ↦
            (c, ap (get_elem? (cs ++ c ∷ [])) (sym same) ∙ get_elem?-append_last cs c, p)
        | inr (ne, old) ↦
            let (d, found, q) = v.leads j ref old in (d, get_elem?-append_old cs c d ref found, q)
      ]

      fresh : (j : Bytes) (ref : ℕ) → length cs ≡ ref → lookup j m ≡ some ref → ⊥
      fresh j ref same h =
          let (d, found, _) = v.leads j ref h in out_of_range cs d (rw (← same) at found)

      single' :
          (i j : Bytes) (ref : ℕ)
          → lookup i (insert id (length cs) m) ≡ some ref
          → lookup j (insert id (length cs) m) ≡ some ref
          → i ≡ j
      single' i j ref h k = elim (lookup-insert_cases id i (length cs) ref m h) [
        | inl (e, same) ↦ elim (lookup-insert_cases id j (length cs) ref m k) [
          | inl (e', same') ↦ sym e ∙ e'
          | inr (ne', old') ↦ absurd (fresh j ref same old')
        ]
        | inr (ne, old) ↦ elim (lookup-insert_cases id j (length cs) ref m k) [
          | inl (e', same') ↦ absurd (fresh i ref same' old)
          | inr (ne', old') ↦ v.single i j ref old old'
        ]
      ]

  -- The channel of one id may change in any way once the id is dropped.
  pub drop-Linked :
      (id : Bytes) (ref : ℕ) (c : A) (m : Map Bytes ℕ) (cs : List A)
      → lookup id m ≡ some ref
      → Linked m cs
      → Linked (delete id m) (set cs ref c)
  drop-Linked id ref c m cs found v = record {
    leads = leads';
    single = (delete-Linked id m cs v).single;
  }
    where
      leads' : (j : Bytes) (r : ℕ) → lookup j (delete id m) ≡ some r → At (set cs ref c) r
      leads' j r h =
          let (ne, old) = lookup-delete_cases id j r m h in
          let (d, there, p) = v.leads j r old in
          let apart : ref ≢ r = λ e. ne (v.single id j r (rw e at found) old) in
          (d, get_elem?-set_ne cs ref r c apart ∙ there, p)

  -- A channel may change within the property.
  pub set-Linked :
      (ref : ℕ) (c : A) (m : Map Bytes ℕ) (cs : List A)
      → ((d : A) → get_elem? cs ref ≡ some d → P d → P c)
      → Linked m cs
      → Linked m (set cs ref c)
  set-Linked ref c m cs keeps v = record { leads = leads'; single = v.single }
    where
      leads' : (j : Bytes) (r : ℕ) → lookup j m ≡ some r → At (set cs ref c) r
      leads' j r h =
          let (d, there, q) = v.leads j r h in
          elim (ℕ_discrete ref r) [
            | yes e ↦
                let here : get_elem? cs ref ≡ some d = ap (get_elem? cs) e ∙ there in
                (
                  c,
                  ap (get_elem? (set cs ref c)) (sym e) ∙ get_elem?-set_self cs ref c d here,
                  keeps d here q,
                )
            | no ne ↦ (d, get_elem?-set_ne cs ref r c ne ∙ there, q)
          ]
