-- ===== src/Shore/Addressed.antt =====
-- Channels with the id that each was made for: what a map from ids to channels and the channels' contents
-- keep to, so that a message only ever gets into a channel that was made for its id.
use native.Mathlib.Decide.{ℕ_discrete}
use dock.Base.{
  ℕ, zero, suc, ◌+◌, ◌≡◌, ◌⊎◌, sym, ap, ◌∙◌, subst, inl, inr, List, [], ◌∷◌, ◌++◌, some, arith,
  Bytes, Map, Bytes_eq, lookup, insert, delete, lookup-insert_cases, lookup-delete_cases, length,
  length-append, length-set, get_elem?, set, All, All-append, Option-cases, Bool-cases, ltb,
  get_elem?-append_last, get_elem?-append_old, get_elem?-set_ne,
}
use dock.Shore.Channel.{Chan, make, try_send}
use dock.Shore.{send_at}

get_elem?-append_cases :
    {A : Type 0} (xs : List A) (x y : A) (i : ℕ)
    → get_elem? (xs ++ x ∷ []) i ≡ some y
    → (get_elem? xs i ≡ some y) ⊎ (x ≡ y)
get_elem?-append_cases [] x y zero h = inr (ground arith)
get_elem?-append_cases [] x y (suc i) h = cc
get_elem?-append_cases (z ∷ xs) x y zero h = inl h
get_elem?-append_cases (z ∷ xs) x y (suc i) h = get_elem?-append_cases xs x y i h

get_elem?-set_here :
    {A : Type 0} (xs : List A) (i : ℕ) (v a : A) → get_elem? (set xs i v) i ≡ some a → v ≡ a
get_elem?-set_here [] i v a h = cc
get_elem?-set_here (x ∷ xs) zero v a h = ground arith
get_elem?-set_here (x ∷ xs) (suc i) v a h = get_elem?-set_here xs i v a h

All-append_last :
    {A : Type 0} (P : A → Type 0) (xs : List A) (x : A) → All P xs → P x → All P (xs ++ x ∷ [])
All-append_last P xs x all_xs p = All-append P xs (x ∷ []) all_xs (p, tt)

All-map :
    {A : Type 0} (P Q : A → Type 0) (xs : List A) → ((x : A) → P x → Q x) → All P xs → All Q xs
All-map P Q [] f h = tt
All-map P Q (x ∷ xs) f (p, h) = (f x p, All-map P Q xs f h)

module _ {A : Type 0} (key : A → Bytes) where
  -- All that waits in the channel is for the id with the number `ref`.
  abbrev pub AllFor : List Bytes → ℕ → Chan A → Type 0
  AllFor ids ref ch = All (λ a. get_elem? ids ref ≡ some (key a)) ch.buffer

  pub record Addressed (ids : List Bytes) (m : Map Bytes ℕ) (cs : List (Chan A)) : Type 0 where
    pub known : (id : Bytes) (ref : ℕ) → lookup id m ≡ some ref → get_elem? ids ref ≡ some id
    pub contents : (ref : ℕ) (ch : Chan A) → get_elem? cs ref ≡ some ch → AllFor ids ref ch
    pub as_many : length ids ≡ length cs

  pub delete-Addressed :
      (id : Bytes) (ids : List Bytes) (m : Map Bytes ℕ) (cs : List (Chan A))
      → Addressed ids m cs
      → Addressed ids (delete id m) cs
  delete-Addressed id ids m cs v = record {
    known = λ j ref h. v.known j ref (lookup-delete_cases id j ref m h).1;
    contents = v.contents;
    as_many = v.as_many;
  }

  -- A channel that is made for an id.
  pub insert-Addressed :
      (id : Bytes) (n : ℕ) (ids : List Bytes) (m : Map Bytes ℕ) (cs : List (Chan A))
      → Addressed ids m cs
      → Addressed (ids ++ id ∷ []) (insert id (length cs) m) (cs ++ make n ∷ [])
  insert-Addressed id n ids m cs v = record {
    known = known';
    contents = contents';
    as_many = longer;
  }
    where
      known' :
          (j : Bytes) (ref : ℕ)
          → lookup j (insert id (length cs) m) ≡ some ref
          → get_elem? (ids ++ id ∷ []) ref ≡ some j
      known' j ref h = elim (lookup-insert_cases id j (length cs) ref m h) [
        | inl (e, same) ↦
            ap (get_elem? (ids ++ id ∷ [])) (sym (v.as_many ∙ same))
            ∙ get_elem?-append_last ids id
            ∙ ap some e
        | inr (ne, old) ↦ get_elem?-append_old ids id j ref (v.known j ref old)
      ]

      contents' :
          (ref : ℕ) (ch : Chan A)
          → get_elem? (cs ++ make n ∷ []) ref ≡ some ch
          → AllFor (ids ++ id ∷ []) ref ch
      contents' ref ch h = elim (get_elem?-append_cases cs (make n) ch ref h) [
        | inl old ↦
            All-map (λ a. get_elem? ids ref ≡ some (key a))
              (λ a. get_elem? (ids ++ id ∷ []) ref ≡ some (key a)) ch.buffer
              (λ a e. get_elem?-append_old ids id (key a) ref e) (v.contents ref ch old)
        | inr fresh ↦ subst (AllFor (ids ++ id ∷ []) ref) fresh (unfold make in tt)
      ]

      longer : length (ids ++ id ∷ []) ≡ length (cs ++ make n ∷ [])
      longer =
          length-append ids (id ∷ [])
          ∙ ap (λ k. k + 1) v.as_many
          ∙ sym (length-append cs (make n ∷ []))

  -- A channel gets other contents, which are for its id.
  pub set-Addressed :
      (ref : ℕ) (ch : Chan A) (ids : List Bytes) (m : Map Bytes ℕ) (cs : List (Chan A))
      → AllFor ids ref ch
      → Addressed ids m cs
      → Addressed ids m (set cs ref ch)
  set-Addressed ref ch ids m cs all_for v = record {
    known = v.known;
    contents = contents';
    as_many = v.as_many ∙ sym (length-set cs ref ch);
  }
    where
      contents' : (q : ℕ) (ch' : Chan A) → get_elem? (set cs ref ch) q ≡ some ch' → AllFor ids q ch'
      contents' q ch' h = elim (ℕ_discrete ref q) [
        | no ne ↦ v.contents q ch' (sym (get_elem?-set_ne cs ref q ch ne) ∙ h)
        | yes e ↦
            let here : ch ≡ ch' =
              get_elem?-set_here cs ref ch ch' (ap (get_elem? (set cs ref ch)) e ∙ h) in
            subst (λ n. AllFor ids n ch') e (subst (AllFor ids ref) here all_for)
      ]

-- A send that does not block keeps a channel's contents, or adds the value to them.
try_send-AllFor :
    {A : Type 0} (key : A → Bytes) (ids : List Bytes) (ref : ℕ) (ch ch' : Chan A) (a : A)
    → get_elem? ids ref ≡ some (key a)
    → try_send ch a ≡ some ch'
    → AllFor key ids ref ch
    → AllFor key ids ref ch'
unfolding try_send
try_send-AllFor key ids ref ch ch' a mine e all_for = elim (Bool-cases ch.closed) [
  | inl t ↦ ground arith
  | inr f ↦ elim (Bool-cases (ltb (length ch.buffer) ch.cap)) [
    | inl room ↦
        let longer : record ch { buffer = ch.buffer ++ a ∷ [] } ≡ ch' = ground arith in
        subst (AllFor key ids ref) longer
          (All-append_last (λ b. get_elem? ids ref ≡ some (key b)) ch.buffer a all_for mine)
    | inr full ↦ let same : ch ≡ ch' = ground arith in subst (AllFor key ids ref) same all_for
  ]
]

pub send_at-Addressed :
    {A : Type 0} (key : A → Bytes) (ids : List Bytes) (m : Map Bytes ℕ) (cs cs' : List (Chan A))
    (ref : ℕ) (a : A)
    → get_elem? ids ref ≡ some (key a)
    → send_at cs ref a ≡ some cs'
    → Addressed key ids m cs
    → Addressed key ids m cs'
unfolding send_at
send_at-Addressed key ids m cs cs' ref a mine e v = elim (Option-cases (get_elem? cs ref)) [
  | inl missing ↦ ground arith
  | inr (ch, there) ↦ elim (Option-cases (try_send ch a)) [
    | inl panics ↦ ground arith
    | inr (ch', sent) ↦
        let same : set cs ref ch' ≡ cs' = ground arith in
        subst (Addressed key ids m) same (
          set-Addressed key ref ch' ids m cs
            (try_send-AllFor key ids ref ch ch' a mine sent (v.contents ref ch there)) v)
  ]
]
