-- ===== src/Certificates/Parse.antt =====
-- `parseCACert` against a description of what it should return.
use dock.Base.{
  ℕ, zero, suc, ◌<◌, ◌≡◌, refl, sym, ap, ◌∙◌, inl, inr, Bool, true, false, List, [], ◌∷◌, Option,
  none, some, arith, Bytes, Bytes_eq, codes, keep, length, ◌==◌, Bool-cases, Option-cases,
}
use dock.Certificates.{
  Block, Parsed, parsed, bad_certificate, no_certificates, PoolOps, parse_blocks, parse_ca_cert,
}

abbrev pub is_certificate : Block → Bool
is_certificate b = b.kind == codes "CERTIFICATE"

module _ {Cert Pool : Type 0} (decode : Bytes → Option (Block × Bytes))
    (parse_certificate : Bytes → Option Cert) (ops : PoolOps Cert Pool) where
  -- The blocks that stand in a text.
  pub data Blocks : Bytes → List Block → Type 0 where
    no_more : {s : Bytes} → decode s ≡ none → Blocks s []
    more :
        {s rest : Bytes} {b : Block} {bs : List Block}
        → decode s ≡ some (b, rest)
        → Blocks rest bs
        → Blocks s (b ∷ bs)

  cons_parsed : Cert → Option (List Cert) → Option (List Cert)
  cons_parsed c none = none
  cons_parsed c (some cs) = some (c ∷ cs)

  -- All of the certificates, if each can be parsed.
  unfoldable pub all_parsed : List Block → Option (List Cert)
  unfolding cons_parsed
  all_parsed [] = some []
  all_parsed (b ∷ bs) = elim (parse_certificate b.contents) [
    | none ↦ none
    | some c ↦ cons_parsed c (all_parsed bs)
  ]

  unfoldable pub add_all : Pool → List Cert → Pool
  add_all pool [] = pool
  add_all pool (c ∷ cs) = add_all (ops.add_cert pool c) cs

  -- What a list of certificates makes of a pool.
  unfoldable pub pooled : Bool → Pool → Option (List Cert) → Parsed Pool
  unfolding add_all
  pooled found pool none = bad_certificate
  pooled true pool (some cs) = parsed (add_all pool cs)
  pooled false pool (some []) = no_certificates
  pooled false pool (some (c ∷ cs)) = parsed (add_all pool (c ∷ cs))

  pooled-cons :
      (found : Bool) (pool : Pool) (c : Cert) (o : Option (List Cert))
      → pooled found pool (cons_parsed c o) ≡ pooled true (ops.add_cert pool c) o
  unfolding pooled cons_parsed add_all
  pooled-cons true pool c none = refl
  pooled-cons true pool c (some cs) = refl
  pooled-cons false pool c none = refl
  pooled-cons false pool c (some cs) = refl

  empty :
      (found : Bool) (pool : Pool) (s : Bytes) (fuel : ℕ)
      → decode s ≡ none
      → parse_blocks decode parse_certificate ops (suc fuel) found pool s
        ≡ some (pooled found pool (some []))
  unfolding parse_blocks pooled add_all
  empty true pool s fuel n = rw (parse_blocks, n) refl
  empty false pool s fuel n = rw (parse_blocks, n) refl

  parse_blocks_lem :
      ((s rest : Bytes) (b : Block) → decode s ≡ some (b, rest) → length rest < length s)
      → (fuel : ℕ) (found : Bool) (pool : Pool) (s : Bytes) → length s < fuel
      → (bs : List Block) × Blocks s bs
        × (parse_blocks decode parse_certificate ops fuel found pool s
            ≡ some (pooled found pool (all_parsed (keep is_certificate bs))))
  unfolding parse_blocks all_parsed pooled add_all keep
  parse_blocks_lem shorter zero found pool s h = absurd (omega arith)
  parse_blocks_lem shorter (suc fuel) found pool s h = elim (Option-cases (decode s)) [
    | inl n ↦ ([], no_more n, empty found pool s fuel n)
    | inr ((b, rest), n) ↦ elim (Bool-cases (is_certificate b)) [
      | inr f ↦
          let (bs, w, e) =
            parse_blocks_lem shorter fuel found pool rest (omega (arith, shorter s rest b n)) in
          (b ∷ bs, more n w, rw (parse_blocks, n, f, keep) e)
      | inl t ↦ elim (Option-cases (parse_certificate b.contents)) [
        | inl p ↦
            let (bs, w, e) =
              parse_blocks_lem shorter fuel found pool rest (omega (arith, shorter s rest b n)) in
            (b ∷ bs, more n w, rw (parse_blocks, n, t, p, keep, all_parsed) refl)
        | inr (c, p) ↦
            let (bs, w, e) =
              parse_blocks_lem shorter fuel true (ops.add_cert pool c) rest
                (omega (arith, shorter s rest b n)) in
            (
              b ∷ bs,
              more n w,
              rw (parse_blocks, n, t, p, keep)
                  (e
                    ∙ ap some
                        (sym (pooled-cons found pool c (all_parsed (keep is_certificate bs))))),
            )
      ]
    ]
  ]

  -- A text that every block makes shorter is read to its end. The pool holds exactly the certificates
  -- of its CERTIFICATE blocks, in order, when there is one at least and all of them can be parsed; a
  -- certificate that cannot be parsed is an error, and so is a text without any.
  pub parse_ca_cert_lem :
      ((s rest : Bytes) (b : Block) → decode s ≡ some (b, rest) → length rest < length s)
      → (s : Bytes)
      → (bs : List Block) × Blocks s bs
        × (parse_ca_cert decode parse_certificate ops s
            ≡ some (pooled false ops.new_pool (all_parsed (keep is_certificate bs))))
  unfolding parse_ca_cert
  parse_ca_cert_lem shorter s =
      parse_blocks_lem shorter (suc (length s)) false ops.new_pool s (omega arith)
