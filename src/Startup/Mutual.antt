-- ===== src/Startup/Mutual.antt =====
-- DOCK_CA_CERT turns the check of Shores on, or Dock does not start.
use dock.Base.{
  ℕ, ◌<◌, ◌≡◌, ◌≢◌, refl, sym, ap, ◌∙◌, inl, inr, Bool, true, false, keep, List, [], ◌∷◌, Option,
  none, some, arith, Bytes, codes, Option-cases, Bool-cases, length,
}
use mathlib.Core.Option.{some_inj}
use dock.Registry.{ShoreRegistry}
use dock.Http.Writer.{Writer}
use dock.Connect.{Cert, First, joined, shore_connect}
use dock.Connect.Identity.{Joins, shore_connect_sound}
use dock.Certificates.{
  Block, PoolOps, Parsed, parsed, bad_certificate, no_certificates, parse_ca_cert, ca_cert_text,
}
use dock.Certificates.Parse.{Blocks, is_certificate, all_parsed, add_all, pooled, parse_ca_cert_lem}
use dock.Startup.{Env, App, load_ca_pool, the_pool, started, session_secret, start}

module _ {Authority Pool : Type 0} (decode : Bytes → Option (Block × Bytes))
    (parse_certificate : Bytes → Option Authority) (ops : PoolOps Authority Pool)
    (read_file : Bytes → Option Bytes) where
  -- The pool holds the certificates of the text, all of them and at least one.
  abbrev pub Holds : Bytes → Pool → Type 0
  Holds pem_data pool =
      (bs : List Block) × Blocks decode parse_certificate ops pem_data bs
      × (c : Authority) × (cs : List Authority) × (all_parsed decode parse_certificate ops
            (keep is_certificate bs)
          ≡ some (c ∷ cs))
      × (pool ≡ add_all decode parse_certificate ops ops.new_pool (c ∷ cs))

  Loaded : Bytes → Option Pool → Type 0
  Loaded value pool =
      (pem_data : Bytes) × (p : Pool) × (ca_cert_text read_file value ≡ some pem_data)
      × (parse_ca_cert decode parse_certificate ops pem_data ≡ some (parsed p))
      × (pool ≡ some p)

  the_pool-some :
      (o : Option (Parsed Pool)) (pool : Option Pool)
      → the_pool decode parse_certificate ops read_file o ≡ some pool
      → (p : Pool) × (o ≡ some (parsed p)) × (pool ≡ some p)
  unfolding the_pool
  the_pool-some (some (parsed p)) pool h = (p, refl, sym (some_inj.0 h))
  the_pool-some (some bad_certificate) pool h = cc
  the_pool-some (some no_certificates) pool h = cc
  the_pool-some none pool h = cc

  load_ca_pool-set :
      (value : Bytes) (pool : Option Pool)
      → value ≢ []
      → load_ca_pool decode parse_certificate ops read_file value ≡ some pool
      → Loaded value pool
  unfolding load_ca_pool Loaded
  load_ca_pool-set [] pool ne h = absurd (ne refl)
  load_ca_pool-set (c ∷ value) pool ne h =
      elim (Option-cases (ca_cert_text read_file (c ∷ value))) [
        | inl e ↦ ground arith
        | inr (pem_data, e) ↦
            let (p, read, same) =
              the_pool-some (parse_ca_cert decode parse_certificate ops pem_data) pool
                (rw (load_ca_pool, e) at h) in
            (pem_data, p, e, read, same)
      ]

  pooled-Holds :
      (pem_data : Bytes) (bs : List Block) (o : Option (List Authority)) (p : Pool)
      → Blocks decode parse_certificate ops pem_data bs
      → all_parsed decode parse_certificate ops (keep is_certificate bs) ≡ o
      → pooled decode parse_certificate ops false ops.new_pool o ≡ parsed p
      → Holds pem_data p
  unfolding pooled
  pooled-Holds pem_data bs none p w e h = cc
  pooled-Holds pem_data bs (some []) p w e h = cc
  pooled-Holds pem_data bs (some (c ∷ cs)) p w e h = (bs, w, c, cs, e, ground arith)

  parsed-Holds :
      ((s rest : Bytes) (b : Block) → decode s ≡ some (b, rest) → length rest < length s)
      → (pem_data : Bytes) (p : Pool)
      → parse_ca_cert decode parse_certificate ops pem_data ≡ some (parsed p)
      → Holds pem_data p
  parsed-Holds shorter pem_data p h =
      let (bs, w, e) = parse_ca_cert_lem decode parse_certificate ops shorter pem_data in
      pooled-Holds pem_data bs _ p w refl (some_inj.0 (sym e ∙ h))

module _ {Authority Pool ServerCert : Type 0} (decode : Bytes → Option (Block × Bytes))
    (parse_certificate : Bytes → Option Authority) (ops : PoolOps Authority Pool)
    (key_pair : Bytes → Bytes → Option ServerCert) (read_file : Bytes → Option Bytes) where
  start-pool :
      (env : Env) (store_opens : Bool) (drawn : Option Bytes) (app : App ServerCert Pool)
      → start decode parse_certificate ops key_pair read_file env store_opens drawn ≡ some app
      → load_ca_pool decode parse_certificate ops read_file (env (codes "DOCK_CA_CERT"))
        ≡ some app.ca_cert_pool
  unfolding start started
  start-pool env store_opens drawn app h =
      elim (Option-cases
        (load_ca_pool decode parse_certificate ops read_file (env (codes "DOCK_CA_CERT")))) [
          | inl e ↦ ground arith
          | inr (pool, e) ↦ elim (Bool-cases store_opens) [
            | inr f ↦ ground arith
            | inl t ↦ elim (Option-cases (session_secret env drawn)) [
              | inl n ↦ ground arith
              | inr (secret, k) ↦ ground arith
            ]
          ]
        ]

  -- Where DOCK_CA_CERT is set, Dock starts with a pool that holds all of the certificates of the text
  -- that it gives or names, and at least one, or does not start at all: once it runs, every Shore that
  -- gets into its registry has a client certificate that verifies under that pool, and is known by the
  -- name in it unless that is empty. Each PEM block is taken to make the text shorter.
  pub start-verifies :
      ((s rest : Bytes) (b : Block) → decode s ≡ some (b, rest) → length rest < length s)
      → (env : Env) (store_opens : Bool) (drawn : Option Bytes) (app : App ServerCert Pool)
        (r r' : ShoreRegistry) (tls : Option (List (Cert Pool))) (upgraded : Bool) (first : First)
        (remote_addr : Bytes) (now : ℕ) (w : Writer)
      → env (codes "DOCK_CA_CERT") ≢ []
      → start decode parse_certificate ops key_pair read_file env store_opens drawn ≡ some app
      → shore_connect r app.ca_cert_pool tls upgraded first remote_addr now w ≡ joined r'
      → (pem_data : Bytes) × (pool : Pool) × (ca_cert_text read_file (env (codes "DOCK_CA_CERT"))
          ≡ some pem_data)
        × Holds decode parse_certificate ops read_file pem_data pool
        × (cert : Cert Pool) × (certs : List (Cert Pool)) × (tls ≡ some (cert ∷ certs))
        × (cert.verifies pool ≡ true)
        × Joins r cert.common_name r'
  unfolding Loaded
  start-verifies shorter env store_opens drawn app r r' tls upgraded first remote_addr now w set up
        h =
      let (pem_data, pool, text, read, same) =
        load_ca_pool-set decode parse_certificate ops read_file (env (codes "DOCK_CA_CERT"))
          app.ca_cert_pool set (start-pool env store_opens drawn app up) in
      let (cert, certs, shown, verified, joins) =
        shore_connect_sound r r' pool tls upgraded first remote_addr now w
          (ap (λ p. shore_connect r p tls upgraded first remote_addr now w) (sym same) ∙ h) in
      let holds = parsed-Holds decode parse_certificate ops read_file shorter pem_data pool read in
      (pem_data, pool, text, holds, cert, certs, shown, verified, joins)
