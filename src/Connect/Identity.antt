-- ===== src/Connect/Identity.antt =====
-- Who can get into the registry, and under which name.
use dock.Base.{
  ℕ, ◌≡◌, ◌≢◌, ◌⊎◌, refl, inl, inr, Bool, true, List, [], ◌∷◌, Option, none, some, arith, Bytes,
  Bytes_eq, ◌==◌, Bool-cases, beq_cases,
}
use dock.Protocol.{RegisterMessage, msg_type_register}
use dock.Shore.{ShoreConnection, new_connection}
use dock.Registry.{ShoreRegistry, register}
use dock.Http.Writer.{Writer}
use dock.Connect.{
  Cert, First, unread, undecoded, decoded, joined, check_cert, shore_name, handshake, shore_connect,
}

-- A new Shore with a name, the certificate's if that has one.
abbrev pub Joins : ShoreRegistry → Bytes → ShoreRegistry → Type 0
Joins r cert_name r' =
    (s : ShoreConnection) × (r' ≡ register r s)
    × (s.name ≢ [])
    × ((cert_name ≡ []) ⊎ (s.name ≡ cert_name))

named :
    (cert_name : Bytes) (reg : RegisterMessage)
    → (cert_name ≡ []) ⊎ (shore_name cert_name reg ≡ cert_name)
unfolding shore_name
named cert_name reg = elim (beq_cases cert_name []) [ inl (p, t) ↦ inl p | inr (n, f) ↦ inr (rw f) ]

handshake_sound :
    (r r' : ShoreRegistry) (cert_name remote_addr : Bytes) (now : ℕ) (first : First)
    → handshake r cert_name remote_addr now first ≡ joined r'
    → Joins r cert_name r'
unfolding handshake new_connection
handshake_sound r r' cert_name remote_addr now unread h = cc
handshake_sound r r' cert_name remote_addr now undecoded h = cc
handshake_sound r r' cert_name remote_addr now (decoded reg) h =
    elim (Bool-cases (reg.msg_type == msg_type_register)) [
      | inr f ↦ ground arith
      | inl t ↦ elim (beq_cases (shore_name cert_name reg) []) [
        | inl (p, t') ↦ ground arith
        | inr (n, f) ↦ (
          new_connection (shore_name cert_name reg) reg.owner reg.services remote_addr now,
          ground (arith, t, f, h),
          n,
          named cert_name reg,
        )
      ]
    ]

-- Where certificate authorities are configured, only a Shore whose first certificate verifies gets into
-- the registry. Its name is not empty, and it is the certificate's unless that is empty: the name that
-- the Shore gives itself counts for nothing then.
pub shore_connect_sound :
    {Pool : Type 0} (r r' : ShoreRegistry) (pool : Pool) (tls : Option (List (Cert Pool)))
    (upgraded : Bool) (first : First) (remote_addr : Bytes) (now : ℕ) (w : Writer)
    → shore_connect r (some pool) tls upgraded first remote_addr now w ≡ joined r'
    → (cert : Cert Pool) × (certs : List (Cert Pool)) × (tls ≡ some (cert ∷ certs))
      × (cert.verifies pool ≡ true)
      × Joins r cert.common_name r'
unfolding shore_connect check_cert
shore_connect_sound r r' pool none upgraded first remote_addr now w h = cc
shore_connect_sound r r' pool (some []) upgraded first remote_addr now w h = cc
shore_connect_sound r r' pool (some (cert ∷ certs)) upgraded first remote_addr now w h =
    elim (Bool-cases (cert.verifies pool)) [
      | inr f ↦ ground (arith, f, h)
      | inl t ↦ elim (Bool-cases upgraded) [
        | inr f ↦ ground (arith, t, f, h)
        | inl u ↦ (
          cert,
          certs,
          refl,
          t,
          handshake_sound r r' cert.common_name remote_addr now first
              (rw (shore_connect, check_cert, t, u) at h),
        )
      ]
    ]
