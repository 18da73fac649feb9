-- ===== src/Certificates/Tests.antt =====
-- Tests and witnesses for certificates and listeners.
use mathlib.Core.List.{Memᴰ}
use dock.Base.{
  ℕ, ◌≡◌, ◌<◌, refl, true, false, List, [], ◌∷◌, ◌++◌, Option, none, some, arith, Bytes, Bytes_eq,
  codes, keep, length, suc, nat_eq, if◌then◌else◌, bytes_eq, has_prefix, strip_prefix?,
}
use dock.Certificates.{
  Block, parsed, bad_certificate, no_certificates, PoolOps, parse_ca_cert, ca_cert_text,
  contains_text, TlsConfig, build_tls_config, listeners,
}
use dock.Certificates.Parse.{is_certificate, Blocks, all_parsed, pooled, parse_ca_cert_lem}

-- A block is two bytes: C for a certificate or another letter, and its contents.
decode : Bytes → Option (Block × Bytes)
decode (c ∷ n ∷ s) = some (
  record { kind = if nat_eq c b'C' then codes "CERTIFICATE" else codes "KEY"; contents = n ∷ [] },
  s,
)
decode _ = none

decode-shorter : (s rest : Bytes) (b : Block) → decode s ≡ some (b, rest) → length rest < length s
unfolding decode
decode-shorter [] rest b h = cc
decode-shorter (c ∷ []) rest b h = cc
decode-shorter (c ∷ n ∷ s) rest b h = ground arith

-- A certificate is a byte, and 0 is none.
certificate : Bytes → Option ℕ
certificate (suc n ∷ s) = some (suc n)
certificate _ = none

abbrev as_list : PoolOps ℕ (List ℕ)
as_list = record { new_pool = []; add_cert = λ pool c. pool ++ c ∷ [] }

two_certificates :
    parse_ca_cert decode certificate as_list (67 ∷ 1 ∷ 75 ∷ 9 ∷ 67 ∷ 2 ∷ [])
    ≡ some (parsed (1 ∷ 2 ∷ []))
unfolding parse_ca_cert decode certificate bytes_eq
two_certificates = refl

one_bad : parse_ca_cert decode certificate as_list (67 ∷ 1 ∷ 67 ∷ 0 ∷ []) ≡ some bad_certificate
unfolding parse_ca_cert decode certificate bytes_eq
one_bad = refl

only_a_key : parse_ca_cert decode certificate as_list (75 ∷ 9 ∷ []) ≡ some no_certificates
unfolding parse_ca_cert decode certificate bytes_eq
only_a_key = refl

parse_ca_cert_lem_example :
    (bs : List Block) × Blocks decode certificate as_list (67 ∷ 1 ∷ 75 ∷ 9 ∷ []) bs
    × (parse_ca_cert decode certificate as_list (67 ∷ 1 ∷ 75 ∷ 9 ∷ [])
        ≡ some (
            pooled decode certificate as_list false []
              (all_parsed decode certificate as_list (keep is_certificate bs))))
parse_ca_cert_lem_example =
    parse_ca_cert_lem decode certificate as_list decode-shorter (67 ∷ 1 ∷ 75 ∷ 9 ∷ [])

inline_or_file :
    (ca_cert_text (λ name. some name) (codes "-----BEGIN CERTIFICATE-----")
      ≡ some (codes "-----BEGIN CERTIFICATE-----"))
    × (ca_cert_text (λ name. none) (codes "/etc/ca.pem") ≡ none)
unfolding ca_cert_text contains_text has_prefix strip_prefix?
inline_or_file = (refl, refl)

abbrev mutual_config : TlsConfig Bytes Bytes
mutual_config = record {
  min_version = 0x0303;
  requests_client_cert = true;
  client_cas = some (codes "ca");
  certificates = codes "cert" ∷ [];
  next_protos = codes "http/1.1" ∷ [];
}

second_listener :
    Memᴰ
      (record { addr = codes ":8443"; tls_config = some mutual_config })
      (listeners (codes "8080") (codes "8443") (some (codes "cert")) (some (codes "ca")))
unfolding listeners build_tls_config
second_listener = Memᴰ.tail (Memᴰ.head refl)
