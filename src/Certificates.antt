-- ===== src/Certificates.antt =====
-- main.go and shore_handler.go: the certificates that Dock starts with, and the TLS of its listeners.
-- Packages encoding/pem, crypto/x509 and crypto/tls are arguments, and so is the file system: `none` for
-- an error.
pub mod Parse
pub mod Listeners
mod Tests
use dock.Base.{
  ℕ, zero, suc, Bool, true, false, ◌||◌, List, [], ◌∷◌, ◌++◌, Option, none, some, Bytes, Bytes_eq,
  codes, has_prefix, length, ◌==◌, if◌then◌else◌,
}

-- `strings.Contains(s, p)`
unfoldable pub contains_text : Bytes → Bytes → Bool
contains_text [] p = has_prefix [] p
contains_text (c ∷ s) p = has_prefix (c ∷ s) p || contains_text s p

-- `pem.Block` without its headers, which nothing reads.
pub record Block : Type 0 where
  pub kind : Bytes
  pub contents : Bytes

-- What `parseCACert` returns.
pub data Parsed (Pool : Type 0) : Type 0 where
  parsed : Pool → Parsed Pool
  bad_certificate : Parsed Pool
  no_certificates : Parsed Pool

-- `x509.CertPool` with `NewCertPool` and `AddCert`.
pub record PoolOps (Cert Pool : Type 0) : Type 0 where
  pub new_pool : Pool
  pub add_cert : Pool → Cert → Pool

module _ {Cert Pool : Type 0} (decode : Bytes → Option (Block × Bytes))
    (parse_certificate : Bytes → Option Cert) (ops : PoolOps Cert Pool) where
  -- The loop of `parseCACert`, with fuel: none where that runs out.
  unfoldable pub parse_blocks : ℕ → Bool → Pool → Bytes → Option (Parsed Pool)
  parse_blocks zero found pool pem_data = none
  parse_blocks (suc fuel) found pool pem_data = elim (decode pem_data) [
    | none ↦ some (if found then parsed pool else no_certificates)
    | some (block, rest) ↦ elim (block.kind == codes "CERTIFICATE") [
      | false ↦ parse_blocks fuel found pool rest
      | true ↦ elim (parse_certificate block.contents) [
        | none ↦ some bad_certificate
        | some cert ↦ parse_blocks fuel true (ops.add_cert pool cert) rest
      ]
    ]
  ]

  -- `parseCACert`: a block takes a byte at least.
  unfoldable pub parse_ca_cert : Bytes → Option (Parsed Pool)
  unfolding parse_blocks
  parse_ca_cert pem_data = parse_blocks (suc (length pem_data)) false ops.new_pool pem_data

-- The value of DOCK_CA_CERT, as a text or from the file that it names.
unfoldable pub ca_cert_text : (Bytes → Option Bytes) → Bytes → Option Bytes
unfolding contains_text
ca_cert_text read_file value =
    if contains_text value (codes "BEGIN CERTIFICATE") then some value else read_file value

-- `pemValueOrFile`
unfoldable pub pem_value_or_file : (Bytes → Option Bytes) → Bytes → Option Bytes
unfolding contains_text
pem_value_or_file read_file value =
    if contains_text value (codes "BEGIN ") then some value else read_file value

-- `loadServerCert`, none for an error; `key_pair` is tls.X509KeyPair.
module _ {ServerCert : Type 0} (key_pair : Bytes → Bytes → Option ServerCert)
    (read_file : Bytes → Option Bytes) where
  unfoldable pub load_server_cert : Bytes → Bytes → Option ServerCert
  unfolding pem_value_or_file
  load_server_cert cert_val key_val =
      if cert_val == [] || key_val == []
      then none
      else elim (pem_value_or_file read_file cert_val) [
        | none ↦ none
        | some cert_pem ↦ elim (pem_value_or_file read_file key_val) [
          | none ↦ none
          | some key_pem ↦ key_pair cert_pem key_pem
        ]
      ]

-- `tls.Config`, as far as Dock sets it. A client is asked for a certificate, or is not; none is
-- required of it.
pub record TlsConfig (ServerCert Pool : Type 0) : Type 0 where
  pub min_version : ℕ
  pub requests_client_cert : Bool
  pub client_cas : Option Pool
  pub certificates : List ServerCert
  pub next_protos : List Bytes

abbrev pub version_tls12 : ℕ
version_tls12 = 0x0303

-- `buildTLSConfig`
unfoldable pub build_tls_config :
    {ServerCert Pool : Type 0} → Option Pool → TlsConfig ServerCert Pool
build_tls_config none = record {
  min_version = version_tls12;
  requests_client_cert = false;
  client_cas = none;
  certificates = [];
  next_protos = [];
}
build_tls_config (some pool) = record {
  min_version = version_tls12;
  requests_client_cert = true;
  client_cas = some pool;
  certificates = [];
  next_protos = [];
}

-- An `http.Server` that is started, all with one handler.
pub record Listener (ServerCert Pool : Type 0) : Type 0 where
  pub addr : Bytes
  pub tls_config : Option (TlsConfig ServerCert Pool)

-- The servers that `main` starts, in order.
unfoldable pub listeners :
    {ServerCert Pool : Type 0}
    → Bytes
    → Bytes
    → Option ServerCert
    → Option Pool
    → List (Listener ServerCert Pool)
unfolding build_tls_config
listeners port mtls_port (some server_cert) (some pool) =
    record { addr = b':' ∷ port; tls_config = none }
    ∷ record {
      addr = b':' ∷ mtls_port;
      tls_config = some (record (build_tls_config (some pool)) {
        certificates = server_cert ∷ [];
        next_protos = codes "http/1.1" ∷ [];
      });
    }
    ∷ []
listeners port mtls_port _ _ = record { addr = b':' ∷ port; tls_config = none } ∷ []
