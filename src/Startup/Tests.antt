-- ===== src/Startup/Tests.antt =====
-- Tests and witnesses for the start.
use dock.Base.{
  Bool, false, ◌<◌, length, arith, ◌≡◌, refl, true, List, [], ◌∷◌, ◌++◌, Option, none, some, Bytes,
  Bytes_eq, codes, bytes_eq, ◌==◌, if◌then◌else◌, has_prefix, strip_prefix?, to_lower,
}
use dock.Base.Hex.{hex_encode, hex_digit, hex_decode}
use dock.Base.Base64.{base64_decode}
use dock.Base.Space.{trim_space}
use dock.Session.{load_session_secret}
use dock.Protocol.{RegisterMessage, msg_type_register}
use dock.Registry.{new_shore_registry, register}
use dock.Shore.{new_connection}
use dock.Http.Writer.{new_writer}
use dock.Connect.{Cert, decoded, joined, shore_connect, check_cert, handshake, shore_name}
use dock.Connect.Identity.{Joins}
use dock.Certificates.{Block, PoolOps, parse_ca_cert, ca_cert_text, contains_text}
use dock.Startup.{
  Env, App, callback_url, port, start, started, session_secret, load_ca_pool, the_pool,
  init_version, print_version, asks_version, generate_id,
}
use dock.Startup.Mutual.{Holds, start-verifies}

abbrev env : Env
env name =
    if name == codes "DOCK_HOST"
    then codes "dock.example"
    else if name == codes "GOTH_GITHUB_KEY"
    then codes "k"
    else if name == codes "GOTH_GITHUB_SECRET"
    then codes "s"
    else if name == codes "DOCK_CA_CERT"
    then codes "ca.pem"
    else if name == codes "DOCK_SESSION_SECRET"
    then codes "q"
    else []

the_url : callback_url env ≡ some (codes "https://dock.example/auth/github/callback")
unfolding callback_url bytes_eq has_prefix strip_prefix? to_lower
the_url = refl

local_port : port env ≡ codes "8080"
unfolding port bytes_eq
local_port = refl

abbrev as_list : PoolOps Bytes (List Bytes)
as_list = record { new_pool = []; add_cert = λ pool c. pool ++ c ∷ [] }

-- A text is one certificate.
decode : Bytes → Option (Block × Bytes)
decode [] = none
decode (c ∷ s) = some (record { kind = codes "CERTIFICATE"; contents = c ∷ s }, [])

abbrev read_file : Bytes → Option Bytes
read_file name = some name

abbrev key_pair : Bytes → Bytes → Option Bytes
key_pair cert key = some cert

abbrev app : App Bytes (List Bytes)
unfolding started callback_url bytes_eq has_prefix strip_prefix? to_lower
app =
    started {Pool = List Bytes} {ServerCert = Bytes} key_pair read_file env
      (some (codes "ca.pem" ∷ [])) (codes "q")

starts : start decode some as_list key_pair read_file env true none ≡ some app
unfolding start load_ca_pool session_secret ca_cert_text contains_text parse_ca_cert decode bytes_eq
    has_prefix strip_prefix? app started the_pool load_session_secret hex_decode base64_decode
starts = refl

abbrev reg : RegisterMessage
reg = record {
  msg_type = msg_type_register;
  name = codes "shore-x";
  owner = codes "ann";
  services = [];
  version = [];
}

has_root : List Bytes → Bool
has_root [] = false
has_root (root ∷ roots) = true

abbrev cert : Cert (List Bytes)
cert = record { common_name = codes "shore-tower"; verifies = has_root }

decode-shorter : (s rest : Bytes) (b : Block) → decode s ≡ some (b, rest) → length rest < length s
unfolding decode
decode-shorter [] rest b e = cc
decode-shorter (c ∷ s) rest b e = ground arith

joins :
    shore_connect new_shore_registry app.ca_cert_pool
      (some (cert ∷ []))
      true
      (decoded reg)
      (codes "9.9.9.9:9")
      7
      new_writer
    ≡ joined (
        register new_shore_registry
          (new_connection (codes "shore-tower") (codes "ann") [] (codes "9.9.9.9:9") 7))
unfolding shore_connect has_root bytes_eq started check_cert app handshake shore_name
joins = refl

start-verifies_example :
    (pem_data : Bytes) × (pool : List Bytes) × (ca_cert_text read_file (env (codes "DOCK_CA_CERT"))
      ≡ some pem_data)
    × Holds decode some as_list read_file pem_data pool
    × (c : Cert (List Bytes)) × (certs : List (Cert (List Bytes))) × (some (cert ∷ [])
        ≡ some (c ∷ certs))
    × (c.verifies pool ≡ true)
    × Joins new_shore_registry c.common_name (
        register new_shore_registry
          (new_connection (codes "shore-tower") (codes "ann") [] (codes "9.9.9.9:9") 7))
start-verifies_example =
    start-verifies decode some as_list key_pair read_file decode-shorter env true none app
      new_shore_registry
      (register new_shore_registry
        (new_connection (codes "shore-tower") (codes "ann") [] (codes "9.9.9.9:9") 7))
      (some (cert ∷ [])) true (decoded reg) (codes "9.9.9.9:9") 7 new_writer
      (unfold bytes_eq in λ e. cc) starts joins

released : init_version (codes "v1.2.0.0") (some (codes "x")) ≡ codes "v1.2.0.0"
unfolding init_version bytes_eq
released = refl

described : init_version (codes "dev") (some (codes "v1-3-g9\n")) ≡ codes "v1-3-g9"
unfolding init_version bytes_eq trim_space
described = refl

printed : print_version (codes "v1") (codes "unknown") ≡ codes "hermit-dock v1 (built unknown)\n"
unfolding print_version
printed = refl

flag : asks_version (codes "dock" ∷ codes "--version" ∷ []) ≡ true
unfolding asks_version bytes_eq
flag = refl

drawn_id : generate_id (some (0 ∷ 255 ∷ [])) ≡ some (codes "00ff")
unfolding generate_id hex_encode hex_digit
drawn_id = refl
