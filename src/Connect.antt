-- ===== src/Connect.antt =====
-- shore_handler.go, `shoreConnectHandler`: how a Shore gets into the registry, up to the start of its
-- read loop.
pub mod Identity
pub mod ReadLoop
pub mod Messages
mod Tests
use dock.Base.{
  ℕ, Bool, true, false, List, [], ◌∷◌, Option, none, some, Bytes, Bytes_eq, codes, ◌==◌,
  if◌then◌else◌,
}
use dock.Protocol.{RegisterMessage, msg_type_register}
use dock.Shore.{ShoreConnection, new_connection}
use dock.Registry.{ShoreRegistry, register}
use dock.Http.Writer.{Writer, http_error}

-- A client certificate: the name of its subject, and whether x509's `Verify` accepts it for use by a
-- client, with a pool of certificate authorities as its roots.
pub record Cert (Pool : Type 0) : Type 0 where
  pub common_name : Bytes
  pub verifies : Pool → Bool

-- What the check of the certificate gives.
pub data Checked : Type 0 where
  refuses : Bytes → Checked
  certifies : Bytes → Checked

-- The first message on the WebSocket.
pub data First : Type 0 where
  unread : First
  undecoded : First
  decoded : RegisterMessage → First

-- `rejected` is answered by HTTP, `dropped` closes the connection or has none.
pub data Connected : Type 0 where
  rejected : Writer → Connected
  dropped : Connected
  joined : ShoreRegistry → Connected

-- With `app.caCertPool`, and with `r.TLS` and its PeerCertificates
unfoldable pub check_cert : {Pool : Type 0} → Option Pool → Option (List (Cert Pool)) → Checked
check_cert none tls = certifies []
check_cert (some pool) none = refuses (codes "Client certificate required")
check_cert (some pool) (some []) = refuses (codes "Client certificate required")
check_cert (some pool) (some (cert ∷ certs)) =
    if cert.verifies pool
    then certifies cert.common_name
    else refuses (codes "Invalid client certificate")

unfoldable pub shore_name : Bytes → RegisterMessage → Bytes
shore_name cert_name reg = if cert_name == [] then reg.name else cert_name

unfoldable pub handshake : ShoreRegistry → Bytes → Bytes → ℕ → First → Connected
handshake r cert_name remote_addr now unread = dropped
handshake r cert_name remote_addr now undecoded = dropped
handshake r cert_name remote_addr now (decoded reg) =
    let name = shore_name cert_name reg in
    if reg.msg_type == msg_type_register
    then if name == []
      then dropped
      else joined (register r (new_connection name reg.owner reg.services remote_addr now))
    else dropped

-- `shoreConnectHandler`; `upgraded` says whether the WebSocket comes up.
unfoldable pub shore_connect :
    {Pool : Type 0}
    → ShoreRegistry
    → Option Pool
    → Option (List (Cert Pool))
    → Bool
    → First
    → Bytes
    → ℕ
    → Writer
    → Connected
shore_connect r pool tls upgraded first remote_addr now w = elim (check_cert pool tls) [
  | refuses text ↦ rejected (http_error w text 401)
  | certifies cert_name ↦ if upgraded then handshake r cert_name remote_addr now first else dropped
]
