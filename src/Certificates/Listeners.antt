-- ===== src/Certificates/Listeners.antt =====
-- What `main` listens on, and what that means for a Shore that connects.
use dock.Base.{◌≡◌, refl, true, [], ◌∷◌, Option, none, some, Bytes, Bytes_eq, arith}
use mathlib.Core.List.{Memᴰ}
use dock.Certificates.{TlsConfig, Listener, build_tls_config, version_tls12, listeners}

-- What the listener for Shores is set up with.
abbrev pub IsMutual :
    {ServerCert Pool : Type 0}
    → Option ServerCert
    → Option Pool
    → TlsConfig ServerCert Pool
    → Type 0
IsMutual {ServerCert} {Pool} server_cert pool cfg =
    (c : ServerCert) × (p : Pool) × (server_cert ≡ some c)
    × (pool ≡ some p)
    × (cfg.certificates ≡ c ∷ [])
    × (cfg.client_cas ≡ some p)
    × (cfg.requests_client_cert ≡ true)
    × (cfg.min_version ≡ version_tls12)

module _ {ServerCert Pool : Type 0} (port mtls_port : Bytes) where
  plain_only :
      (cfg : TlsConfig ServerCert Pool) (server_cert : Option ServerCert) (pool : Option Pool)
      (l : Listener ServerCert Pool)
      → l ≡ record { addr = b':' ∷ port; tls_config = none }
      → l.tls_config ≡ some cfg
      → IsMutual server_cert pool cfg
  plain_only cfg server_cert pool l e h = cc

  -- A listener of Dock's that speaks TLS has the server certificate that was loaded, takes TLS 1.2 or
  -- later, and asks a client for a certificate under the very pool that the handler of /shore/connect
  -- checks it with. Without that pool or that certificate there is no such listener.
  pub listeners-Mutual :
      (server_cert : Option ServerCert) (pool : Option Pool) (l : Listener ServerCert Pool)
      (cfg : TlsConfig ServerCert Pool)
      → Memᴰ l (listeners port mtls_port server_cert pool)
      → l.tls_config ≡ some cfg
      → IsMutual server_cert pool cfg
  unfolding listeners build_tls_config
  listeners-Mutual none pool l cfg (Memᴰ.head e) h = cc
  listeners-Mutual none pool l cfg (Memᴰ.tail m) h = elim m [ ]
  listeners-Mutual (some c) none l cfg (Memᴰ.head e) h = cc
  listeners-Mutual (some c) none l cfg (Memᴰ.tail m) h = elim m [ ]
  listeners-Mutual (some c) (some p) l cfg (Memᴰ.head e) h = cc
  listeners-Mutual (some c) (some p) l cfg (Memᴰ.tail (Memᴰ.head e)) h =
      (c, p, refl, refl, ground arith, ground arith, ground arith, ground arith)
  listeners-Mutual (some c) (some p) l cfg (Memᴰ.tail (Memᴰ.tail m)) h = elim m [ ]
