-- ===== src/Startup.antt =====
-- main.go and version.go: what `main` makes of the environment before it serves. `os.Getenv` is a
-- function, empty for a variable that is not set, and so are the file system and the packages for
-- certificates. Log lines are left out; a `log.Fatalf` ends the start.
pub mod Secure
pub mod Mutual
mod Tests
use dock.Base.{
  ℕ, Bool, true, false, not, ◌&&◌, ◌||◌, List, [], ◌∷◌, ◌++◌, Option, none, some, Bytes, Bytes_eq,
  codes, has_prefix, to_lower, ◌==◌, if◌then◌else◌,
}
use dock.Base.Hex.{hex_encode}
use dock.Base.Space.{trim_space}
use dock.Registry.{ShoreRegistry, new_shore_registry}
use dock.Session.{load_session_secret}
use dock.Auth.{Settings}
use dock.Certificates.{
  Block, Parsed, parsed, bad_certificate, no_certificates, PoolOps, parse_ca_cert, ca_cert_text,
  load_server_cert, Listener, listeners,
}

abbrev pub Env : Type 0
Env = Bytes → Bytes

or_else : Bytes → Bytes → Bytes
or_else [] default_value = default_value
or_else (c ∷ s) default_value = c ∷ s

unfoldable pub port : Env → Bytes
unfolding or_else
port env = or_else (env (codes "PORT")) (codes "8080")

unfoldable pub mtls_port : Env → Bytes
unfolding or_else
mtls_port env = or_else (env (codes "MTLS_PORT")) (codes "8443")

is_public_host : Bytes → Bool
is_public_host host =
    not (host == [])
    && not (has_prefix host (codes "localhost"))
    && not (has_prefix host (codes "127.0.0.1"))

is_yes : Bytes → Bool
is_yes v = v == codes "true" || v == codes "1" || v == codes "yes"

-- `tlsTerminated`
unfoldable pub tls_terminated : Env → Bool
unfolding is_public_host is_yes
tls_terminated env =
    is_yes (to_lower (env (codes "DOCK_SECURE"))) || is_public_host (env (codes "DOCK_HOST"))

-- `secureCookies`
unfoldable pub secure_cookies : Env → Bool
unfolding tls_terminated
secure_cookies env = not (env (codes "DOCK_TLS_CERT") == []) || tls_terminated env

url_for : Bool → Bytes → Bytes
url_for secure host =
    (if secure then codes "https" else codes "http")
    ++ (codes "://" ++ (host ++ codes "/auth/github/callback"))

-- The URL that the OAuth provider sends a browser back to, none where OAuth is not configured.
unfoldable pub callback_url : Env → Option Bytes
unfolding secure_cookies or_else port url_for
callback_url env =
    if env (codes "GOTH_GITHUB_KEY") == [] || env (codes "GOTH_GITHUB_SECRET") == []
    then none
    else some (
        url_for (secure_cookies env)
          (or_else (env (codes "DOCK_HOST")) (codes "localhost:" ++ port env)))

-- `generateID` and `generateSessionSecret` with what `rand.Read` draws, none for an error, which ends
-- the process.
unfoldable pub generate_id : Option Bytes → Option Bytes
generate_id none = none
generate_id (some b) = some (hex_encode b)

-- `loadSessionSecret` draws a secret only where DOCK_SESSION_SECRET is not set.
unfoldable pub session_secret : Env → Option Bytes → Option Bytes
session_secret env drawn = elim (env (codes "DOCK_SESSION_SECRET")) [
  | [] ↦ drawn
  | ◌∷◌ c raw ↦ some (load_session_secret (c ∷ raw) [])
]

-- `App` with the listeners and what OAuth is told. `users` is the store in another module's hands.
pub record App (ServerCert Pool : Type 0) : Type 0 where
  pub registry : ShoreRegistry
  pub ca_cert_pool : Option Pool
  pub settings : Settings
  pub callback : Option Bytes
  pub servers : List (Listener ServerCert Pool)

module _ {Cert Pool : Type 0} (decode : Bytes → Option (Block × Bytes))
    (parse_certificate : Bytes → Option Cert) (ops : PoolOps Cert Pool)
    (read_file : Bytes → Option Bytes) where
  the_pool : Option (Parsed Pool) → Option (Option Pool)
  the_pool (some (parsed pool)) = some (some pool)
  the_pool _ = none

  -- `caCertPool` from the value of DOCK_CA_CERT: none for a `log.Fatalf`.
  unfoldable pub load_ca_pool : Bytes → Option (Option Pool)
  unfolding the_pool
  load_ca_pool [] = some none
  load_ca_pool (c ∷ value) = elim (ca_cert_text read_file (c ∷ value)) [
    | none ↦ none
    | some pem_data ↦ the_pool (parse_ca_cert decode parse_certificate ops pem_data)
  ]

module _ {Pool ServerCert : Type 0} (key_pair : Bytes → Bytes → Option ServerCert)
    (read_file : Bytes → Option Bytes) where
  started : Env → Option Pool → Bytes → App ServerCert Pool
  started env pool secret = record {
    registry = new_shore_registry;
    ca_cert_pool = pool;
    settings = record {
      session_secret = secret;
      secure_cookies = secure_cookies env;
      admin_user = env (codes "DOCK_ADMIN_USER");
    };
    callback = callback_url env;
    servers =
        listeners (port env) (mtls_port env)
          (load_server_cert key_pair read_file (env (codes "DOCK_TLS_CERT"))
            (env (codes "DOCK_TLS_KEY")))
          pool;
  }

module _ {Cert Pool ServerCert : Type 0} (decode : Bytes → Option (Block × Bytes))
    (parse_certificate : Bytes → Option Cert) (ops : PoolOps Cert Pool)
    (key_pair : Bytes → Bytes → Option ServerCert) (read_file : Bytes → Option Bytes) where
  -- `main` up to where it serves, with whether the user store opens and what `rand.Read` draws: none
  -- where it ends.
  unfoldable pub start : Env → Bool → Option Bytes → Option (App ServerCert Pool)
  unfolding started
  start env store_opens drawn =
      elim (load_ca_pool decode parse_certificate ops read_file (env (codes "DOCK_CA_CERT"))) [
        | none ↦ none
        | some pool ↦
            if store_opens
            then elim (session_secret env drawn) [
              | none ↦ none
              | some secret ↦ some (started key_pair read_file env pool secret)
            ]
            else none
      ]

-- `gitDescribeVersion` on what `git describe` prints, none for an error.
unfoldable pub git_describe_version : Option Bytes → Option Bytes
git_describe_version none = none
git_describe_version (some out) = some (trim_space out)

-- `init` of version.go: the value of `Version` after it.
unfoldable pub init_version : Bytes → Option Bytes → Bytes
unfolding or_else git_describe_version
init_version version described =
    if version == codes "dev"
    then elim (git_describe_version described) [ none ↦ version | some desc ↦ or_else desc version ]
    else version

-- What `printVersion` prints.
unfoldable pub print_version : Bytes → Bytes → Bytes
print_version version build_time =
    codes "hermit-dock " ++ (version ++ (codes " (built " ++ (build_time ++ codes ")\n")))

-- Whether `main` prints the version and exits: os.Args.
unfoldable pub asks_version : List Bytes → Bool
asks_version (program ∷ arg ∷ args) =
    arg == codes "--version" || arg == codes "-version" || arg == codes "version"
asks_version _ = false
