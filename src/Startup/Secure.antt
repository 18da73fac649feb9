-- ===== src/Startup/Secure.antt =====
-- Cookies and the OAuth callback agree on whether Dock is served over HTTPS.
use dock.Base.{
  ◌≡◌, refl, inl, inr, Bool, true, false, ◌||◌, [], ◌++◌, some, arith, Bytes, Bytes_eq, codes,
  has_prefix, strip_prefix?, ◌==◌, Bool-cases,
}
use dock.Startup.{Env, or_else, port, url_for, secure_cookies, callback_url}

url_for-https :
    (secure : Bool) (host : Bytes) → has_prefix (url_for secure host) (codes "https://") ≡ secure
unfolding url_for has_prefix strip_prefix?
url_for-https true host = refl
url_for-https false host = refl

-- The URL that the OAuth provider sends a browser back to has the scheme https exactly where the
-- session cookie is marked Secure, so that the browser sends back over that URL the cookie it is given
-- there.
pub callback_url-secure :
    (env : Env) (url : Bytes)
    → callback_url env ≡ some url
    → has_prefix url (codes "https://") ≡ secure_cookies env
unfolding callback_url
callback_url-secure env url h =
    let host = or_else (env (codes "DOCK_HOST")) (codes "localhost:" ++ port env) in
    elim (Bool-cases
      (env (codes "GOTH_GITHUB_KEY") == [] || env (codes "GOTH_GITHUB_SECRET") == [])) [
        | inl t ↦ ground arith
        | inr f ↦ ground (arith, f, url_for-https (secure_cookies env) host)
      ]
