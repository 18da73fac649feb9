-- ===== src/Http/Tests.antt =====
-- Tests of the address helpers.
use dock.Base.{◌≡◌, refl, codes, cut, cut_last, strip_prefix?}
use dock.Http.{extract_client_ip}

client_ip-tests :
    (extract_client_ip (codes "1.2.3.4:80") ≡ codes "1.2.3.4")
    × (extract_client_ip (codes "[::1]:80") ≡ codes "::1")
    × (extract_client_ip (codes "::1") ≡ codes "::1")
    × (extract_client_ip (codes "[::1]80:") ≡ codes "[::1]80:")
unfolding extract_client_ip cut cut_last strip_prefix?
client_ip-tests = (refl, refl, refl, refl)
