-- ===== src/Session/Secret.antt =====
-- What secret `loadSessionSecret` makes of each form of DOCK_SESSION_SECRET.
use dock.Base.{
  ℕ, zero, suc, ◌-◌, ◌*◌, ◌^◌, ◌<◌, ◌≤◌, ◌≡◌, ◌≢◌, refl, [], ◌∷◌, ◌++◌, none, some, arith, Bytes,
}
use dock.Base.Hex.{
  AreBytes, hex_encode, hex_decode, hex_value, hex_decode-encode, hex_decode-bad_last,
}
use dock.Base.Base64.{
  base64_encode, base64_decode, base64_decode-encode, base64_encode-padded, left_over, pad, sextet,
}
use dock.Session.{
  second, unix_epoch, load_session_secret, create_session_token, extract_session_user,
}
use dock.Session.Token.{extract-create}

load-as-hex :
    (raw key generated : Bytes)
    → raw ≢ []
    → hex_decode raw ≡ some key
    → load_session_secret raw generated ≡ key
unfolding load_session_secret
load-as-hex [] key generated ne h = absurd (ne refl)
load-as-hex (c ∷ raw) key generated ne h = ground arith

-- A key that is not empty and is given in hexadecimal is read back as the key.
pub load-hex :
    (key generated : Bytes)
    → AreBytes key
    → key ≢ []
    → load_session_secret (hex_encode key) generated ≡ key
unfolding hex_encode
load-hex [] generated h ne = absurd (ne refl)
load-hex (b ∷ key) generated h ne =
    load-as-hex _ (b ∷ key) generated (λ e. cc) (hex_decode-encode (b ∷ key) h)

load-decoded :
    (raw key generated : Bytes)
    → raw ≢ []
    → hex_decode raw ≡ none
    → base64_decode raw ≡ some key
    → load_session_secret raw generated ≡ key
unfolding load_session_secret
load-decoded [] key generated ne h b = absurd (ne refl)
load-decoded (c ∷ raw) key generated ne h b = ground arith

append-ne-nil : (t : Bytes) → t ++ pad ∷ [] ≢ []
append-ne-nil [] = λ e. cc
append-ne-nil (x ∷ t) = λ e. cc

not-hex-pad : (t : Bytes) → hex_decode (t ++ pad ∷ []) ≡ none
unfolding hex_value
not-hex-pad t = hex_decode-bad_last pad t refl

-- A key whose length is no multiple of three, as 32 is not, and that is given in base64 is read back
-- as the key.
pub load-base64 :
    (key generated : Bytes)
    → AreBytes key
    → left_over key ≢ 0
    → load_session_secret (base64_encode key) generated ≡ key
load-base64 key generated h rest =
    let (t, e) = base64_encode-padded key rest in
    load-decoded (base64_encode key) key generated (rw e (append-ne-nil t)) (rw e (not-hex-pad t))
      (base64_decode-encode key h)

-- Two starts of the process with the same value of DOCK_SESSION_SECRET agree, whatever the value: a
-- token that one makes for a user name that is not empty is accepted by the other, as long as it is
-- not older than the maximal age.
pub restart_stable :
    (hmac : Bytes → Bytes → Bytes) (raw first second_draw u : Bytes) (ts max_age now : ℕ)
    → raw ≢ []
    → u ≢ []
    → ts < 2 ^ 63 - unix_epoch
    → now - ts * second ≤ max_age
    → extract_session_user hmac
        (create_session_token hmac u (load_session_secret raw first) ts)
        (load_session_secret raw second_draw)
        max_age
        now
      ≡ some u
unfolding load_session_secret
restart_stable hmac [] first second_draw u ts max_age now set ne fits young = absurd (set refl)
restart_stable hmac (c ∷ raw) first second_draw u ts max_age now set ne fits young =
    extract-create hmac u _ ts max_age now ne fits young

-- The key that repeats the bytes 105, 166, 154: its base64 is all 'a'.
abbrev pub triples : ℕ → Bytes
triples zero = []
triples (suc n) = 105 ∷ 166 ∷ 154 ∷ triples n

abbrev pub pairs_of_aa : ℕ → Bytes
pairs_of_aa zero = []
pairs_of_aa (suc n) = 0xAA ∷ 0xAA ∷ pairs_of_aa n

hex-triples : (n : ℕ) → hex_decode (base64_encode (triples n)) ≡ some (pairs_of_aa n)
unfolding base64_encode hex_decode hex_value sextet
hex-triples zero = refl
hex-triples (suc n) = ground (arith, hex-triples n)

-- A key whose length is a multiple of three may be misread: for each n ≥ 1 there is a key of 3n bytes
-- whose base64 form is taken for hexadecimal and gives 2n other bytes.
pub load-base64_misread :
    (n : ℕ) (generated : Bytes)
    → load_session_secret (base64_encode (triples (suc n))) generated ≡ pairs_of_aa (suc n)
load-base64_misread n generated = load-as-hex _ _ generated (encoded n) (hex-triples (suc n))
  where
    encoded : (n : ℕ) → base64_encode (triples (suc n)) ≢ []
    encoded n = unfold base64_encode in λ e. cc
