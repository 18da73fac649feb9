-- ===== src/Session/Token.antt =====
-- Which tokens `extractSessionUser` accepts.
use dock.Base.{
  ℕ, ◌-◌, ◌*◌, ◌^◌, ◌<◌, ◌≤◌, ◌≡◌, ◌≢◌, ◌↔◌, ap, ◌∙◌, inl, inr, [], ◌∷◌, ◌++◌, none, some, arith,
  Bytes, Without, cut_last-append, cut_last_sound, cut_last, cut_last-Without, Bytes_eq,
  bytes_eq_iff, beq_refl, Option-cases,
}
use dock.Base.Decimal.{format, scan_int, scan_int-format, format-Without}
use dock.Base.Hex.{AreBytes, hex_encode, hex_encode-Without, hex_encode_inj}
use dock.Session.{
  second, max_duration, unix_epoch, since, signed, create_session_token, payload_user,
  extract_session_user,
}

module _ (hmac : Bytes → Bytes → Bytes) where
  -- A correctly signed text passes on to its payload.
  extract-signed :
      (secret payload : Bytes) (max_age now : ℕ)
      → extract_session_user hmac (signed hmac secret payload) secret max_age now
        ≡ payload_user hmac payload max_age now
  unfolding extract_session_user signed
  extract-signed secret payload max_age now = ground (
    arith,
    cut_last-append b'.' payload (hex_encode (hmac secret payload))
        (hex_encode-Without b'.' (hmac secret payload) (omega arith)),
    beq_refl (hex_encode (hmac secret payload)),
  )

  payload_user-fresh :
      (u t : Bytes) (max_age now : ℕ)
      → Without b':' t
      → u ≢ []
      → since now (scan_int t) ≤ max_age
      → payload_user hmac (u ++ b':' ∷ t) max_age now ≡ some u
  unfolding payload_user
  payload_user-fresh u t max_age now w ne h =
      ground (arith, cut_last-append b':' u t w, bytes_eq_iff u [])

  payload_user_sound :
      (payload u : Bytes) (max_age now : ℕ)
      → payload_user hmac payload max_age now ≡ some u
      → (t : Bytes) × Without b':' t
        × (payload ≡ u ++ b':' ∷ t)
        × (since now (scan_int t) ≤ max_age)
        × (u ≢ [])
  unfolding payload_user
  payload_user_sound payload u max_age now h = elim (Option-cases (cut_last b':' payload)) [
    | inl e ↦ ground arith
    | inr ((v, t), e) ↦
        let found : payload ≡ v ++ b':' ∷ t = cut_last_sound b':' payload v t e in
        let plain : Without b':' t = cut_last-Without b':' payload v t e in
        let same : v ≡ u = ground arith in
        (t, plain, rw (← same) found, ground arith, ground (arith, bytes_eq_iff v []))
  ]

  extract_sound :
      (token secret u : Bytes) (max_age now : ℕ)
      → extract_session_user hmac token secret max_age now ≡ some u
      → (payload : Bytes) × (token ≡ signed hmac secret payload)
        × (payload_user hmac payload max_age now ≡ some u)
  unfolding extract_session_user signed
  extract_sound token secret u max_age now h = elim (Option-cases (cut_last b'.' token)) [
    | inl e ↦ ground arith
    | inr ((payload, sig), e) ↦
        let found : token ≡ payload ++ b'.' ∷ sig = cut_last_sound b'.' token payload sig e in
        let good : sig ≡ hex_encode (hmac secret payload) =
          ground (arith, bytes_eq_iff sig (hex_encode (hmac secret payload))) in
        (payload, rw (← good) found, ground arith)
  ]

  -- What a token for `u` looks like, and when it is still good.
  abbrev pub IsTokenFor : Bytes → Bytes → Bytes → ℕ → ℕ → Type 0
  IsTokenFor u token secret max_age now =
      (t : Bytes) × Without b':' t
      × (token ≡ signed hmac secret (u ++ b':' ∷ t))
      × (since now (scan_int t) ≤ max_age)
      × (u ≢ [])

  -- A token is accepted for user `u` exactly when it is a payload `u:t` with the secret's MAC on it,
  -- `t` has no colon, the time that `t` stands for is not more than the maximal age ago, and `u` is
  -- not empty.
  pub extract_session_user-eq-some_iff :
      (token secret u : Bytes) (max_age now : ℕ)
      → (extract_session_user hmac token secret max_age now ≡ some u)
        ↔ IsTokenFor u token secret max_age now
  extract_session_user-eq-some_iff token secret u max_age now = (to, from)
    where
      to :
          extract_session_user hmac token secret max_age now ≡ some u
          → IsTokenFor u token secret max_age now
      to h =
          let (payload, is_signed, accepted) = extract_sound token secret u max_age now h in
          let (t, plain, is_payload, young, named) =
            payload_user_sound payload u max_age now accepted in
          (t, plain, is_signed ∙ ap (signed hmac secret) is_payload, young, named)

      from :
          IsTokenFor u token secret max_age now
          → extract_session_user hmac token secret max_age now ≡ some u
      from (t, plain, is_signed, young, named) = rw is_signed (
          extract-signed secret _ max_age now
          ∙ payload_user-fresh u t max_age now plain named young)

  -- A token made for a user name that is not empty, at a time that fits, is accepted for that user
  -- under the same secret as long as it is not older than the maximal age, whatever the name holds.
  pub extract-create :
      (u secret : Bytes) (ts max_age now : ℕ)
      → u ≢ []
      → ts < 2 ^ 63 - unix_epoch
      → now - ts * second ≤ max_age
      → extract_session_user hmac (create_session_token hmac u secret ts) secret max_age now
        ≡ some u
  unfolding create_session_token since
  extract-create u secret ts max_age now ne fits young =
      extract-signed secret _ max_age now
      ∙ payload_user-fresh u (format ts) max_age now (format-Without b':' ts (omega arith)) ne
          (rw (scan_int-format ts (omega arith)) (ground arith))

  -- The same token is refused once it is older than the maximal age, if that is below 292 years.
  pub extract-create_expired :
      (u secret : Bytes) (ts max_age now : ℕ)
      → ts < 2 ^ 63 - unix_epoch
      → max_age < max_duration
      → max_age < now - ts * second
      → extract_session_user hmac (create_session_token hmac u secret ts) secret max_age now ≡ none
  unfolding create_session_token payload_user since
  extract-create_expired u secret ts max_age now fits bound old =
      extract-signed secret _ max_age now
      ∙ ground (
        arith,
        cut_last-append b':' u (format ts) (format-Without b':' ts (omega arith)),
        scan_int-format ts (omega arith),
      )

  -- A token that was made under one secret is refused under another, unless the two secrets give its
  -- payload the same MAC.
  pub extract-create_other :
      (u secret other : Bytes) (ts max_age now : ℕ)
      → AreBytes (hmac secret (u ++ b':' ∷ format ts))
      → AreBytes (hmac other (u ++ b':' ∷ format ts))
      → hmac secret (u ++ b':' ∷ format ts) ≢ hmac other (u ++ b':' ∷ format ts)
      → extract_session_user hmac (create_session_token hmac u secret ts) other max_age now ≡ none
  unfolding create_session_token signed extract_session_user
  extract-create_other u secret other ts max_age now b1 b2 ne =
      let payload : Bytes = u ++ b':' ∷ format ts in
      let differ : hex_encode (hmac secret payload) ≢ hex_encode (hmac other payload) =
        λ e. ne (hex_encode_inj _ _ b1 b2 e) in
      ground (
        arith,
        cut_last-append b'.' payload (hex_encode (hmac secret payload))
            (hex_encode-Without b'.' (hmac secret payload) (omega arith)),
        bytes_eq_iff (hex_encode (hmac secret payload)) (hex_encode (hmac other payload)),
      )
