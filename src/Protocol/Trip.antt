-- ===== src/Protocol/Trip.antt =====
-- What is encoded by the tags is decoded by them.
use dock.Base.{
  All, map, ℕ, ◌≡◌, refl, ap, ◌∙◌, ◌<◌, ◌^◌, false, List, [], ◌∷◌, Option, none, some, arith, Bytes,
  Bytes_eq, lookup, IsMap, bytes_eq,
}
use dock.Base.Decimal.{Int64}
use dock.Json.{integer, obj, ◌>>=◌, scan_fields, read_string, read_int, read_map, map_json}
use dock.Json.Scan.{read_strings-json, read_map-json}
use dock.Protocol.{
  RegisterMessage, HttpResponseMessage, StreamFrameMessage, StreamEndMessage, Headers,
}
use dock.Protocol.Codec.{
  status_of, coerced, encode_register, decode_register, encode_http_response, decode_http_response,
  encode_stream_frame, decode_stream_frame, encode_stream_end, decode_stream_end,
}

-- The end of `decode_register`, once `services` is read.
abbrev finish : Bytes → Bytes → Bytes → Bytes → Option (List Bytes) → Option RegisterMessage
finish t n o v read =
    let services : Option (List Bytes) = elim read [ none ↦ none | some l ↦ some l ] in
    services >>= λ l. some (record { msg_type = t; name = n; owner = o; services = l; version = v })

abbrev respond : Bytes → Bytes → Bytes → Option Int64 → Option Headers → Option HttpResponseMessage
respond t id body read_status read_headers =
    let status : Option Int64 = elim read_status [ none ↦ none | some n ↦ some n ] in
    let headers : Option Headers = elim read_headers [ none ↦ none | some h ↦ some h ] in
    status >>= λ n. headers >>= λ h.
    some (record { msg_type = t; id = id; status = status_of n; headers = h; body = body })

module _ (utf8 : Bytes → Bytes) where
  -- A string that is valid UTF-8 comes through json.Marshal as it is.
  abbrev pub IsText : Bytes → Type 0
  IsText s = utf8 s ≡ s

  abbrev pub AreTexts : List Bytes → Type 0
  AreTexts = All IsText

  abbrev pub HasTexts : Headers → Type 0
  HasTexts = All (λ b. IsText b.0 × IsText b.1)

  map-AreTexts : (l : List Bytes) → AreTexts l → map utf8 l ≡ l
  map-AreTexts [] t = refl
  map-AreTexts (s ∷ l) (t, ts) = rw (t, map-AreTexts l ts) refl

  coerced-HasTexts : (h : Headers) → HasTexts h → coerced utf8 h ≡ h
  unfolding coerced
  coerced-HasTexts [] t = refl
  coerced-HasTexts ((k, v) ∷ h) ((tk, tv), ts) = rw (tk, tv, coerced-HasTexts h ts) refl

  register_trip :
      (msg_type name owner : Bytes) (services : List Bytes) (version : Bytes)
      → IsText msg_type
      → IsText name
      → IsText owner
      → AreTexts services
      → IsText version
      → let m : RegisterMessage = record {
        msg_type = msg_type;
        name = name;
        owner = owner;
        services = services;
        version = version;
      } in
        decode_register (encode_register utf8 m) ≡ some m
  unfolding decode_register encode_register scan_fields bytes_eq read_string
  register_trip t n [] l [] vt vn vo vl vv =
      rw (vt, vn, map-AreTexts l vl) (ap (finish t n [] []) (read_strings-json [] l))
  register_trip t n [] l (c ∷ v) vt vn vo vl vv =
      rw (vt, vn, map-AreTexts l vl, vv) (ap (finish t n [] (c ∷ v)) (read_strings-json [] l))
  register_trip t n (b ∷ o) l [] vt vn vo vl vv =
      rw (vt, vn, map-AreTexts l vl, vo) (ap (finish t n (b ∷ o) []) (read_strings-json [] l))
  register_trip t n (b ∷ o) l (c ∷ v) vt vn vo vl vv =
      rw (vt, vn, map-AreTexts l vl, vo, vv)
        (ap (finish t n (b ∷ o) (c ∷ v)) (read_strings-json [] l))

  -- A message to register comes back whole, with or without an owner and a version, if its strings are
  -- valid UTF-8.
  pub decode-encode_register :
      (m : RegisterMessage)
      → IsText m.msg_type
      → IsText m.name
      → IsText m.owner
      → AreTexts m.services
      → IsText m.version
      → decode_register (encode_register utf8 m) ≡ some m
  decode-encode_register m = register_trip m.msg_type m.name m.owner m.services m.version

  pub decode-encode_stream_frame :
      (m : StreamFrameMessage)
      → IsText m.msg_type
      → IsText m.id
      → IsText m.text
      → decode_stream_frame (encode_stream_frame utf8 m) ≡ some m
  unfolding decode_stream_frame encode_stream_frame scan_fields bytes_eq read_string
  decode-encode_stream_frame m vt vi vx = rw (vt, vi, vx) refl

  pub decode-encode_stream_end :
      (m : StreamEndMessage)
      → IsText m.msg_type
      → IsText m.id
      → decode_stream_end (encode_stream_end utf8 m) ≡ some m
  unfolding decode_stream_end encode_stream_end scan_fields bytes_eq read_string
  decode-encode_stream_end m vt vi = rw (vt, vi) refl

read_int-json : (n : ℕ) → n < 2 ^ 63 → read_int (false, 0) (integer false n) ≡ some (false, n)
unfolding read_int
read_int-json n small = ground arith

-- A response comes back with the same headers, if its status is an int and its strings are valid UTF-8.
pub decode-encode_http_response :
    (utf8 : Bytes → Bytes) (m : HttpResponseMessage)
    → IsText utf8 m.msg_type
    → IsText utf8 m.id
    → IsText utf8 m.body
    → HasTexts utf8 m.headers
    → IsMap m.headers
    → m.status < 2 ^ 63
    → (h : Headers) × (decode_http_response (encode_http_response utf8 m)
        ≡ some (record m { headers = h }))
      × ((k : Bytes) → lookup k h ≡ lookup k m.headers)
unfolding decode_http_response encode_http_response scan_fields bytes_eq read_string
decode-encode_http_response utf8 m vt vi vb vh w small =
    let (h, back, same) = read_map-json m.headers w in
    let status : read_int (false, 0) (integer false m.status) ≡ some (false, m.status) =
      read_int-json m.status small in
    (
      h,
      rw (vt, vi, vb, coerced-HasTexts utf8 m.headers vh)
          (ap (λ n. respond m.msg_type m.id m.body n (read_map [] (obj (map_json m.headers))))
              status
            ∙ ap (λ o. respond m.msg_type m.id m.body (some (false, m.status)) o) back),
      same,
    )
