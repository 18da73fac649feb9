-- ===== src/Gateway/Answer.antt =====
-- gateway.go: `writeHTTPResponse`, and what `routeToShore` does at the end of its wait.
use dock.Base.{
  ◌⊎◌, lookup, length, ltb, ℕ, ◌≡◌, ◌≢◌, ◌≤◌, refl, sym, ap, ◌∙◌, false, ◌||◌, List, [], ◌∷◌, ◌++◌,
  Option, none, some, arith, Bytes, Bytes_eq, codes, ◌==◌, inl, inr, bytes_eq_iff, append-nil,
  nat_eq, if◌then◌else◌, Bool-cases, Option-cases,
}
use dock.Base.Hex.{AreBytes}
use dock.Base.Base64.{base64_encode, base64_decode, base64_decode-encode}
use dock.Protocol.{Headers, HttpResponseMessage}
use dock.Shore.{cancel_pending_request}
use dock.Registry.{ShoreRegistry, modify}
use dock.Http.Writer.{
  Writer, Cookie, set_header, write_header, write_status, first_status, write, declared,
  parse_length, write_body, http_error, canonical_key,
}
use dock.Gateway.Route.{Ended, answered, closed, timed_out, done}

-- The loop over the headers, in the order in which the map is visited
unfoldable pub set_headers : Writer → Headers → Writer
set_headers w [] = w
set_headers w ((k, v) ∷ h) = set_headers (set_header w (canonical_key k) v) h

write_decoded : Writer → HttpResponseMessage → Writer
write_decoded w resp = if resp.body == [] then w else elim (base64_decode resp.body) [
  | none ↦ write_body w resp.status resp.body
  | some decoded ↦ write_body w resp.status decoded
]

-- `writeHTTPResponse`: none for a panic.
unfoldable pub write_http_response : Writer → HttpResponseMessage → Option Writer
unfolding write_decoded
write_http_response w resp = elim (write_status (set_headers w resp.headers) resp.status) [
  | none ↦ none
  | some w' ↦ some (write_decoded w' resp)
]

-- The cases of the `select`, for the Shore behind `ref` and the request `id`
unfoldable pub route_end :
    ShoreRegistry → ℕ → Bytes → Writer → Ended → ShoreRegistry × Option Writer
route_end r ref id w (answered resp) = (r, write_http_response w resp)
route_end r ref id w closed = (r, some (http_error w (codes "Shore disconnected") 502))
route_end r ref id w timed_out = (
  record r { heap = modify ref (λ s. cancel_pending_request s id) r.heap },
  some (http_error w (codes "Request timeout") 504),
)
route_end r ref id w done = (r, some (http_error w (codes "Shore disconnected") 502))

set_headers-sent : (w : Writer) (h : Headers) → (set_headers w h).sent ≡ w.sent
unfolding set_headers set_header
set_headers-sent w [] = refl
set_headers-sent w ((k, v) ∷ h) = set_headers-sent (set_header w (canonical_key k) v) h

set_headers-body : (w : Writer) (h : Headers) → (set_headers w h).body ≡ w.body
unfolding set_headers set_header
set_headers-body w [] = refl
set_headers-body w ((k, v) ∷ h) = set_headers-body (set_header w (canonical_key k) v) h

write_status-final :
    (w : Writer) (code : ℕ)
    → 200 ≤ code
    → code ≤ 999
    → write_status w code ≡ some (write_header w code)
unfolding write_status first_status write_header
write_status-final w code lo hi = elim (Option-cases w.sent) [
  | inl e ↦ ground arith
  | inr (_, e) ↦ ground arith
]

write_header-first :
    (w : Writer) (code : ℕ)
    → w.sent ≡ none
    → write_header w code ≡ record w { sent = some (code, w.header, w.cookies) }
unfolding write_header
write_header-first w code h = rw h

-- The body is not longer than the length that goes with it, if there is one.
abbrev pub Fits : Headers → Bytes → Type 0
Fits header raw =
    (v : Bytes) (n : ℕ)
    → lookup (codes "Content-Length") header ≡ some v
    → parse_length v ≡ some n
    → length raw ≤ n

declared_cases :
    (w : Writer) (code : ℕ) (b : Bytes) (header : Headers) (cookies : List Cookie)
    → w.sent ≡ some (code, header, cookies)
    → Fits header b
    → (declared w ≡ none) ⊎ ((n : ℕ) × (declared w ≡ some n) × (length b ≤ n))
unfolding declared
declared_cases w code b header cookies h fits =
    elim (Option-cases (lookup (codes "Content-Length") header)) [
      | inl e ↦ inl (rw (declared, h, e) refl)
      | inr (v, e) ↦ elim (Option-cases (parse_length v)) [
        | inl p ↦ inl (rw (declared, h, e) p)
        | inr (n, p) ↦ inr (n, rw (declared, h, e) p, fits v n e p)
      ]
    ]

write-sent :
    (w : Writer) (b : Bytes) (sent : ℕ × Headers × List Cookie)
    → w.sent ≡ some sent
    → write w b ≡ record w { body = w.body ++ b }
unfolding write write_header
write-sent w b sent h = ground arith

write_body-allowed :
    (w : Writer) (code : ℕ) (b : Bytes) (header : Headers) (cookies : List Cookie)
    → 200 ≤ code
    → code ≢ 204
    → code ≢ 304
    → w.sent ≡ some (code, header, cookies)
    → Fits header b
    → write_body w code b ≡ record w { body = w.body ++ b }
unfolding write_body
write_body-allowed w code b header cookies lo n204 n304 h fits =
    let skip : (nat_eq code 101 || nat_eq code 204 || nat_eq code 304) ≡ false = ground arith in
    elim (declared_cases w code b header cookies h fits) [
      | inl e ↦ rw (write_body, skip, e) (write-sent w b (code, header, cookies) h)
      | inr (n, e, room) ↦
          let short : ltb n (length b) ≡ false = ground arith in
          rw (write_body, skip, e, short) (write-sent w b (code, header, cookies) h)
    ]

base64_encode-nil : (raw : Bytes) → base64_encode raw ≡ [] → raw ≡ []
unfolding base64_encode
base64_encode-nil [] e = refl
base64_encode-nil (a ∷ []) e = cc
base64_encode-nil (a ∷ b ∷ []) e = cc
base64_encode-nil (a ∷ b ∷ c ∷ s) e = cc

write_decoded-encoded :
    (w : Writer) (resp : HttpResponseMessage) (raw : Bytes) (header : Headers)
    (cookies : List Cookie)
    → 200 ≤ resp.status
    → resp.status ≢ 204
    → resp.status ≢ 304
    → AreBytes raw
    → resp.body ≡ base64_encode raw
    → w.sent ≡ some (resp.status, header, cookies)
    → Fits header raw
    → write_decoded w resp ≡ record w { body = w.body ++ raw }
unfolding write_decoded
write_decoded-encoded w resp raw header cookies lo n204 n304 bytes encoded h fits =
    elim (Bool-cases (resp.body == [])) [
      | inl t ↦
          let blank = (bytes_eq_iff resp.body []).0 t in
          rw (t, base64_encode-nil raw (sym encoded ∙ blank), append-nil w.body)
      | inr f ↦ rw (
        f,
        ap base64_decode encoded ∙ base64_decode-encode raw bytes,
        write_body-allowed w resp.status raw header cookies lo n204 n304 h fits,
      )
    ]

write_http_response-status :
    (w : Writer) (resp : HttpResponseMessage) (w' : Writer)
    → write_status (set_headers w resp.headers) resp.status ≡ some w'
    → write_http_response w resp ≡ some (write_decoded w' resp)
unfolding write_http_response
write_http_response-status w resp w' h = rw (write_http_response, h)

-- An answer with a final status and a body in base64 is written to the browser as the bytes that the
-- Shore encoded, behind that status, unless the status is one that has no body, the headers of the answer
-- declare a length that is smaller, or the request is a HEAD.
pub write_http_response-encoded :
    (w : Writer) (resp : HttpResponseMessage) (raw : Bytes)
    → w.sent ≡ none
    → w.body ≡ []
    → 200 ≤ resp.status
    → resp.status ≤ 999
    → resp.status ≢ 204
    → resp.status ≢ 304
    → AreBytes raw
    → resp.body ≡ base64_encode raw
    → Fits (set_headers w resp.headers).header raw
    → (w' : Writer) × (write_http_response w resp ≡ some w')
      × (w'.body ≡ raw)
      × (w'.sent
          ≡ some (
            resp.status,
            (set_headers w resp.headers).header,
            (set_headers w resp.headers).cookies,
          ))
write_http_response-encoded w resp raw fresh blank lo hi n204 n304 bytes encoded fits =
    let w1 = set_headers w resp.headers in
    let unsent = set_headers-sent w resp.headers ∙ fresh in
    let sent : ℕ × Headers × List Cookie = (resp.status, w1.header, w1.cookies) in
    let w2 : Writer = record w1 { sent = some sent } in
    (
      record w2 { body = w1.body ++ raw },
      write_http_response-status w resp w2 (
            write_status-final w1 resp.status lo hi
            ∙ ap some (write_header-first w1 resp.status unsent))
          ∙ ap some (
              write_decoded-encoded w2 resp raw w1.header w1.cookies lo n204 n304 bytes encoded refl
                fits),
      ap (λ b. b ++ raw) (set_headers-body w resp.headers ∙ blank),
      refl,
    )
