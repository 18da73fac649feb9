-- ===== src/Gateway/Routed.antt =====
-- What `routeToShore` sends, and where it cannot.
use dock.Base.{
  ℕ, ◌≡◌, ◌≢◌, ◌⊎◌, refl, sym, ap, ◌∙◌, inl, inr, Bool, true, false, List, [], ◌∷◌, ◌++◌, Option,
  none, some, arith, Bytes, Bytes_eq, codes, length, lookup, get_elem?, set, take, insert, ◌==◌,
  if◌then◌else◌, Bool-cases, beq_ne, beq_refl,
}
use dock.Base.Hex.{AreBytes}
use dock.Base.Base64.{base64_encode, base64_decode, base64_decode-encode}
use dock.Protocol.{HttpResponseMessage, http_request}
use dock.Shore.{ShoreConnection, send_http_request, deliver_response}
use dock.Shore.Requests.{send-deliver}
use dock.Registry.{ShoreRegistry}
use dock.Http.{Request, header_get}
use dock.Http.Writer.{Writer, http_error}
use dock.Gateway.{resolve_shore}
use dock.Gateway.Route.{
  Handed, logged, replied, waits, is_flusher, pin, body_str, max_body_size, request_message, put,
  start_stream, after_request, route_to_shore,
}

module _ (r : ShoreRegistry) (req : Request) (id : Bytes) (w : Writer) (ref : ℕ)
    (s : ShoreConnection) (strip : Bytes) where
  -- Behind the logging middleware, the writer cannot be flushed, so a request for an event stream never
  -- reaches the Shore that it is for: it is answered with the status 500, and nothing is sent.
  pub route-stream_refused :
      (sent : Bool)
      → resolve_shore r req ≡ some (ref, s, strip)
      → header_get req (codes "Accept") ≡ codes "text/event-stream"
      → route_to_shore logged r req id sent w ≡ (
        r,
        replied (http_error (pin w strip) (codes "Streaming not supported by this server") 500),
      )
  unfolding route_to_shore start_stream is_flusher dock.Base.bytes_eq
  route-stream_refused sent there stream = rw (route_to_shore, there, stream)

  -- A request that is not for an event stream goes to its Shore, if the socket takes the message,
  -- where it stands last in what was written. The handler waits on a new channel, and the first
  -- answer with the request's id that the Shore gives is put into that channel.
  pub route-answered :
      (kind : Handed) (resp : HttpResponseMessage)
      → resolve_shore r req ≡ some (ref, s, strip)
      → header_get req (codes "Accept") ≢ codes "text/event-stream"
      → s.hung_up ≡ false
      → resp.id ≡ id
      → (s' t : ShoreConnection) × (route_to_shore kind r req id true w
          ≡ (put r ref s', waits ref (length s.replies) (pin w strip)))
        × (s'.outbox ≡ s.outbox ++ http_request (request_message req id strip) ∷ [])
        × (deliver_response s' resp ≡ some t)
        × (get_elem? t.replies (length s.replies)
            ≡ some (record { buffer = resp ∷ []; cap = 1; closed = false }))
  unfolding route_to_shore after_request request_message
  route-answered kind resp there other up same =
      let msg = request_message req id strip in
      let (chan, outbox, (t, delivered, kept, _)) = send-deliver s msg resp resp up same same in
      let s' = (send_http_request s msg true).0 in
      let both : send_http_request s msg true ≡ (s', some (length s.replies)) =
        ap (λ (c : Option ℕ). (s', c)) chan in
      (
        s',
        t,
        rw (
          route_to_shore,
          there,
          beq_ne (header_get req (codes "Accept")) (codes "text/event-stream") other,
          both,
        ),
        outbox,
        delivered,
        kept,
      )

-- The Shore can decode the body: it gets what the client sent, up to the first 10 MB.
pub body_str-decodes :
    (raw : Bytes)
    → AreBytes (take max_body_size raw)
    → take max_body_size raw ≢ []
    → (text : Bytes) × (body_str (some (some raw)) ≡ some text)
      × (base64_decode text ≡ some (take max_body_size raw))
unfolding body_str
body_str-decodes raw bytes ne = (
  base64_encode (take max_body_size raw),
  rw (beq_ne (take max_body_size raw) [] ne),
  base64_decode-encode (take max_body_size raw) bytes,
)
