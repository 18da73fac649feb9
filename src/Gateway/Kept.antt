-- ===== src/Gateway/Kept.antt =====
-- A request keeps the registry in order.
use dock.Base.{
  ℕ, ◌≡◌, inl, inr, Bool, Option, none, some, Bytes, Bytes_eq, codes, get_elem?, All-get_elem?,
  ◌==◌, Bool-cases, Option-cases,
}
use dock.Protocol.{HttpRequestMessage, StreamStartMessage, http_request, stream_start}
use dock.Shore.{ShoreConnection, open_stream, send_http_request}
use dock.Shore.Kept.{Owned, Kept, open_stream-Kept, send_http_request-Kept}
use dock.Registry.{ShoreRegistry}
use dock.Registry.Channels.{IsFit, IsSound, set-IsSound}
use dock.Shore.Invariant.{IsValid, send_http_request-IsValid, open_stream-IsValid}
use dock.Http.{Request, header_get}
use dock.Http.Writer.{Writer}
use dock.Gateway.{resolve_shore}
use dock.Gateway.Forwarded.{forward_headers-user}
use dock.Gateway.Resolve.{resolve_shore_sound}
use dock.Gateway.Route.{
  Handed, plain, logged, pin, is_flusher, after_request, after_stream, start_stream,
  request_message, stream_message, route_to_shore,
}

pub request_message-Owned :
    (req : Request) (id strip owner : Bytes)
    → owner ≡ req.user
    → Owned owner (http_request (request_message req id strip))
unfolding request_message
request_message-Owned req id strip owner mine = forward_headers-user req owner mine

pub stream_message-Owned :
    (req : Request) (id strip owner : Bytes)
    → owner ≡ req.user
    → Owned owner (stream_start (stream_message req id strip))
unfolding stream_message
stream_message-Owned req id strip owner mine = forward_headers-user req owner mine

module _ (r : ShoreRegistry) (v : IsSound r) (ref : ℕ) (s : ShoreConnection)
    (there : get_elem? r.heap ref ≡ some s) where
  after_request-IsSound :
      (w : Writer) (o : ShoreConnection × Option ℕ)
      → Kept s o.0
      → IsValid o.0
      → IsSound (after_request r ref w o).0
  unfolding after_request
  after_request-IsSound w (s', none) k u = set-IsSound r ref s s' there k u v
  after_request-IsSound w (s', some chan) k u = set-IsSound r ref s s' there k u v

  after_stream-IsSound :
      (w : Writer) (o : ShoreConnection × Option ℕ)
      → Kept s o.0
      → IsValid o.0
      → IsSound (after_stream r ref w o).0
  unfolding after_stream
  after_stream-IsSound w (s', none) k u = set-IsSound r ref s s' there k u v
  after_stream-IsSound w (s', some chan) k u = set-IsSound r ref s s' there k u v

  send-IsSound :
      (w : Writer) (msg : HttpRequestMessage) (sent : Bool)
      → Owned s.owner (http_request msg)
      → IsSound (after_request r ref w (send_http_request s msg sent)).0
  send-IsSound w msg sent own =
      after_request-IsSound w _ (send_http_request-Kept s msg sent own)
        (send_http_request-IsValid s msg sent (All-get_elem? IsFit r.heap ref s there v.fit).linked)

  start_stream-IsSound :
      (kind : Handed) (w : Writer) (msg : StreamStartMessage) (sent : Bool)
      → Owned s.owner (stream_start msg)
      → IsSound (start_stream kind r ref w s msg sent).0
  unfolding start_stream is_flusher
  start_stream-IsSound plain w msg sent own =
      after_stream-IsSound w (open_stream s msg sent) (open_stream-Kept s msg sent own)
        (open_stream-IsValid s msg sent (All-get_elem? IsFit r.heap ref s there v.fit).linked)
  start_stream-IsSound logged w msg sent own = v

pub route_to_shore-IsSound :
    (kind : Handed) (r : ShoreRegistry) (req : Request) (id : Bytes) (sent : Bool) (w : Writer)
    → IsSound r
    → IsSound (route_to_shore kind r req id sent w).0
unfolding route_to_shore
route_to_shore-IsSound kind r req id sent w v = elim (Option-cases (resolve_shore r req)) [
  | inl e ↦ rw (route_to_shore, e) v
  | inr ((ref, s, strip), e) ↦
      let (x, (_, there, mine), _) = resolve_shore_sound r req ref s strip e in
      elim (Bool-cases (header_get req (codes "Accept") == codes "text/event-stream")) [
        | inr f ↦
            rw (route_to_shore, e, f)
              (send-IsSound r v ref s there (pin w strip) (request_message req id strip) sent
                (request_message-Owned req id strip s.owner mine))
        | inl y ↦
            rw (route_to_shore, e, y)
              (start_stream-IsSound r v ref s there kind (pin w strip) (stream_message req id strip)
                sent (stream_message-Owned req id strip s.owner mine))
      ]
]
