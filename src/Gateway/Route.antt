-- ===== src/Gateway/Route.antt =====
-- gateway.go: the handler `routeToShore` up to where it waits for the Shore, and `handleSSERequest` up
-- to its loop.
use dock.Base.{
  ℕ, ◌*◌, Bool, true, [], ◌∷◌, Option, none, some, Bytes, Bytes_eq, codes, set, take, ◌==◌,
  if◌then◌else◌,
}
use dock.Base.Base64.{base64_encode}
use dock.Protocol.{
  HttpRequestMessage, HttpResponseMessage, StreamStartMessage, msg_type_http_request,
  msg_type_stream_start,
}
use dock.Shore.{ShoreConnection, send_http_request, open_stream}
use dock.Registry.{ShoreRegistry}
use dock.Http.{Request, header_get}
pub use dock.Http.Methods.{Handed, plain, logged}
unfoldable pub use dock.Http.Methods.{is_flusher}
use dock.Http.Writer.{Writer, set_header, set_cookie, write_header, http_error}
use dock.Gateway.{active_short_cookie_name, resolve_shore, forward_path, forward_headers}

abbrev pub max_body_size : ℕ
max_body_size = 10 * 1024 * 1024

-- How far `routeToShore` comes: an answer, or the wait on a channel of the Shore behind a pointer.
pub data Started : Type 0 where
  replied : Writer → Started
  waits : ℕ → ℕ → Writer → Started
  streams : ℕ → ℕ → Writer → Started

-- How the wait for a response ends.
pub data Ended : Type 0 where
  answered : HttpResponseMessage → Ended
  closed : Ended
  timed_out : Ended
  done : Ended

-- The cookie that remembers the Shore, when the path has named it
unfoldable pub pin : Writer → Bytes → Writer
pin w strip =
    if strip == []
    then w
    else set_cookie w (record {
      name = active_short_cookie_name;
      value = strip;
      max_age = none;
      http_only = true;
      secure = true;
    })

-- `bodyStr`
unfoldable pub body_str : Option (Option Bytes) → Option Bytes
body_str none = none
body_str (some none) = none
body_str (some (some raw)) =
    let kept = take max_body_size raw in if kept == [] then none else some (base64_encode kept)

unfoldable pub request_message : Request → Bytes → Bytes → HttpRequestMessage
request_message req id strip = record {
  msg_type = msg_type_http_request;
  id = id;
  method = req.method;
  path = forward_path req.path req.raw_query strip;
  headers = forward_headers req;
  body = body_str req.body;
}

unfoldable pub stream_message : Request → Bytes → Bytes → StreamStartMessage
stream_message req id strip = record {
  msg_type = msg_type_stream_start;
  id = id;
  method = req.method;
  path = forward_path req.path req.raw_query strip;
  headers = forward_headers req;
}

-- The Shore behind the pointer, with its new state
abbrev pub put : ShoreRegistry → ℕ → ShoreConnection → ShoreRegistry
put r ref s = record r { heap = set r.heap ref s }

unfoldable pub after_request :
    ShoreRegistry → ℕ → Writer → ShoreConnection × Option ℕ → ShoreRegistry × Started
after_request r ref w (s, none) =
    (put r ref s, replied (http_error w (codes "Failed to send request to Shore") 502))
after_request r ref w (s, some chan) = (put r ref s, waits ref chan w)

unfoldable pub stream_headers : Writer → Writer
stream_headers w =
    write_header
      (set_header
        (set_header
          (set_header (set_header w (codes "Content-Type") (codes "text/event-stream"))
            (codes "Cache-Control") (codes "no-cache"))
          (codes "X-Accel-Buffering") (codes "no"))
        (codes "Connection") (codes "keep-alive"))
      200

unfoldable pub after_stream :
    ShoreRegistry → ℕ → Writer → ShoreConnection × Option ℕ → ShoreRegistry × Started
after_stream r ref w (s, none) =
    (put r ref s, replied (http_error w (codes "Failed to open stream to Shore") 502))
after_stream r ref w (s, some chan) = (put r ref s, streams ref chan (stream_headers w))

-- `handleSSERequest` up to its loop
unfoldable pub start_stream :
    Handed
    → ShoreRegistry
    → ℕ
    → Writer
    → ShoreConnection
    → StreamStartMessage
    → Bool
    → ShoreRegistry × Started
unfolding after_stream
start_stream kind r ref w s msg sent =
    if is_flusher kind
    then after_stream r ref w (open_stream s msg sent)
    else (r, replied (http_error w (codes "Streaming not supported by this server") 500))

no_shore : ShoreRegistry → Bytes
no_shore r = elim r.shores [
  | [] ↦ codes "No Shores connected"
  | ◌∷◌ b m ↦ codes "No Shore available for this path"
]

-- `routeToShore` up to the wait, with the id that `generateID` draws and whether the socket takes the
-- message
unfoldable pub route_to_shore :
    Handed → ShoreRegistry → Request → Bytes → Bool → Writer → ShoreRegistry × Started
unfolding after_request start_stream no_shore
route_to_shore kind r req id sent w = elim (resolve_shore r req) [
  | none ↦ (r, replied (http_error w (no_shore r) 502))
  | some (ref, s, strip) ↦
      if header_get req (codes "Accept") == codes "text/event-stream"
      then start_stream kind r ref (pin w strip) s (stream_message req id strip) sent
      else after_request r ref (pin w strip)
          (send_http_request s (request_message req id strip) sent)
]
