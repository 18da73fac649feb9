-- ===== src/Logging.antt =====
-- main.go: `statusResponseWriter` and `loggingMiddleware`.
pub mod Transparent
pub mod Informational
mod Tests
use dock.Base.{ℕ, Bool, true, false, List, [], ◌∷◌, Option, none, some, Bytes, codes, if◌then◌else◌}
use dock.Http.{Request, header_get, extract_client_ip}
use dock.Http.Methods.{plain, logged, is_flusher, is_hijacker}
use dock.Http.Writer.{Writer, Cookie, set_header, set_cookie, write_status, write}

-- `statusResponseWriter` around a writer
pub record StatusResponseWriter : Type 0 where
  pub response_writer : Writer
  pub status_code : ℕ
  pub written : Bool

-- Its fields before the call of the writer below: the first code is kept.
unfoldable pub note_code : StatusResponseWriter → ℕ → StatusResponseWriter
note_code sw code = if sw.written then sw else record sw { status_code = code; written = true }

below : StatusResponseWriter → Option Writer → Option StatusResponseWriter
below sw none = none
below sw (some w) = some (record sw { response_writer = w })

-- `WriteHeader`: none for a panic.
unfoldable pub logged_write_header : StatusResponseWriter → ℕ → Option StatusResponseWriter
unfolding note_code below
logged_write_header sw code =
    let sw' = note_code sw code in below sw' (write_status sw'.response_writer code)

-- `Write`
unfoldable pub logged_write : StatusResponseWriter → Bytes → StatusResponseWriter
unfolding note_code
logged_write sw b =
    let sw' = note_code sw 200 in record sw' { response_writer = write sw'.response_writer b }

-- What a handler does to the writer that it is given.
pub data Call : Type 0 where
  sets_header : Bytes → Bytes → Call
  sets_cookie : Cookie → Call
  writes_header : ℕ → Call
  writes : Bytes → Call

-- A call on net/http's own writer, and on the one around it, whose Header is the same.
unfoldable pub call : Writer → Call → Option Writer
call w (sets_header k v) = some (set_header w k v)
call w (sets_cookie c) = some (set_cookie w c)
call w (writes_header code) = write_status w code
call w (writes b) = some (write w b)

unfoldable pub logged_call : StatusResponseWriter → Call → Option StatusResponseWriter
logged_call sw (sets_header k v) =
    some (record sw { response_writer = set_header sw.response_writer k v })
logged_call sw (sets_cookie c) =
    some (record sw { response_writer = set_cookie sw.response_writer c })
logged_call sw (writes_header code) = logged_write_header sw code
logged_call sw (writes b) = some (logged_write sw b)

-- What a handler does: after a call on the writer it goes on, and what it does after it has asked
-- whether the writer is a Flusher depends on the answer. Once it has taken the connection over, by
-- `Hijack`, the writer is done with; where that fails it goes on.
pub data Handler : Type 0 where
  returns : Handler
  does : Call → Handler → Handler
  asks_flusher : Handler → Handler → Handler
  hijacks : Handler → Handler

-- The handler on net/http's own writer: none for a panic, and whether it has taken the connection over.
unfoldable pub handle : Writer → Handler → Option (Writer × Bool)
handle w returns = some (w, false)
handle w (does c h) = elim (call w c) [ none ↦ none | some w' ↦ handle w' h ]
handle w (asks_flusher granted denied) =
    let on = handle w granted in let off = handle w denied in if is_flusher plain then on else off
handle w (hijacks failed) =
    let rest = handle w failed in if is_hijacker plain then some (w, true) else rest

-- And on the one around it, whose `Hijack` hands on to the writer below if that has one.
unfoldable pub logged_handle : StatusResponseWriter → Handler → Option (StatusResponseWriter × Bool)
logged_handle sw returns = some (sw, false)
logged_handle sw (does c h) = elim (logged_call sw c) [
  | none ↦ none
  | some sw' ↦ logged_handle sw' h
]
logged_handle sw (asks_flusher granted denied) =
    let on = logged_handle sw granted in
    let off = logged_handle sw denied in if is_flusher logged then on else off
logged_handle sw (hijacks failed) =
    let rest = logged_handle sw failed in
    if is_hijacker logged then (if is_hijacker plain then some (sw, true) else rest) else rest

-- The writer that `loggingMiddleware` hands on
unfoldable pub new_status_response_writer : Writer → StatusResponseWriter
new_status_response_writer w = record { response_writer = w; status_code = 200; written = false }

-- What the line in the log says, but for its times.
pub record Audit : Type 0 where
  pub method : Bytes
  pub path : Bytes
  pub src : Bytes
  pub xff : Bytes
  pub ua : Bytes
  pub status : ℕ

audit : Request → Option (StatusResponseWriter × Bool) → Option (Writer × Bool × Audit)
audit r none = none
audit r (some (sw, taken)) = some (
  sw.response_writer,
  taken,
  record {
    method = r.method;
    path = r.path;
    src = extract_client_ip r.remote_addr;
    xff = header_get r (codes "X-Forwarded-For");
    ua = header_get r (codes "User-Agent");
    status = sw.status_code;
  },
)

-- `loggingMiddleware` around a handler: none for a panic of the handler, which leaves no line.
unfoldable pub logging_middleware : Request → Writer → Handler → Option (Writer × Bool × Audit)
unfolding audit
logging_middleware r w h = audit r (logged_handle (new_status_response_writer w) h)
