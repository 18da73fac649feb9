-- ===== src/Logging/Transparent.antt =====
-- The middleware changes nothing for the client, and what it logs is what the client gets.
use dock.Base.{
  ℕ, ◌≡◌, ◌⊎◌, ◌≤◌, refl, sym, ap, ◌∙◌, inl, inr, Bool, true, false, Option, none, some, arith,
  Bytes, codes, Option-cases, Bool-cases,
}
use mathlib.Core.Option
use dock.Http.{Request, header_get, extract_client_ip}
use dock.Http.Methods.{is_flusher, is_hijacker}
use dock.Http.Writer.{
  Writer, set_header, set_cookie, write_header, write_status, first_status, write,
}
use dock.Logging.{
  StatusResponseWriter, note_code, below, logged_write_header, logged_write, Call, sets_header,
  sets_cookie, writes_header, writes, call, logged_call, Handler, returns, does, asks_flusher,
  hijacks, handle, logged_handle, new_status_response_writer, Audit, audit, logging_middleware,
}

-- The status that the client gets: 200 where the handler has sent none.
abbrev pub client_status : Writer → ℕ
client_status w = elim w.sent [ none ↦ 200 | some (code, _, _) ↦ code ]

-- The status codes are final: none is sent ahead of another.
abbrev pub IsFinal : Call → Type 0
IsFinal (writes_header code) = 200 ≤ code
IsFinal _ = Unit

abbrev has_sent : Writer → Bool
has_sent w = elim w.sent [ none ↦ false | some _ ↦ true ]

-- The code that is noted is the one that the client gets.
abbrev Tracks : StatusResponseWriter → Type 0
Tracks sw =
    (has_sent sw.response_writer ≡ sw.written) × (client_status sw.response_writer ≡ sw.status_code)

note_code-writer :
    (sw : StatusResponseWriter) (code : ℕ)
    → (note_code sw code).response_writer ≡ sw.response_writer
unfolding note_code
note_code-writer sw code = elim (Bool-cases sw.written) [
  | inl t ↦ ground (arith, t)
  | inr f ↦ ground (arith, f)
]

map-below :
    (sw : StatusResponseWriter) (o : Option Writer)
    → Option.map (λ (t : StatusResponseWriter). t.response_writer) (below sw o) ≡ o
unfolding below
map-below sw none = refl
map-below sw (some w) = refl

-- A call on the middleware's writer is that call on the writer below it.
logged_call-writer :
    (sw : StatusResponseWriter) (c : Call)
    → Option.map (λ (t : StatusResponseWriter). t.response_writer) (logged_call sw c)
      ≡ call sw.response_writer c
unfolding logged_call call logged_write_header logged_write
logged_call-writer sw (sets_header k v) = refl
logged_call-writer sw (sets_cookie c) = refl
logged_call-writer sw (writes_header code) =
    map-below (note_code sw code) (write_status (note_code sw code).response_writer code)
    ∙ ap (λ w. write_status w code) (note_code-writer sw code)
logged_call-writer sw (writes b) = ap (λ w. some (write w b)) (note_code-writer sw 200)

first_status-final :
    (w : Writer) (code : ℕ)
    → 200 ≤ code
    → (first_status w code ≡ none) ⊎ (first_status w code ≡ some (write_header w code))
unfolding first_status
first_status-final w code h = ground arith

logged_write_header-Tracks :
    (sw sw' : StatusResponseWriter) (code : ℕ)
    → 200 ≤ code
    → Tracks sw
    → logged_write_header sw code ≡ some sw'
    → Tracks sw'
unfolding logged_write_header write_status write_header
logged_write_header-Tracks sw sw' code final (has, same) e =
    elim (Option-cases sw.response_writer.sent) [
      | inl u ↦ elim (first_status-final sw.response_writer code final) [
        | inl p ↦ ground (arith, u, has, p, e)
        | inr g ↦ ground (arith, u, has, g, e)
      ]
      | inr ((c, h, k), u) ↦ ground (arith, u, has, same, e)
    ]

logged_write-Tracks :
    (sw : StatusResponseWriter) (b : Bytes) → Tracks sw → Tracks (logged_write sw b)
unfolding logged_write write write_header
logged_write-Tracks sw b (has, same) = elim (Option-cases sw.response_writer.sent) [
  | inl u ↦ ground (arith, u, has, same)
  | inr ((c, h, k), u) ↦ ground (arith, u, has, same)
]

logged_call-Tracks :
    (sw sw' : StatusResponseWriter) (c : Call)
    → IsFinal c
    → Tracks sw
    → logged_call sw c ≡ some sw'
    → Tracks sw'
unfolding logged_call set_header set_cookie
logged_call-Tracks sw sw' (sets_header k v) f t e = ground (arith, t, e)
logged_call-Tracks sw sw' (sets_cookie c) f t e = ground (arith, t, e)
logged_call-Tracks sw sw' (writes_header code) f t e = logged_write_header-Tracks sw sw' code f t e
logged_call-Tracks sw sw' (writes b) f t e = ground (arith, logged_write-Tracks sw b t, e)

-- The handler with each of its questions for a Flusher answered by no.
abbrev pub unflushed : Handler → Handler
unflushed returns = returns
unflushed (does c h) = does c (unflushed h)
unflushed (asks_flusher granted denied) = unflushed denied
unflushed (hijacks failed) = hijacks (unflushed failed)

abbrev pub AreFinal : Handler → Type 0
AreFinal returns = Unit
AreFinal (does c h) = IsFinal c × AreFinal h
AreFinal (asks_flusher granted denied) = AreFinal denied
AreFinal (hijacks failed) = AreFinal failed

abbrev pub out : StatusResponseWriter × Bool → Writer × Bool
out (sw, taken) = (sw.response_writer, taken)

-- A handler on the middleware's writer does to the writer below it what it does to that one alone, but
-- that it finds no Flusher.
pub logged_handle-writer :
    (sw : StatusResponseWriter) (h : Handler)
    → Option.map out (logged_handle sw h) ≡ handle sw.response_writer (unflushed h)
unfolding logged_handle handle is_flusher is_hijacker
logged_handle-writer sw returns = refl
logged_handle-writer sw (does c h) = elim (Option-cases (logged_call sw c)) [
  | inl e ↦ ground (arith, e, logged_call-writer sw c)
  | inr (t, e) ↦ ground (arith, e, logged_call-writer sw c, logged_handle-writer t h)
]
logged_handle-writer sw (asks_flusher granted denied) = logged_handle-writer sw denied
logged_handle-writer sw (hijacks failed) = refl

logged_handle-Tracks :
    (sw sw' : StatusResponseWriter) (taken : Bool) (h : Handler)
    → AreFinal h
    → Tracks sw
    → logged_handle sw h ≡ some (sw', taken)
    → Tracks sw'
unfolding logged_handle is_flusher is_hijacker
logged_handle-Tracks sw sw' taken returns f t e = ground (arith, t, e)
logged_handle-Tracks sw sw' taken (does c h) (f, fs) t e = elim (Option-cases (logged_call sw c)) [
  | inl n ↦ ground (arith, n, e)
  | inr (u, s) ↦
      logged_handle-Tracks u sw' taken h fs (logged_call-Tracks sw u c f t s)
        (rw (logged_handle, s) at e)
]
logged_handle-Tracks sw sw' taken (asks_flusher granted denied) f t e =
    logged_handle-Tracks sw sw' taken denied f t e
logged_handle-Tracks sw sw' taken (hijacks failed) f t e = ground (arith, t, e)

-- The line for a request and a status
abbrev pub line_of : Request → ℕ → Audit
line_of r status = record {
  method = r.method;
  path = r.path;
  src = extract_client_ip r.remote_addr;
  xff = header_get r (codes "X-Forwarded-For");
  ua = header_get r (codes "User-Agent");
  status = status;
}

-- Around a handler whose status codes are final, the middleware is the handler itself with a line in the
-- log, but that the handler finds no Flusher: the client gets what it gets from the handler without the
-- middleware whose every question for a Flusher is answered by no, a connection is taken over just as
-- without it, the line has the status that the handler has sent, 200 if it has sent none, and where the
-- handler panics there is no line.
pub logging_middleware_lem :
    (r : Request) (w : Writer) (h : Handler)
    → w.sent ≡ none
    → AreFinal h
    → logging_middleware r w h
      ≡ Option.map
          (λ (o : Writer × Bool). (o.0, o.1, line_of r (client_status o.0)))
          (handle w (unflushed h))
unfolding logging_middleware audit new_status_response_writer
logging_middleware_lem r w h fresh final =
    elim (Option-cases (logged_handle (new_status_response_writer w) h)) [
      | inl e ↦ ground (arith, e, logged_handle-writer (new_status_response_writer w) h)
      | inr ((sw, taken), e) ↦
          let (_, same) =
            logged_handle-Tracks (new_status_response_writer w) sw taken h final
              (ground (arith, fresh)) e in
          let below_too : handle w (unflushed h) ≡ some (sw.response_writer, taken) =
            sym (logged_handle-writer (new_status_response_writer w) h) ∙ ap (Option.map out) e in
          rw (e, below_too) (ap (λ n. some (sw.response_writer, taken, line_of r n)) (sym same))
    ]
