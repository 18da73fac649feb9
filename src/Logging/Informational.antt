-- ===== src/Logging/Informational.antt =====
-- What the middleware logs where a handler sends a status ahead of its own.
use dock.Base.{
  ℕ, ◌≡◌, ◌≢◌, ◌≤◌, ◌<◌, refl, sym, ap, ◌∙◌, inl, inr, Bool, true, none, some, arith, Option-cases,
}
use mathlib.Core.Option
use dock.Http.{Request}
use dock.Http.Methods.{is_flusher, is_hijacker}
use dock.Http.Writer.{Writer, write_status, first_status}
use dock.Logging.{
  StatusResponseWriter, note_code, logged_write_header, logged_write, Call, sets_header,
  sets_cookie, writes_header, writes, logged_call, Handler, returns, does, asks_flusher, hijacks,
  handle, logged_handle, new_status_response_writer, Audit, audit, logging_middleware,
}
use dock.Logging.Transparent.{unflushed, out, logged_handle-writer}

logged_call-kept :
    (sw sw' : StatusResponseWriter) (c : Call)
    → sw.written ≡ true
    → logged_call sw c ≡ some sw'
    → (sw'.written ≡ true) × (sw'.status_code ≡ sw.status_code)
unfolding logged_call logged_write_header logged_write note_code
logged_call-kept sw sw' (sets_header k v) t e = ground (arith, t, e)
logged_call-kept sw sw' (sets_cookie c) t e = ground (arith, t, e)
logged_call-kept sw sw' (writes_header code) t e =
    elim (Option-cases (write_status sw.response_writer code)) [
      | inl n ↦ ground (arith, t, n, e)
      | inr (w, s) ↦ ground (arith, t, s, e)
    ]
logged_call-kept sw sw' (writes b) t e = ground (arith, t, e)

logged_handle-kept :
    (sw sw' : StatusResponseWriter) (taken : Bool) (h : Handler)
    → sw.written ≡ true
    → logged_handle sw h ≡ some (sw', taken)
    → sw'.status_code ≡ sw.status_code
unfolding logged_handle is_flusher is_hijacker
logged_handle-kept sw sw' taken returns t e = ground (arith, t, e)
logged_handle-kept sw sw' taken (does c h) t e = elim (Option-cases (logged_call sw c)) [
  | inl n ↦ ground (arith, n, e)
  | inr (u, s) ↦
      let (t', same) = logged_call-kept sw u c t s in
      logged_handle-kept u sw' taken h t' (rw (logged_handle, s) at e) ∙ same
]
logged_handle-kept sw sw' taken (asks_flusher granted denied) t e =
    logged_handle-kept sw sw' taken denied t e
logged_handle-kept sw sw' taken (hijacks failed) t e = ground (arith, t, e)

informational-first :
    (w : Writer) (code : ℕ)
    → 100 ≤ code
    → code < 200
    → code ≢ 101
    → w.sent ≡ none
    → write_status w code ≡ some w
unfolding write_status first_status
informational-first w code lo hi n fresh = rw fresh (ground arith)

logged_handle-informational :
    (w : Writer) (code : ℕ) (h : Handler)
    → write_status w code ≡ some w
    → logged_handle (new_status_response_writer w) (does (writes_header code) h)
      ≡ logged_handle (record { response_writer = w; status_code = code; written = true }) h
unfolding logged_handle logged_call logged_write_header new_status_response_writer write_status
logged_handle-informational w code h e = rw e

logged_status :
    (r : Request) (w w' : Writer) (taken : Bool) (h : Handler) (line : Audit)
    → logging_middleware r w h ≡ some (w', taken, line)
    → (sw : StatusResponseWriter) × (logged_handle (new_status_response_writer w) h
        ≡ some (sw, taken))
      × (sw.response_writer ≡ w')
      × (line.status ≡ sw.status_code)
unfolding logging_middleware audit
logged_status r w w' taken h line e =
    elim (Option-cases (logged_handle (new_status_response_writer w) h)) [
      | inl n ↦ ground (arith, n, e)
      | inr ((sw, took), s) ↦ (sw, ground (arith, s, e), ground (arith, s, e), ground (arith, s, e))
    ]

-- A status that is sent ahead is the one that is logged, whatever the client gets in the end.
pub log-informational :
    (r : Request) (w : Writer) (code : ℕ) (h : Handler) (w' : Writer) (taken : Bool) (line : Audit)
    → 100 ≤ code
    → code < 200
    → code ≢ 101
    → w.sent ≡ none
    → logging_middleware r w (does (writes_header code) h) ≡ some (w', taken, line)
    → (line.status ≡ code) × (handle w (unflushed h) ≡ some (w', taken))
log-informational r w code h w' taken line lo hi n fresh e =
    let sw1 : StatusResponseWriter = record {
      response_writer = w;
      status_code = code;
      written = true;
    } in
    let (sw, ran, same, status) = logged_status r w w' taken (does (writes_header code) h) line e in
    let rest : logged_handle sw1 h ≡ some (sw, taken) =
      sym (logged_handle-informational w code h (informational-first w code lo hi n fresh)) ∙ ran in
    (
      status ∙ logged_handle-kept sw1 sw taken h refl rest,
      sym (logged_handle-writer sw1 h) ∙ ap (Option.map out) rest ∙ ap (λ x. some (x, taken)) same,
    )
