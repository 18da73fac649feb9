-- ===== src/Gateway/Untouched.antt =====
-- A request reaches no Shore but the user's own.
use dock.Base.{
  ℕ, ◌≡◌, ◌≢◌, refl, ap, ◌∙◌, inl, inr, Bool, Option, none, some, Bytes, Bytes_eq, codes, get_elem?,
  get_elem?-set_ne, ◌==◌, Bool-cases, Option-cases,
}
use dock.Protocol.{StreamStartMessage}
use dock.Shore.{ShoreConnection, open_stream, send_http_request}
use dock.Registry.{ShoreRegistry}
use dock.Http.{Request, header_get}
use dock.Http.Writer.{Writer}
use dock.Gateway.{resolve_shore}
use dock.Gateway.Resolve.{resolve_shore_sound}
use dock.Gateway.Route.{
  Handed, plain, logged, pin, put, is_flusher, after_request, after_stream, start_stream,
  request_message, stream_message, route_to_shore,
}

-- The Shore `s` behind `q` is as it was, and so is the map.
abbrev pub Untouched : ShoreRegistry → ℕ → ShoreConnection → ShoreRegistry → Type 0
Untouched r q s r' = (r'.shores ≡ r.shores) × (get_elem? r'.heap q ≡ some s)

module _ (r : ShoreRegistry) (q : ℕ) (s : ShoreConnection)
    (there : get_elem? r.heap q ≡ some s) where
  put-Untouched : (ref : ℕ) (t : ShoreConnection) → ref ≢ q → Untouched r q s (put r ref t)
  put-Untouched ref t ne = (refl, get_elem?-set_ne r.heap ref q t ne ∙ there)

  after_request-Untouched :
      (ref : ℕ) (w : Writer) (o : ShoreConnection × Option ℕ)
      → ref ≢ q
      → Untouched r q s (after_request r ref w o).0
  unfolding after_request
  after_request-Untouched ref w (t, none) ne = put-Untouched ref t ne
  after_request-Untouched ref w (t, some chan) ne = put-Untouched ref t ne

  after_stream-Untouched :
      (ref : ℕ) (w : Writer) (o : ShoreConnection × Option ℕ)
      → ref ≢ q
      → Untouched r q s (after_stream r ref w o).0
  unfolding after_stream
  after_stream-Untouched ref w (t, none) ne = put-Untouched ref t ne
  after_stream-Untouched ref w (t, some chan) ne = put-Untouched ref t ne

  start_stream-Untouched :
      (kind : Handed) (ref : ℕ) (w : Writer) (t : ShoreConnection) (msg : StreamStartMessage)
      (sent : Bool)
      → ref ≢ q
      → Untouched r q s (start_stream kind r ref w t msg sent).0
  unfolding start_stream is_flusher
  start_stream-Untouched plain ref w t msg sent ne =
      after_stream-Untouched ref w (open_stream t msg sent) ne
  start_stream-Untouched logged ref w t msg sent ne = (refl, there)

  -- A Shore that does not belong to the user of a request is not changed by it: nothing is written to
  -- its socket, and no request or stream is entered for it.
  pub route_to_shore-Untouched :
      (kind : Handed) (req : Request) (id : Bytes) (sent : Bool) (w : Writer)
      → s.owner ≢ req.user
      → Untouched r q s (route_to_shore kind r req id sent w).0
  unfolding route_to_shore
  route_to_shore-Untouched kind req id sent w other = elim (Option-cases (resolve_shore r req)) [
    | inl e ↦ rw (route_to_shore, e) (refl, there)
    | inr ((ref, t, strip), e) ↦
        let (x, (_, at_ref, mine), _) = resolve_shore_sound r req ref t strip e in
        let apart : ref ≢ q =
          λ same. other (ap (λ (x : ShoreConnection). x.owner) (one ref t same at_ref) ∙ mine) in
        elim (Bool-cases (header_get req (codes "Accept") == codes "text/event-stream")) [
          | inr f ↦
              rw (route_to_shore, e, f)
                (after_request-Untouched ref (pin w strip)
                  (send_http_request t (request_message req id strip) sent) apart)
          | inl y ↦
              rw (route_to_shore, e, y)
                (start_stream-Untouched kind ref (pin w strip) t (stream_message req id strip) sent
                  apart)
        ]
  ]
    where
      one : (ref : ℕ) (t : ShoreConnection) → ref ≡ q → get_elem? r.heap ref ≡ some t → s ≡ t
      one ref t same at_ref = cc
