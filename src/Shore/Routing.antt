-- ===== src/Shore/Routing.antt =====
-- Each operation of a Shore puts a message only into a channel that was made for its id.
use dock.Base.{
  ℕ, ◌≡◌, refl, sym, ap, ◌∙◌, subst, inl, inr, Bool, true, List, [], ◌∷◌, ◌++◌, Option, none, some,
  arith, Bytes, Bytes_eq, lookup, insert, delete, length, get_elem?, set, All, Option-cases,
  Bool-cases,
}
use dock.Protocol.{
  HttpRequestMessage, HttpResponseMessage, StreamStartMessage, StreamFrameMessage, http_request,
  stream_start,
}
use dock.Shore.Channel.{Chan, make, close_chan, receive, receive_from}
use dock.Shore.Addressed.{
  send_at-Addressed, AllFor, Addressed, delete-Addressed, insert-Addressed, set-Addressed,
}
use dock.Shore.Invariant.{write_json_cases}
use dock.Shore.Actions.{after_read}
use dock.Shore.{
  ShoreConnection, after_send, send_http_request, send_at, deliver_response, after_open,
  open_stream, deliver_frame, find_stream, send_frame, close_stream, remove_stream, close_frames,
  close_found, receive_frame, receive_at,
}

abbrev pub for_reply : HttpResponseMessage → Bytes
for_reply resp = resp.id

abbrev pub for_frame : StreamFrameMessage → Bytes
for_frame frame = frame.id

pub record IsRouted (s : ShoreConnection) (ids fids : List Bytes) : Type 0 where
  pub replies : Addressed for_reply ids s.pending s.replies
  pub frames : Addressed for_frame fids s.streams s.frames

module _ (s : ShoreConnection) (ids fids : List Bytes) (v : IsRouted s ids fids) where
  pub send_http_request-IsRouted :
      (msg : HttpRequestMessage) (sent : Bool)
      → IsRouted (send_http_request s msg sent).0 (ids ++ msg.id ∷ []) fids
  unfolding send_http_request after_send
  send_http_request-IsRouted msg sent =
      let new_ref = length s.replies in
      let s1 : ShoreConnection = record s {
        replies = s.replies ++ make 1 ∷ [];
        pending = insert msg.id new_ref s.pending;
      } in
      let made = insert-Addressed for_reply msg.id 1 ids s.pending s.replies v.replies in
      elim (write_json_cases s1 (http_request msg) sent) [
        | inl e ↦
            subst (λ o. IsRouted (after_send msg new_ref o).0 (ids ++ msg.id ∷ []) fids) (sym e)
              (record {
                replies =
                    delete-Addressed for_reply msg.id (ids ++ msg.id ∷ []) s1.pending s1.replies
                      made;
                frames = v.frames;
              })
        | inr e ↦
            subst (λ o. IsRouted (after_send msg new_ref o).0 (ids ++ msg.id ∷ []) fids) (sym e)
              (record { replies = made; frames = v.frames })
      ]

  pub open_stream-IsRouted :
      (msg : StreamStartMessage) (sent : Bool)
      → IsRouted (open_stream s msg sent).0 ids (fids ++ msg.id ∷ [])
  unfolding open_stream after_open
  open_stream-IsRouted msg sent =
      let new_ref = length s.frames in
      let s1 : ShoreConnection = record s {
        frames = s.frames ++ make 32 ∷ [];
        streams = insert msg.id new_ref s.streams;
      } in
      let made = insert-Addressed for_frame msg.id 32 fids s.streams s.frames v.frames in
      elim (write_json_cases s1 (stream_start msg) sent) [
        | inl e ↦
            subst (λ o. IsRouted (after_open msg new_ref o).0 ids (fids ++ msg.id ∷ [])) (sym e)
              (record {
                replies = v.replies;
                frames =
                    delete-Addressed for_frame msg.id (fids ++ msg.id ∷ []) s1.streams s1.frames
                      made;
              })
        | inr e ↦
            subst (λ o. IsRouted (after_open msg new_ref o).0 ids (fids ++ msg.id ∷ [])) (sym e)
              (record { replies = v.replies; frames = made })
      ]

  pub deliver_response-IsRouted :
      (resp : HttpResponseMessage) (s' : ShoreConnection)
      → deliver_response s resp ≡ some s'
      → IsRouted s' ids fids
  unfolding deliver_response
  deliver_response-IsRouted resp s' h = elim (Option-cases (lookup resp.id s.pending)) [
    | inl e ↦ let same : s ≡ s' = ground arith in subst (λ t. IsRouted t ids fids) same v
    | inr (ref, e) ↦ elim (Option-cases (send_at s.replies ref resp)) [
      | inl panics ↦ ground arith
      | inr (rs, e') ↦
          let same : record s { pending = delete resp.id s.pending; replies = rs } ≡ s' =
            ground arith in
          subst (λ t. IsRouted t ids fids) same
            (record {
              replies = delete-Addressed for_reply resp.id ids s.pending rs (
                  send_at-Addressed for_reply ids s.pending s.replies rs ref resp
                    (v.replies.known resp.id ref e) e' v.replies);
              frames = v.frames;
            })
    ]
  ]

  pub deliver_frame-IsRouted :
      (frame : StreamFrameMessage) (s' : ShoreConnection)
      → deliver_frame s frame ≡ some s'
      → IsRouted s' ids fids
  unfolding deliver_frame find_stream send_frame
  deliver_frame-IsRouted frame s' h = elim (Option-cases (lookup frame.id s.streams)) [
    | inl e ↦ let same : s ≡ s' = ground arith in subst (λ t. IsRouted t ids fids) same v
    | inr (ref, e) ↦ elim (Option-cases (send_at s.frames ref frame)) [
      | inl panics ↦ ground arith
      | inr (fs, e') ↦
          let same : record s { frames = fs } ≡ s' = ground arith in
          subst (λ t. IsRouted t ids fids) same
            (record {
              replies = v.replies;
              frames =
                  send_at-Addressed for_frame fids s.streams s.frames fs ref frame
                    (v.frames.known frame.id ref e) e' v.frames;
            })
    ]
  ]

  close_frames-IsRouted :
      (ref : ℕ) (s' : ShoreConnection) → close_frames s ref ≡ some s' → IsRouted s' ids fids
  unfolding close_frames close_chan
  close_frames-IsRouted ref s' h = elim (Option-cases (get_elem? s.frames ref)) [
    | inl missing ↦ ground arith
    | inr (ch, there) ↦ elim (Bool-cases ch.closed) [
      | inl again ↦ ground arith
      | inr first ↦
          let ch' : Chan StreamFrameMessage = record ch { closed = true } in
          let same : record s { frames = set s.frames ref ch' } ≡ s' = ground arith in
          subst (λ t. IsRouted t ids fids) same
            (record {
              replies = v.replies;
              frames =
                  set-Addressed for_frame ref ch' fids s.streams s.frames
                    (v.frames.contents ref ch there) v.frames;
            })
    ]
  ]

  pub after_read-IsRouted : (ref : ℕ) → IsRouted (after_read s (receive_frame s ref)) ids fids
  unfolding receive_frame receive_at receive receive_from
  after_read-IsRouted ref = read (get_elem? s.frames ref) refl
    where
      put_back :
          (ch : Chan StreamFrameMessage)
          → AllFor for_frame fids ref ch
          → IsRouted (record s { frames = set s.frames ref ch }) ids fids
      put_back ch all_for = record {
        replies = v.replies;
        frames = set-Addressed for_frame ref ch fids s.streams s.frames all_for v.frames;
      }

      taken :
          (ch : Chan StreamFrameMessage) (b : List StreamFrameMessage)
          → AllFor for_frame fids ref ch
          → All (λ f. get_elem? fids ref ≡ some f.id) b
          → IsRouted
              (after_read s (elim (receive_from ch b) [
                | none ↦ none
                | some (got, ch') ↦ some (got, record s { frames = set s.frames ref ch' })
              ]))
              ids
              fids
      taken ch [] all_for all_b = elim (Bool-cases ch.closed) [
        | inl t ↦ rw t (put_back (record ch { closed = true }) all_for)
        | inr f ↦ rw f v
      ]
      taken ch (a ∷ b) all_for (p, all_b) = put_back (record ch { buffer = b }) all_b

      read :
          (o : Option (Chan StreamFrameMessage))
          → get_elem? s.frames ref ≡ o
          → IsRouted (after_read s (receive_at s ref o)) ids fids
      read none e = v
      read (some ch) e =
          taken ch ch.buffer (v.frames.contents ref ch e) (v.frames.contents ref ch e)

pub close_stream-IsRouted :
    (s : ShoreConnection) (ids fids : List Bytes) (id : Bytes) (s' : ShoreConnection)
    → IsRouted s ids fids
    → close_stream s id ≡ some s'
    → IsRouted s' ids fids
unfolding close_stream close_found remove_stream
close_stream-IsRouted s ids fids id s' v h =
    let s0 : ShoreConnection = record s { streams = delete id s.streams } in
    let v0 : IsRouted s0 ids fids = record {
      replies = v.replies;
      frames = delete-Addressed for_frame id fids s.streams s.frames v.frames;
    } in
    elim (Option-cases (lookup id s.streams)) [
      | inl e ↦ let same : s0 ≡ s' = ground arith in subst (λ t. IsRouted t ids fids) same v0
      | inr (ref, e) ↦
          close_frames-IsRouted s0 ids fids v0 ref s'
            (ap (λ (o : Option ℕ). close_found (s0, o)) (sym e) ∙ h)
    ]
