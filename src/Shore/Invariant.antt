-- ===== src/Shore/Invariant.antt =====
-- What `pending` and `streams` promise, and that no sequence of a Shore's operations breaks it or
-- panics, as long as each runs without another in between.
use dock.Base.{
  ℕ, ◌≤◌, ◌≡◌, refl, inl, inr, Bool, true, false, List, [], ◌∷◌, ◌++◌, Option, some, arith, Bytes,
  Bytes_eq, lookup, insert, delete, length, length-append, get_elem?, set, Option-cases, Bool-cases,
  sym, subst, ltb, ◌⊎◌,
}
use dock.Protocol.{
  HttpRequestMessage, HttpResponseMessage, StreamStartMessage, StreamFrameMessage, Outgoing,
  http_request, stream_start,
}
use dock.Shore.Channel.{Chan, make, try_send, receive, receive_from}
use dock.Shore.Linked.{Linked, delete-Linked, insert-Linked, drop-Linked, set-Linked}
use dock.Shore.{
  ShoreConnection, write_json, send_http_request, deliver_response, open_stream, deliver_frame,
  close_stream, receive_frame,
}

-- A reply channel that somebody waits on has room for its one reply.
abbrev pub IsWaiting : Chan HttpResponseMessage → Type 0
IsWaiting ch = (ch.closed ≡ false) × (ch.buffer ≡ []) × (ch.cap ≡ 1)

abbrev pub IsOpen : Chan StreamFrameMessage → Type 0
IsOpen ch = (ch.closed ≡ false) × (ch.cap ≡ 32) × (length ch.buffer ≤ 32)

pub record IsValid (s : ShoreConnection) : Type 0 where
  pub pending : Linked IsWaiting s.pending s.replies
  pub streams : Linked IsOpen s.streams s.frames

-- The operation returns, and the invariant holds of what it returns.
abbrev pub Keeps : Option ShoreConnection → Type 0
Keeps r = (s : ShoreConnection) × (r ≡ some s) × IsValid s

pub write_json_cases :
    (s : ShoreConnection) (v : Outgoing) (sent : Bool)
    → (write_json s v sent ≡ (s, false))
      ⊎ (write_json s v sent ≡ (record s { outbox = s.outbox ++ v ∷ [] }, true))
unfolding write_json
write_json_cases s v false = inl refl
write_json_cases s v true = ground arith

try_send-IsOpen :
    (ch : Chan StreamFrameMessage) (a : StreamFrameMessage)
    → IsOpen ch
    → (ch' : Chan StreamFrameMessage) × (try_send ch a ≡ some ch') × IsOpen ch'
unfolding try_send
try_send-IsOpen ch a (o, c, l) = elim (Bool-cases (ltb (length ch.buffer) ch.cap)) [
  | inl room ↦ (
    record ch { buffer = ch.buffer ++ a ∷ [] },
    ground arith,
    (o, c, ground (arith, length-append {0} ch.buffer (a ∷ []))),
  )
  | inr full ↦ (ch, ground arith, (o, c, l))
]

pub send_http_request-IsValid :
    (s : ShoreConnection) (msg : HttpRequestMessage) (sent : Bool)
    → IsValid s
    → IsValid (send_http_request s msg sent).0
unfolding send_http_request make
send_http_request-IsValid s msg sent v =
    let linked =
      insert-Linked IsWaiting msg.id (make 1) s.pending s.replies (refl, refl, refl) v.pending in
    let s' : ShoreConnection = record s {
      pending = insert msg.id (length s.replies) s.pending;
      replies = s.replies ++ make 1 ∷ [];
    } in
    elim (write_json_cases s' (http_request msg) sent) [
      | inl failed ↦
          rw failed
            (record { pending = delete-Linked IsWaiting msg.id _ _ linked; streams = v.streams })
      | inr written ↦ rw written (record { pending = linked; streams = v.streams })
    ]

pub deliver_response-IsValid :
    (s : ShoreConnection) (resp : HttpResponseMessage) → IsValid s → Keeps (deliver_response s resp)
unfolding deliver_response
deliver_response-IsValid s resp v = elim (Option-cases (lookup resp.id s.pending)) [
  | inl e ↦ (s, rw (e, deliver_response), v)
  | inr (ref, e) ↦
      let (ch, there, (open_ch, empty, room)) = v.pending.leads resp.id ref e in
      let ch' : Chan HttpResponseMessage = record ch { buffer = ch.buffer ++ resp ∷ [] } in
      (
        record s { pending = delete resp.id s.pending; replies = set s.replies ref ch' },
        ground arith,
        record {
          pending = drop-Linked IsWaiting resp.id ref ch' s.pending s.replies e v.pending;
          streams = v.streams;
        },
      )
]

pub open_stream-IsValid :
    (s : ShoreConnection) (msg : StreamStartMessage) (sent : Bool)
    → IsValid s
    → IsValid (open_stream s msg sent).0
unfolding open_stream make
open_stream-IsValid s msg sent v =
    let linked =
      insert-Linked IsOpen msg.id (make 32) s.streams s.frames (refl, refl, omega arith)
        v.streams in
    let s' : ShoreConnection = record s {
      streams = insert msg.id (length s.frames) s.streams;
      frames = s.frames ++ make 32 ∷ [];
    } in
    elim (write_json_cases s' (stream_start msg) sent) [
      | inl failed ↦
          rw failed
            (record { pending = v.pending; streams = delete-Linked IsOpen msg.id _ _ linked })
      | inr written ↦ rw written (record { pending = v.pending; streams = linked })
    ]

pub deliver_frame-IsValid :
    (s : ShoreConnection) (frame : StreamFrameMessage) → IsValid s → Keeps (deliver_frame s frame)
unfolding deliver_frame
deliver_frame-IsValid s frame v = elim (Option-cases (lookup frame.id s.streams)) [
  | inl e ↦ (s, rw (e, deliver_frame), v)
  | inr (ref, e) ↦
      let (ch, there, is_open) = v.streams.leads frame.id ref e in
      let (ch', put, still_open) = try_send-IsOpen ch frame is_open in
      (
        record s { frames = set s.frames ref ch' },
        ground arith,
        record {
          pending = v.pending;
          streams = set-Linked IsOpen ref ch' s.streams s.frames (λ d _ _. still_open) v.streams;
        },
      )
]

pub close_stream-IsValid :
    (s : ShoreConnection) (id : Bytes) → IsValid s → Keeps (close_stream s id)
unfolding close_stream
close_stream-IsValid s id v = elim (Option-cases (lookup id s.streams)) [
  | inl e ↦ (
    record s { streams = delete id s.streams },
    ground arith,
    record { pending = v.pending; streams = delete-Linked IsOpen id s.streams s.frames v.streams },
  )
  | inr (ref, e) ↦
      let (ch, there, is_open) = v.streams.leads id ref e in
      let ch' : Chan StreamFrameMessage = record ch { closed = true } in
      (
        record s { streams = delete id s.streams; frames = set s.frames ref ch' },
        ground arith,
        record {
          pending = v.pending;
          streams = drop-Linked IsOpen id ref ch' s.streams s.frames e v.streams;
        },
      )
]

receive_from-IsOpen :
    (ch : Chan StreamFrameMessage) (buffer : List StreamFrameMessage)
    (got : Option StreamFrameMessage) (ch' : Chan StreamFrameMessage)
    → receive_from ch buffer ≡ some (got, ch')
    → ch.closed ≡ false
    → ch.cap ≡ 32
    → length buffer ≤ 32
    → IsOpen ch'
unfolding receive_from
receive_from-IsOpen ch [] got ch' e o c l = ground arith
receive_from-IsOpen ch (a ∷ rest) got ch' e o c l = ground arith

receive-IsOpen :
    (ch ch' : Chan StreamFrameMessage) (got : Option StreamFrameMessage)
    → receive ch ≡ some (got, ch')
    → IsOpen ch
    → IsOpen ch'
unfolding receive
receive-IsOpen ch ch' got e (o, c, l) = receive_from-IsOpen ch ch.buffer got ch' e o c l

pub receive_frame-IsValid :
    (s s' : ShoreConnection) (ref : ℕ) (got : Option StreamFrameMessage)
    → receive_frame s ref ≡ some (got, s')
    → IsValid s
    → IsValid s'
unfolding receive_frame
receive_frame-IsValid s s' ref got e v = elim (Option-cases (get_elem? s.frames ref)) [
  | inl missing ↦ ground arith
  | inr (ch, there) ↦ elim (Option-cases (receive ch)) [
    | inl blocks ↦ ground arith
    | inr ((got', ch'), gets) ↦
        let same : s' ≡ record s { frames = set s.frames ref ch' } = ground arith in
        subst IsValid (sym same) (record {
          pending = v.pending;
          streams =
              set-Linked IsOpen ref ch' s.streams s.frames
                (λ d at_ref d_open. receive-IsOpen d ch' got' (ground arith) d_open) v.streams;
        })
  ]
]
