-- ===== src/Shore/Kept.antt =====
-- What the operations of a Shore leave as it was, and whom the messages that they write name.
use dock.Base.{
  All, All-append, if◌then◌else◌, ◌==◌, codes, Bool-cases, ◌≡◌, refl, inl, inr, ℕ, Bool, true,
  false, [], ◌∷◌, ◌++◌, Option, none, some, Bytes, Bytes_eq, insert, delete, lookup, length,
  get_elem?, Option-cases,
}
use dock.Protocol.{
  HttpRequestMessage, HttpResponseMessage, StreamStartMessage, StreamFrameMessage, Outgoing,
  http_request, stream_start, pong,
}
use dock.Shore.{
  ShoreConnection, write_json, after_send, after_open, open_stream, send_http_request, send_at,
  deliver_response, find_stream, send_frame, deliver_frame, remove_stream, close_frames,
  close_found, close_stream, receive_at, receive_frame, cancel_pending_request, close,
}
use dock.Shore.Channel.{make, close_chan, receive}
use dock.Shore.Invariant.{write_json_cases}
use dock.Shore.Actions.{
  Action, sends, responds, opens, delivers, ends, cancels, reads, pings, closes, after_read, act,
}

-- Requests and streams name the owner as the user that they come from.
abbrev pub Owned : Bytes → Outgoing → Type 0
Owned owner (http_request msg) =
    lookup (codes "X-Dock-User") msg.headers ≡ (if owner == [] then none else some owner)
Owned owner (stream_start msg) =
    lookup (codes "X-Dock-User") msg.headers ≡ (if owner == [] then none else some owner)
Owned owner (pong msg) = Unit

-- Whatever has been written to the socket of a Shore.
abbrev pub AllOwned : ShoreConnection → Type 0
AllOwned s = All (Owned s.owner) s.outbox

-- The same name, as open as before, and nothing written under another user's name.
abbrev pub Kept : ShoreConnection → ShoreConnection → Type 0
Kept s s' = (s'.name ≡ s.name) × (s'.done ≡ s.done) × (AllOwned s → AllOwned s')

pub write_json-Kept :
    (s : ShoreConnection) (v : Outgoing) (sent : Bool)
    → Owned s.owner v
    → Kept s (write_json s v sent).0
write_json-Kept s v sent own = elim (write_json_cases s v sent) [
  | inl failed ↦ rw failed (refl, refl, λ m. m)
  | inr written ↦
      rw written (refl, refl, λ m. All-append (Owned s.owner) s.outbox (v ∷ []) m (own, tt))
]

after_send-Kept :
    (msg : HttpRequestMessage) (ref : ℕ) (s : ShoreConnection) (o : ShoreConnection × Bool)
    → Kept s o.0
    → Kept s (after_send msg ref o).0
unfolding after_send
after_send-Kept msg ref s (s', true) k = k
after_send-Kept msg ref s (s', false) k = k

after_open-Kept :
    (msg : StreamStartMessage) (ref : ℕ) (s : ShoreConnection) (o : ShoreConnection × Bool)
    → Kept s o.0
    → Kept s (after_open msg ref o).0
unfolding after_open
after_open-Kept msg ref s (s', true) k = k
after_open-Kept msg ref s (s', false) k = k

pub send_http_request-Kept :
    (s : ShoreConnection) (msg : HttpRequestMessage) (sent : Bool)
    → Owned s.owner (http_request msg)
    → Kept s (send_http_request s msg sent).0
unfolding send_http_request
send_http_request-Kept s msg sent own = after_send-Kept msg (length s.replies) s _ (
    write_json-Kept
      (record s {
        replies = s.replies ++ make 1 ∷ [];
        pending = insert msg.id (length s.replies) s.pending;
      })
      (http_request msg) sent own)

pub open_stream-Kept :
    (s : ShoreConnection) (msg : StreamStartMessage) (sent : Bool)
    → Owned s.owner (stream_start msg)
    → Kept s (open_stream s msg sent).0
unfolding open_stream
open_stream-Kept s msg sent own = after_open-Kept msg (length s.frames) s _ (
    write_json-Kept
      (record s {
        frames = s.frames ++ make 32 ∷ [];
        streams = insert msg.id (length s.frames) s.streams;
      })
      (stream_start msg) sent own)

-- The same, where an operation does not panic.
abbrev pub KeptIn : ShoreConnection → Option ShoreConnection → Type 0
KeptIn s none = Unit
KeptIn s (some s') = Kept s s'

pub deliver_response-KeptIn :
    (s : ShoreConnection) (resp : HttpResponseMessage) → KeptIn s (deliver_response s resp)
unfolding deliver_response
deliver_response-KeptIn s resp = elim (Option-cases (lookup resp.id s.pending)) [
  | inl e ↦ rw (deliver_response, e) (refl, refl, λ m. m)
  | inr (ref, e) ↦ elim (Option-cases (send_at s.replies ref resp)) [
    | inl f ↦ rw (deliver_response, e, f) tt
    | inr (rs, f) ↦ rw (deliver_response, e, f) (refl, refl, λ m. m)
  ]
]

pub deliver_frame-KeptIn :
    (s : ShoreConnection) (frame : StreamFrameMessage) → KeptIn s (deliver_frame s frame)
unfolding deliver_frame find_stream send_frame
deliver_frame-KeptIn s frame = elim (Option-cases (lookup frame.id s.streams)) [
  | inl e ↦ rw (deliver_frame, find_stream, e) (refl, refl, λ m. m)
  | inr (ref, e) ↦ elim (Option-cases (send_at s.frames ref frame)) [
    | inl f ↦ rw (deliver_frame, find_stream, e, send_frame, f) tt
    | inr (fs, f) ↦ rw (deliver_frame, find_stream, e, send_frame, f) (refl, refl, λ m. m)
  ]
]

close_frames-KeptIn : (s : ShoreConnection) (ref : ℕ) → KeptIn s (close_frames s ref)
unfolding close_frames
close_frames-KeptIn s ref = elim (Option-cases (get_elem? s.frames ref)) [
  | inl e ↦ rw (close_frames, e) tt
  | inr (ch, e) ↦ elim (Option-cases (close_chan ch)) [
    | inl f ↦ rw (close_frames, e, f) tt
    | inr (ch', f) ↦ rw (close_frames, e, f) (refl, refl, λ m. m)
  ]
]

pub close_stream-KeptIn : (s : ShoreConnection) (id : Bytes) → KeptIn s (close_stream s id)
unfolding close_stream remove_stream close_found
close_stream-KeptIn s id = elim (Option-cases (lookup id s.streams)) [
  | inl e ↦ rw (close_stream, remove_stream, close_found, e) (refl, refl, λ m. m)
  | inr (ref, e) ↦
      rw (close_stream, remove_stream, close_found, e)
        (close_frames-KeptIn (record s { streams = delete id s.streams }) ref)
]

receive_frame-Kept : (s : ShoreConnection) (ref : ℕ) → Kept s (after_read s (receive_frame s ref))
unfolding receive_frame receive_at
receive_frame-Kept s ref = elim (Option-cases (get_elem? s.frames ref)) [
  | inl e ↦ rw (receive_frame, receive_at, e) (refl, refl, λ m. m)
  | inr (ch, e) ↦ elim (Option-cases (receive ch)) [
    | inl f ↦ rw (receive_frame, receive_at, e, f) (refl, refl, λ m. m)
    | inr ((got, ch'), f) ↦ rw (receive_frame, receive_at, e, f) (refl, refl, λ m. m)
  ]
]

-- What others than its read loop may do to a Shore: requests and streams name its owner, and it is not
-- closed.
abbrev pub Fair : ShoreConnection → Action → Type 0
Fair s (sends msg sent) = Owned s.owner (http_request msg)
Fair s (opens msg sent) = Owned s.owner (stream_start msg)
Fair s closes = ⊥
Fair s _ = Unit

pub act-KeptIn : (s : ShoreConnection) (a : Action) → Fair s a → KeptIn s (act s a)
unfolding act cancel_pending_request
act-KeptIn s (sends msg sent) fair = send_http_request-Kept s msg sent fair
act-KeptIn s (responds resp) fair = deliver_response-KeptIn s resp
act-KeptIn s (opens msg sent) fair = open_stream-Kept s msg sent fair
act-KeptIn s (delivers frame) fair = deliver_frame-KeptIn s frame
act-KeptIn s (ends id) fair = close_stream-KeptIn s id
act-KeptIn s (cancels id) fair = (refl, refl, λ m. m)
act-KeptIn s (reads ref) fair = receive_frame-Kept s ref
act-KeptIn s (pings now) fair = (refl, refl, λ m. m)
act-KeptIn s closes fair = absurd fair

pub close-AllOwned : (s : ShoreConnection) → AllOwned s → AllOwned (close s)
unfolding close
close-AllOwned s m = elim (Bool-cases s.done) [
  | inl again ↦ rw (close, again) m
  | inr first ↦ rw (close, first) m
]
