-- ===== src/Shore.antt =====
-- registry.go, ShoreConnection: one connected Shore with its requests and streams in flight. The
-- mutex makes each step below atomic but for `DeliverFrame` and `CloseStream`, which touch the
-- channel after they have let go of it: see Shore/Streams.
pub mod Channel
pub mod Linked
pub mod Invariant
pub mod Actions
pub mod Kept
pub mod Requests
pub mod Streams
pub mod Reader
pub mod Addressed
pub mod Routing
pub mod Crosstalk
mod Tests
use dock.Base.{
  ℕ, ◌+◌, ◌≡◌, Bool, true, false, List, [], ◌∷◌, ◌++◌, Option, none, some, Bytes, Map, Bytes_eq,
  lookup, insert, delete, length, get_elem?, set, if◌then◌else◌,
}
use dock.Protocol.{
  HttpRequestMessage, HttpResponseMessage, StreamStartMessage, StreamFrameMessage, Outgoing,
  http_request, stream_start,
}
use Channel.{Chan, make, try_send, close_chan, receive}

-- Channels are references into `replies` and `frames`. `outbox` is what has been written to the
-- socket. `done` says that the channel of that name is closed, `hung_up` that the socket is.
pub record ShoreConnection : Type 0 where
  pub name : Bytes
  pub owner : Bytes
  pub services : List Bytes
  pub last_ping : ℕ
  pub connected : ℕ
  pub remote_addr : Bytes
  pub pending : Map Bytes ℕ
  pub streams : Map Bytes ℕ
  pub replies : List (Chan HttpResponseMessage)
  pub frames : List (Chan StreamFrameMessage)
  pub outbox : List Outgoing
  pub done : Bool
  pub hung_up : Bool

-- `WriteJSON`: `sent` says whether the socket takes the message; a closed one never does.
unfoldable pub write_json : ShoreConnection → Outgoing → Bool → ShoreConnection × Bool
write_json s v false = (s, false)
write_json s v true =
    if s.hung_up then (s, false) else (record s { outbox = s.outbox ++ v ∷ [] }, true)

-- What is undone when the write fails.
after_send : HttpRequestMessage → ℕ → ShoreConnection × Bool → ShoreConnection × Option ℕ
after_send msg ref (s, true) = (s, some ref)
after_send msg ref (s, false) = (record s { pending = delete msg.id s.pending }, none)

-- `SendHTTPRequest`: the new channel's reference, or none for an error.
unfoldable pub send_http_request :
    ShoreConnection → HttpRequestMessage → Bool → ShoreConnection × Option ℕ
unfolding after_send make
send_http_request s msg sent =
    let ref = length s.replies in
    let s' : ShoreConnection = record s {
      replies = s.replies ++ make 1 ∷ [];
      pending = insert msg.id ref s.pending;
    } in
    after_send msg ref (write_json s' (http_request msg) sent)

-- A non-blocking send into channel `ref`: none for a panic.
pub send_at {ℓ} : {A : Type ℓ} → List (Chan A) → ℕ → A → Option (List (Chan A))
send_at chans ref a = elim (get_elem? chans ref) [
  | none ↦ none
  | some ch ↦ elim (try_send ch a) [ none ↦ none | some ch' ↦ some (set chans ref ch') ]
]

-- `DeliverResponse`: none for a panic.
unfoldable pub deliver_response : ShoreConnection → HttpResponseMessage → Option ShoreConnection
unfolding send_at try_send
deliver_response s resp = elim (lookup resp.id s.pending) [
  | none ↦ some s
  | some ref ↦ elim (send_at s.replies ref resp) [
    | none ↦ none
    | some rs ↦ some (record s { pending = delete resp.id s.pending; replies = rs })
  ]
]

after_open : StreamStartMessage → ℕ → ShoreConnection × Bool → ShoreConnection × Option ℕ
after_open msg ref (s, true) = (s, some ref)
after_open msg ref (s, false) = (record s { streams = delete msg.id s.streams }, none)

-- `OpenStream`
unfoldable pub open_stream :
    ShoreConnection → StreamStartMessage → Bool → ShoreConnection × Option ℕ
unfolding after_open make
open_stream s msg sent =
    let ref = length s.frames in
    let s' : ShoreConnection = record s {
      frames = s.frames ++ make 32 ∷ [];
      streams = insert msg.id ref s.streams;
    } in
    after_open msg ref (write_json s' (stream_start msg) sent)

-- The first half of `DeliverFrame`, under the lock.
unfoldable pub find_stream : ShoreConnection → Bytes → Option ℕ
find_stream s id = lookup id s.streams

-- Its second half, without the lock.
unfoldable pub send_frame : ShoreConnection → ℕ → StreamFrameMessage → Option ShoreConnection
unfolding send_at
send_frame s ref frame = elim (send_at s.frames ref frame) [
  | none ↦ none
  | some fs ↦ some (record s { frames = fs })
]

-- `DeliverFrame` with nothing in between
unfoldable pub deliver_frame : ShoreConnection → StreamFrameMessage → Option ShoreConnection
unfolding find_stream send_frame
deliver_frame s frame = elim (find_stream s frame.id) [
  | none ↦ some s
  | some ref ↦ send_frame s ref frame
]

-- The first half of `CloseStream`, under the lock: the channel to close.
unfoldable pub remove_stream : ShoreConnection → Bytes → ShoreConnection × Option ℕ
remove_stream s id = (record s { streams = delete id s.streams }, lookup id s.streams)

-- Its second half, without the lock.
unfoldable pub close_frames : ShoreConnection → ℕ → Option ShoreConnection
unfolding close_chan
close_frames s ref = elim (get_elem? s.frames ref) [
  | none ↦ none
  | some ch ↦ elim (close_chan ch) [
    | none ↦ none
    | some ch' ↦ some (record s { frames = set s.frames ref ch' })
  ]
]

close_found : ShoreConnection × Option ℕ → Option ShoreConnection
close_found (s, none) = some s
close_found (s, some ref) = close_frames s ref

-- `CloseStream` with nothing in between
unfoldable pub close_stream : ShoreConnection → Bytes → Option ShoreConnection
unfolding remove_stream close_frames close_found
close_stream s id = close_found (remove_stream s id)

receive_at :
    ShoreConnection
    → ℕ
    → Option (Chan StreamFrameMessage)
    → Option (Option StreamFrameMessage × ShoreConnection)
receive_at s ref none = none
receive_at s ref (some ch) = elim (receive ch) [
  | none ↦ none
  | some (got, ch') ↦ some (got, record s { frames = set s.frames ref ch' })
]

-- `frame, ok := <-frameCh` in the handler that holds channel `ref`: none where it blocks.
unfoldable pub receive_frame :
    ShoreConnection → ℕ → Option (Option StreamFrameMessage × ShoreConnection)
unfolding receive_at
receive_frame s ref = receive_at s ref (get_elem? s.frames ref)

-- `CancelPendingRequest`
unfoldable pub cancel_pending_request : ShoreConnection → Bytes → ShoreConnection
cancel_pending_request s id = record s { pending = delete id s.pending }

-- `Close`: once.
unfoldable pub close : ShoreConnection → ShoreConnection
close s = if s.done then s else record s { done = true; hung_up = true }

-- The Shore that `shoreConnectHandler` builds for a connection.
unfoldable pub new_connection : Bytes → Bytes → List Bytes → Bytes → ℕ → ShoreConnection
new_connection name owner services remote_addr now = record {
  name = name;
  owner = owner;
  services = services;
  last_ping = now;
  connected = now;
  remote_addr = remote_addr;
  pending = [];
  streams = [];
  replies = [];
  frames = [];
  outbox = [];
  done = false;
  hung_up = false;
}
