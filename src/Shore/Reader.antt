-- ===== src/Shore/Reader.antt =====
-- The handler's end of a stream's channel, while the stream is open and after it has been closed.
use dock.Base.{
  ℕ, ◌≡◌, refl, ap, ◌∙◌, true, false, List, [], ◌∷◌, Option, none, some, Bytes, Bytes_eq, delete,
  lookup-delete_self, get_elem?, set, get_elem?-set_self,
}
use dock.Protocol.{StreamFrameMessage}
use dock.Shore.Channel.{Chan, receive, receive_from, close_chan}
use dock.Shore.{
  ShoreConnection, find_stream, receive_frame, receive_at, close_stream, close_found, remove_stream,
  close_frames,
}
use dock.Shore.Streams.{Holds}

-- Channel `ref` is closed, and `buffer` still waits in it.
abbrev pub IsEnded : ShoreConnection → ℕ → List StreamFrameMessage → Type 0
IsEnded s ref buffer =
    get_elem? s.frames ref ≡ some (record { buffer = buffer; cap = 32; closed = true })

pub receive_frame-Holds :
    (s : ShoreConnection) (id : Bytes) (ref : ℕ) (f : StreamFrameMessage)
    (q : List StreamFrameMessage)
    → Holds s id ref (f ∷ q)
    → (s' : ShoreConnection) × (receive_frame s ref ≡ some (some f, s')) × Holds s' id ref q
unfolding receive_frame receive_at receive receive_from find_stream
receive_frame-Holds s id ref f q v =
    let ch : Chan StreamFrameMessage = record { buffer = q; cap = 32; closed = false } in
    (
      record s { frames = set s.frames ref ch },
      ap (receive_at s ref) v.stored,
      record { known = v.known; stored = get_elem?-set_self s.frames ref ch _ v.stored },
    )

pub receive_frame-empty :
    (s : ShoreConnection) (id : Bytes) (ref : ℕ) → Holds s id ref [] → receive_frame s ref ≡ none
unfolding receive_frame receive_at receive receive_from
receive_frame-empty s id ref v = ap (receive_at s ref) v.stored

pub receive_frame-IsEnded :
    (s : ShoreConnection) (ref : ℕ) (f : StreamFrameMessage) (q : List StreamFrameMessage)
    → IsEnded s ref (f ∷ q)
    → (s' : ShoreConnection) × (receive_frame s ref ≡ some (some f, s')) × IsEnded s' ref q
unfolding receive_frame receive_at receive receive_from
receive_frame-IsEnded s ref f q stored =
    let ch : Chan StreamFrameMessage = record { buffer = q; cap = 32; closed = true } in
    (
      record s { frames = set s.frames ref ch },
      ap (receive_at s ref) stored,
      get_elem?-set_self s.frames ref ch _ stored,
    )

pub receive_frame-last :
    (s : ShoreConnection) (ref : ℕ)
    → IsEnded s ref []
    → (s' : ShoreConnection) × (receive_frame s ref ≡ some (none, s'))
unfolding receive_frame receive_at receive receive_from
receive_frame-last s ref stored = (_, ap (receive_at s ref) stored)

-- Closing the stream does not panic. What waits in the channel is kept, and the id is forgotten.
pub close_stream-Holds :
    (s : ShoreConnection) (id : Bytes) (ref : ℕ) (q : List StreamFrameMessage)
    → Holds s id ref q
    → (s' : ShoreConnection) × (close_stream s id ≡ some s')
      × IsEnded s' ref q
      × (find_stream s' id ≡ none)
unfolding close_stream close_found remove_stream close_frames close_chan find_stream
close_stream-Holds s id ref q v =
    let ch : Chan StreamFrameMessage = record { buffer = q; cap = 32; closed = true } in
    let s0 : ShoreConnection = record s { streams = delete id s.streams } in
    (
      record s0 { frames = set s.frames ref ch },
      ap (λ (o : Option ℕ). close_found (s0, o)) v.known ∙ closing s0 v.stored,
      get_elem?-set_self s.frames ref ch _ v.stored,
      lookup-delete_self id s.streams,
    )
  where
    closing :
        (t : ShoreConnection)
        → get_elem? t.frames ref ≡ some (record { buffer = q; cap = 32; closed = false })
        → close_frames t ref
          ≡ some (record t {
            frames = set t.frames ref (record { buffer = q; cap = 32; closed = true });
          })
    closing t h = rw (close_frames, h) refl
