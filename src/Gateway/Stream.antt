-- ===== src/Gateway/Stream.antt =====
-- gateway.go, `handleSSERequest`: its loop, for a stream `id` whose frames come through the channel
-- `ref`.
pub mod Order
pub mod Ends
mod Tests
use dock.Base.{ℕ, List, [], ◌∷◌, Option, none, some, Bytes, ◌++◌}
use dock.Protocol.{StreamFrameMessage}
use dock.Shore.{ShoreConnection, receive_frame, close_stream, deliver_frame}
use dock.Http.Writer.{Writer, write}

-- The case of the `select` that is taken.
pub data Chosen : Type 0 where
  frame_ready client_gone shore_gone : Chosen

-- What a round comes to: another one, the end of the handler, a wait, or a panic.
pub data Round : Type 0 where
  again : ShoreConnection → Writer → Round
  returns : ShoreConnection → Writer → Round
  blocked panics : Round

unfoldable pub frame_round : Writer → Option (Option StreamFrameMessage × ShoreConnection) → Round
frame_round w none = blocked
frame_round w (some (none, s)) = returns s w
frame_round w (some (some frame, s)) = again s (write w frame.text)

leave_round : Writer → Option ShoreConnection → Round
leave_round w none = panics
leave_round w (some s) = returns s w

-- One round of the loop
unfoldable pub stream_round : ShoreConnection → ℕ → Bytes → Writer → Chosen → Round
unfolding frame_round leave_round
stream_round s ref id w frame_ready = frame_round w (receive_frame s ref)
stream_round s ref id w client_gone = leave_round w (close_stream s id)
stream_round s ref id w shore_gone = returns s w

-- The loop, for the cases that its rounds take
unfoldable pub stream_loop : ShoreConnection → ℕ → Bytes → Writer → List Chosen → Round
unfolding stream_round
stream_loop s ref id w [] = again s w
stream_loop s ref id w (c ∷ cs) = elim (stream_round s ref id w c) [
  | again s' w' ↦ stream_loop s' ref id w' cs
  | returns s' w' ↦ returns s' w'
  | blocked ↦ blocked
  | panics ↦ panics
]

-- What the read loop and the handler do to the stream by turns: a frame arrives, or the handler takes
-- one, if there is one.
pub data Turn : Type 0 where
  arrives : StreamFrameMessage → Turn
  takes : Turn

after_take : ShoreConnection → Writer → Round → Option (ShoreConnection × Writer)
after_take s w (again s' w') = some (s', w')
after_take s w (returns s' w') = some (s', w')
after_take s w blocked = some (s, w)
after_take s w panics = none

after_arrival : Writer → Option ShoreConnection → Option (ShoreConnection × Writer)
after_arrival w none = none
after_arrival w (some s) = some (s, w)

-- One turn: none for a panic.
unfoldable pub turn :
    ShoreConnection → ℕ → Bytes → Writer → Turn → Option (ShoreConnection × Writer)
unfolding after_take after_arrival stream_round
turn s ref id w (arrives frame) = after_arrival w (deliver_frame s frame)
turn s ref id w takes = after_take s w (stream_round s ref id w frame_ready)

unfoldable pub turns :
    ShoreConnection → ℕ → Bytes → Writer → List Turn → Option (ShoreConnection × Writer)
unfolding turn
turns s ref id w [] = some (s, w)
turns s ref id w (t ∷ ts) = elim (turn s ref id w t) [
  | none ↦ none
  | some (s', w') ↦ turns s' ref id w' ts
]
