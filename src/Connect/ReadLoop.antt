-- ===== src/Connect/ReadLoop.antt =====
-- shore_handler.go, `runShoreReadLoop`: what each message of a Shore does to it.
pub mod Kept
use dock.Base.{
  ℕ, ◌≡◌, ◌/◌, refl, Bool, true, false, List, [], ◌∷◌, Option, none, some, arith, Bytes_eq,
  Bool-cases, inl, inr,
}
use dock.Session.{second}
use dock.Protocol.{
  HttpResponseMessage, StreamFrameMessage, StreamEndMessage, Outgoing, pong, msg_type_pong,
}
use dock.Shore.{ShoreConnection, write_json, deliver_response, deliver_frame, close_stream}
use dock.Shore.Invariant.{
  IsValid, Keeps, deliver_response-IsValid, deliver_frame-IsValid, close_stream-IsValid,
}

-- What `ReadMessage` gives: an error, or a message by its type. `bad` is one whose JSON cannot be read,
-- or of a type that the switch does not know.
pub data Incoming : Type 0 where
  fails : Incoming
  bad : Incoming
  ping : Incoming
  http_response : HttpResponseMessage → Incoming
  stream_frame : StreamFrameMessage → Incoming
  stream_end : StreamEndMessage → Incoming

-- How a round of the loop ends.
pub data Round : Type 0 where
  panics : Round
  returns : ShoreConnection → Round
  continues : ShoreConnection → Round

delivered : Option ShoreConnection → Round
delivered none = panics
delivered (some s) = continues s

answered_ping : ShoreConnection × Bool → Round
answered_ping (s, true) = continues s
answered_ping (s, false) = returns s

-- One round, at time `now`, with whether the socket takes a message
unfoldable pub read_round : ShoreConnection → ℕ → Bool → Incoming → Round
unfolding delivered answered_ping
read_round s now sent fails = returns s
read_round s now sent bad = continues s
read_round s now sent ping =
    let s' : ShoreConnection = record s { last_ping = now } in
    answered_ping
      (write_json s' (pong (record { msg_type = msg_type_pong; ts = now / second })) sent)
read_round s now sent (http_response resp) = delivered (deliver_response s resp)
read_round s now sent (stream_frame frame) = delivered (deliver_frame s frame)
read_round s now sent (stream_end end) = delivered (close_stream s end.id)

-- The loop over what the socket brings, each with its time and whether an answer is taken. When
-- nothing more has come, it is still waiting.
unfoldable pub read_loop : ShoreConnection → List (ℕ × Bool × Incoming) → Round
read_loop s [] = continues s
read_loop s ((now, sent, msg) ∷ later) = elim (read_round s now sent msg) [
  | panics ↦ panics
  | returns s' ↦ returns s'
  | continues s' ↦ read_loop s' later
]

-- The round does not panic, and the invariant holds of the Shore that it leaves.
abbrev pub Fine : Round → Type 0
Fine panics = ⊥
Fine (returns s) = IsValid s
Fine (continues s) = IsValid s

delivered-Fine : (o : Option ShoreConnection) → Keeps o → Fine (delivered o)
unfolding delivered
delivered-Fine none (s, e, v) = cc
delivered-Fine (some t) (s, e, v) = ground (arith, e, v)

answered_ping-Fine :
    (s : ShoreConnection) (v : Outgoing) (sent : Bool)
    → IsValid s
    → Fine (answered_ping (write_json s v sent))
unfolding answered_ping write_json
answered_ping-Fine s v false w = w
answered_ping-Fine s v true w = elim (Bool-cases s.hung_up) [
  | inl t ↦ rw t (record { pending = w.pending; streams = w.streams })
  | inr f ↦ rw f (record { pending = w.pending; streams = w.streams })
]

pub read_round-Fine :
    (s : ShoreConnection) (now : ℕ) (sent : Bool) (msg : Incoming)
    → IsValid s
    → Fine (read_round s now sent msg)
unfolding read_round
read_round-Fine s now sent fails v = v
read_round-Fine s now sent bad v = v
read_round-Fine s now sent ping v =
    answered_ping-Fine (record s { last_ping = now }) _ sent
      (record { pending = v.pending; streams = v.streams })
read_round-Fine s now sent (http_response resp) v =
    delivered-Fine _ (deliver_response-IsValid s resp v)
read_round-Fine s now sent (stream_frame frame) v =
    delivered-Fine _ (deliver_frame-IsValid s frame v)
read_round-Fine s now sent (stream_end end) v = delivered-Fine _ (close_stream-IsValid s end.id v)

-- What the loop does after a round.
read_loop-round :
    (s : ShoreConnection) (now : ℕ) (sent : Bool) (msg : Incoming)
    (later : List (ℕ × Bool × Incoming)) (o : Round)
    → read_round s now sent msg ≡ o
    → Fine o
    → ((s' : ShoreConnection) → IsValid s' → Fine (read_loop s' later))
    → Fine (read_loop s ((now, sent, msg) ∷ later))
unfolding read_loop
read_loop-round s now sent msg later panics e f on = absurd f
read_loop-round s now sent msg later (returns s') e f on = rw (read_loop, e) f
read_loop-round s now sent msg later (continues s') e f on = rw (read_loop, e) (on s' f)

-- Whatever a Shore sends, as long as no other goroutine works on it at the same time, its read loop
-- does not panic if the pending requests and the streams lead to open channels of their own to
-- begin with, and they still do when it ends or waits.
pub read_loop-Fine :
    (s : ShoreConnection) (msgs : List (ℕ × Bool × Incoming)) → IsValid s → Fine (read_loop s msgs)
unfolding read_loop
read_loop-Fine s [] v = v
read_loop-Fine s ((now, sent, msg) ∷ later) v =
    read_loop-round s now sent msg later (read_round s now sent msg) refl
      (read_round-Fine s now sent msg v) (λ s' v'. read_loop-Fine s' later v')
