-- ===== src/Shore/Actions.antt =====
-- Whole operations of a Shore in sequence: none panics.
use dock.Base.{
  ℕ, refl, inl, inr, Bool, List, [], ◌∷◌, Option, none, some, arith, Bytes, Option-cases,
  Bool-cases,
}
use dock.Protocol.{HttpRequestMessage, HttpResponseMessage, StreamStartMessage, StreamFrameMessage}
use dock.Shore.Linked.{delete-Linked}
use dock.Shore.Invariant.{
  IsValid, IsWaiting, Keeps, send_http_request-IsValid, deliver_response-IsValid,
  open_stream-IsValid, deliver_frame-IsValid, close_stream-IsValid, receive_frame-IsValid,
}
use dock.Shore.{
  ShoreConnection, send_http_request, deliver_response, open_stream, deliver_frame, close_stream,
  receive_frame, cancel_pending_request, close,
}

-- What the goroutines that share a Shore do to it, one whole operation at a time.
pub data Action : Type 0 where
  sends : HttpRequestMessage → Bool → Action
  responds : HttpResponseMessage → Action
  opens : StreamStartMessage → Bool → Action
  delivers : StreamFrameMessage → Action
  ends cancels : Bytes → Action
  reads : ℕ → Action
  pings : ℕ → Action
  closes : Action

abbrev pub after_read :
    ShoreConnection → Option (Option StreamFrameMessage × ShoreConnection) → ShoreConnection
after_read s none = s
after_read s (some (got, s')) = s'

-- none for a panic
unfoldable pub act : ShoreConnection → Action → Option ShoreConnection
act s (sends msg sent) = some (send_http_request s msg sent).0
act s (responds resp) = deliver_response s resp
act s (opens msg sent) = some (open_stream s msg sent).0
act s (delivers frame) = deliver_frame s frame
act s (ends id) = close_stream s id
act s (cancels id) = some (cancel_pending_request s id)
act s (reads ref) = some (after_read s (receive_frame s ref))
act s (pings now) = some (record s { last_ping = now })
act s closes = some (close s)

unfoldable pub act_all : ShoreConnection → List Action → Option ShoreConnection
act_all s [] = some s
act_all s (a ∷ later) = elim (act s a) [ none ↦ none | some s' ↦ act_all s' later ]

after_read-IsValid :
    (s : ShoreConnection) (ref : ℕ) → IsValid s → IsValid (after_read s (receive_frame s ref))
after_read-IsValid s ref v = elim (Option-cases (receive_frame s ref)) [
  | inl e ↦ rw e v
  | inr ((got, s'), e) ↦ rw e (receive_frame-IsValid s s' ref got e v)
]

pub close-IsValid : (s : ShoreConnection) → IsValid s → IsValid (close s)
unfolding close
close-IsValid s v = elim (Bool-cases s.done) [
  | inl again ↦ rw again (record { pending = v.pending; streams = v.streams })
  | inr first ↦ rw first (record { pending = v.pending; streams = v.streams })
]

pub act-IsValid : (s : ShoreConnection) (a : Action) → IsValid s → Keeps (act s a)
unfolding act
act-IsValid s (sends msg sent) v = (_, refl, send_http_request-IsValid s msg sent v)
act-IsValid s (responds resp) v = deliver_response-IsValid s resp v
act-IsValid s (opens msg sent) v = (_, refl, open_stream-IsValid s msg sent v)
act-IsValid s (delivers frame) v = deliver_frame-IsValid s frame v
act-IsValid s (ends id) v = close_stream-IsValid s id v
act-IsValid s (cancels id) v = (
  _,
  refl,
  unfold cancel_pending_request in
      record {
        pending = delete-Linked IsWaiting id s.pending s.replies v.pending;
        streams = v.streams;
      },
)
act-IsValid s (reads ref) v = (_, refl, after_read-IsValid s ref v)
act-IsValid s (pings now) v = (_, refl, record { pending = v.pending; streams = v.streams })
act-IsValid s closes v = (_, refl, close-IsValid s v)

-- From a Shore whose pending requests and streams lead to channels of their own that are open, the
-- pending ones empty, no sequence of whole operations panics, and that stays so.
pub act_all-IsValid :
    (s : ShoreConnection) (acts : List Action) → IsValid s → Keeps (act_all s acts)
unfolding act_all
act_all-IsValid s [] v = (s, refl, v)
act_all-IsValid s (a ∷ later) v =
    let (s', done_a, v') = act-IsValid s a v in
    let (t, rest, w) = act_all-IsValid s' later v' in (t, ground arith, w)
