-- ===== src/Connect/ReadLoop/Kept.antt =====
-- A round of a read loop leaves the Shore's name as it is, and does not close it.
use dock.Base.{refl, ℕ, Bool, true, false, Option, none, some}
use dock.Shore.{ShoreConnection}
use dock.Shore.Kept.{
  Kept, KeptIn, write_json-Kept, deliver_response-KeptIn, deliver_frame-KeptIn, close_stream-KeptIn,
}
use dock.Connect.ReadLoop.{
  Incoming, fails, bad, ping, http_response, stream_frame, stream_end, Round, panics, returns,
  continues, delivered, answered_ping, read_round,
}

abbrev pub KeptOn : ShoreConnection → Round → Type 0
KeptOn s panics = Unit
KeptOn s (returns s') = Kept s s'
KeptOn s (continues s') = Kept s s'

delivered-KeptOn :
    (s : ShoreConnection) (o : Option ShoreConnection) → KeptIn s o → KeptOn s (delivered o)
unfolding delivered
delivered-KeptOn s none k = tt
delivered-KeptOn s (some s') k = k

answered_ping-KeptOn :
    (s : ShoreConnection) (o : ShoreConnection × Bool) → Kept s o.0 → KeptOn s (answered_ping o)
unfolding answered_ping
answered_ping-KeptOn s (s', true) k = k
answered_ping-KeptOn s (s', false) k = k

pub read_round-KeptOn :
    (s : ShoreConnection) (now : ℕ) (sent : Bool) (msg : Incoming)
    → KeptOn s (read_round s now sent msg)
unfolding read_round
read_round-KeptOn s now sent fails = (refl, refl, λ m. m)
read_round-KeptOn s now sent bad = (refl, refl, λ m. m)
read_round-KeptOn s now sent ping =
    answered_ping-KeptOn s _ (write_json-Kept (record s { last_ping = now }) _ sent tt)
read_round-KeptOn s now sent (http_response resp) =
    delivered-KeptOn s _ (deliver_response-KeptIn s resp)
read_round-KeptOn s now sent (stream_frame frame) =
    delivered-KeptOn s _ (deliver_frame-KeptIn s frame)
read_round-KeptOn s now sent (stream_end end) = delivered-KeptOn s _ (close_stream-KeptIn s end.id)
