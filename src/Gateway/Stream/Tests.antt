-- ===== src/Gateway/Stream/Tests.antt =====
-- Tests and witnesses for event streams.
use dock.Base.{
  ℕ, ◌≤◌, ◌≡◌, refl, false, List, [], ◌∷◌, ◌++◌, none, some, arith, Bytes, Bytes_eq, codes, lookup,
  bytes_eq,
}
use dock.Protocol.{StreamFrameMessage}
use dock.Shore.{ShoreConnection, find_stream, deliver_frame, close_stream}
use dock.Shore.Streams.{Holds}
use dock.Http.Writer.{Writer, new_writer}
use dock.Gateway.Stream.{
  frame_ready, client_gone, shore_gone, returns, stream_round, stream_loop, Turn, arrives, takes,
  turns,
}
use dock.Gateway.Stream.Order.{text_of, accepted}
use dock.Gateway.Stream.Ends.{taking, stream-ended, client_gone-forgets}

abbrev id : Bytes
id = codes "a1"

abbrev frame : Bytes → StreamFrameMessage
frame text = record { msg_type = codes "stream_frame"; id = id; text = text }

-- A Shore with one stream that is open and empty.
abbrev s : ShoreConnection
s = record {
  name = codes "shore-tower";
  owner = codes "ann";
  services = [];
  last_ping = 0;
  connected = 0;
  remote_addr = [];
  pending = [];
  streams = (id, 0) ∷ [];
  replies = [];
  frames = record { buffer = []; cap = 32; closed = false } ∷ [];
  outbox = [];
  done = false;
  hung_up = false;
}

s-Holds : Holds s id 0 []
s-Holds = record {
  known = unfold find_stream in unfold lookup in unfold bytes_eq in refl;
  stored = refl;
}

abbrev w : Writer
w = record new_writer { sent = some (200, [], []) }

abbrev some_turns : List Turn
some_turns =
    takes ∷ arrives (frame (codes "one\n\n")) ∷ arrives (frame (codes "two\n\n")) ∷ takes ∷ []

stream-ended_example :
    (s' : ShoreConnection) × (w' : Writer) × (t : ShoreConnection) × (n : ℕ)
    × (t' : ShoreConnection) × (w'' : Writer) × (turns s 0 id w some_turns ≡ some (s', w'))
    × (close_stream s' id ≡ some t)
    × (n ≤ 33)
    × (stream_loop t 0 id w' (taking n) ≡ returns t' w'')
    × (w''.body ≡ [] ++ text_of ([] ++ accepted 0 some_turns))
stream-ended_example =
    stream-ended id 0 (200, [], []) s w [] some_turns refl (tt, (refl, (refl, (tt, tt))))
      (omega arith) s-Holds

both_texts : text_of (accepted 0 some_turns) ≡ codes "one\n\ntwo\n\n"
both_texts = refl

client_gone-forgets_example :
    (s' : ShoreConnection) × (w' : Writer) × (t : ShoreConnection) × (turns s 0 id w some_turns
      ≡ some (s', w'))
    × (stream_round s' 0 id w' client_gone ≡ returns t w')
    × (find_stream t id ≡ none)
    × (deliver_frame t (frame (codes "late")) ≡ some t)
client_gone-forgets_example =
    client_gone-forgets id 0 (200, [], []) s w [] some_turns (frame (codes "late")) refl
      (tt, (refl, (refl, (tt, tt)))) (omega arith) s-Holds refl

-- The handler returns when the Shore's connection is closed, and waits while nothing comes.
shore_gone_returns : stream_loop s 0 id w (shore_gone ∷ frame_ready ∷ []) ≡ returns s w
unfolding stream_loop
shore_gone_returns = refl
