-- ===== src/Shore/Tests.antt =====
-- Tests and witnesses for one connected Shore.
use dock.Base.{
  ◌≡◌, refl, true, false, [], ◌∷◌, none, some, arith, Bytes_eq, codes, lookup, insert, delete,
  bytes_eq, get_elem?, All, List,
}
use dock.Protocol.{
  HttpRequestMessage, HttpResponseMessage, StreamStartMessage, StreamFrameMessage,
  msg_type_http_request, msg_type_http_response, msg_type_stream_start, msg_type_stream_frame,
  http_request, stream_start,
}
use dock.Shore.{
  ShoreConnection, new_connection, write_json, send_http_request, deliver_response, deliver_frame,
  open_stream, find_stream, send_frame, close_stream,
}
use dock.Shore.Invariant.{IsValid, Keeps}
use dock.Shore.Actions.{
  sends, responds, opens, delivers, ends, reads, closes, Action, act, act_all, act_all-IsValid,
}
use dock.Shore.Crosstalk.{all_requested, all_opened, replies-own, frames-own}
use dock.Shore.Streams.{Holds, deliver_frames, deliver_frames-bounded, deliver_close_race}

abbrev fresh_shore : ShoreConnection
unfolding new_connection
fresh_shore = new_connection (codes "shore-a") (codes "ann") [] (codes "1.2.3.4:5") 0

fresh-IsValid : IsValid fresh_shore
unfolding new_connection
fresh-IsValid = record {
  pending = record {
    leads = λ id ref h. unfold lookup in cc;
    single = λ i j ref h k. unfold lookup in cc;
  };
  streams = record {
    leads = λ id ref h. unfold lookup in cc;
    single = λ i j ref h k. unfold lookup in cc;
  };
}

abbrev a_request : HttpRequestMessage
a_request = record {
  msg_type = msg_type_http_request;
  id = codes "r1";
  method = codes "GET";
  path = codes "/x";
  headers = [];
  body = none;
}

abbrev a_response : HttpResponseMessage
a_response = record {
  msg_type = msg_type_http_response;
  id = codes "r1";
  status = 200;
  headers = [];
  body = [];
}

abbrev a_start : StreamStartMessage
a_start = record {
  msg_type = msg_type_stream_start;
  id = codes "s1";
  method = codes "GET";
  path = codes "/x";
  headers = [];
}

abbrev a_frame : StreamFrameMessage
a_frame = record { msg_type = msg_type_stream_frame; id = codes "s1"; text = codes "data: 1" }

-- One open stream, on channel 0.
abbrev streaming : ShoreConnection
streaming = record fresh_shore {
  streams = (codes "s1", 0) ∷ [];
  frames = record { buffer = []; cap = 32; closed = false } ∷ [];
}

open_stream-test : (open_stream fresh_shore a_start true).0.streams ≡ streaming.streams
unfolding open_stream new_connection write_json insert delete
open_stream-test = refl

act_all-IsValid_example : Keeps (
    act_all fresh_shore (
      sends a_request true
      ∷ opens a_start true
      ∷ delivers a_frame
      ∷ responds a_response
      ∷ reads 0
      ∷ ends (codes "s1")
      ∷ delivers a_frame
      ∷ closes
      ∷ []))
act_all-IsValid_example = act_all-IsValid fresh_shore _ fresh-IsValid

streaming-Holds : Holds streaming (codes "s1") 0 []
unfolding new_connection
streaming-Holds = record { known = unfold find_stream lookup bytes_eq in refl; stored = refl }

deliver_frames-bounded_example :
    (t : ShoreConnection) × (deliver_frames streaming (a_frame ∷ a_frame ∷ []) ≡ some t)
    × (get_elem? t.frames 0
        ≡ some (record { buffer = a_frame ∷ a_frame ∷ []; cap = 32; closed = false }))
deliver_frames-bounded_example =
    deliver_frames-bounded streaming (codes "s1") 0 [] (a_frame ∷ a_frame ∷ []) (refl, (refl, tt))
      (omega arith) streaming-Holds

-- The stream of `streaming` after a close.
abbrev stream_closed : ShoreConnection
stream_closed = record streaming {
  streams = [];
  frames = record { buffer = []; cap = 32; closed = true } ∷ [];
}

deliver_close_race_example : send_frame stream_closed 0 a_frame ≡ none
unfolding new_connection find_stream close_stream lookup delete bytes_eq
deliver_close_race_example =
    deliver_close_race streaming stream_closed (codes "s1") 0 a_frame refl refl

-- Two requests, and an answer to the second one and then to the first.
abbrev crossing : List Action
crossing =
    sends a_request true
    ∷ sends (record a_request { id = codes "r2" }) true
    ∷ responds (record a_response { id = codes "r2" })
    ∷ responds a_response
    ∷ []

abbrev after_crossing : ShoreConnection
unfolding new_connection
after_crossing = record (new_connection (codes "shore-a") (codes "ann") [] (codes "1.2.3.4:5") 0) {
  replies =
      record { buffer = a_response ∷ []; cap = 1; closed = false }
      ∷ record { buffer = record a_response { id = codes "r2" } ∷ []; cap = 1; closed = false }
      ∷ [];
  outbox = http_request a_request ∷ http_request (record a_request { id = codes "r2" }) ∷ [];
}

crossing-eq :
    act_all (new_connection (codes "shore-a") (codes "ann") [] (codes "1.2.3.4:5") 0) crossing
    ≡ some after_crossing
unfolding act_all act send_http_request deliver_response write_json new_connection lookup insert
    delete bytes_eq
crossing-eq = refl

replies-own_example :
    All
      (λ resp. get_elem? (all_requested crossing) 1 ≡ some resp.id)
      (record a_response { id = codes "r2" } ∷ [])
unfolding after_crossing
replies-own_example =
    replies-own (codes "shore-a") (codes "ann") [] (codes "1.2.3.4:5") 0 crossing after_crossing 1
      (record { buffer = record a_response { id = codes "r2" } ∷ []; cap = 1; closed = false })
      crossing-eq refl

-- A stream, and a frame for it and one for no stream.
abbrev framing : List Action
framing = opens a_start true ∷ delivers (record a_frame { id = codes "s2" }) ∷ delivers a_frame ∷ []

abbrev after_framing : ShoreConnection
unfolding new_connection
after_framing = record (new_connection (codes "shore-a") (codes "ann") [] (codes "1.2.3.4:5") 0) {
  streams = (codes "s1", 0) ∷ [];
  frames = record { buffer = a_frame ∷ []; cap = 32; closed = false } ∷ [];
  outbox = stream_start a_start ∷ [];
}

framing-eq :
    act_all (new_connection (codes "shore-a") (codes "ann") [] (codes "1.2.3.4:5") 0) framing
    ≡ some after_framing
unfolding act_all act open_stream deliver_frame find_stream send_frame write_json new_connection
    lookup insert delete bytes_eq dock.Shore.Channel.try_send
framing-eq = refl

frames-own_example : All (λ frame. get_elem? (all_opened framing) 0 ≡ some frame.id) (a_frame ∷ [])
unfolding after_framing
frames-own_example =
    frames-own (codes "shore-a") (codes "ann") [] (codes "1.2.3.4:5") 0 framing after_framing 0
      (record { buffer = a_frame ∷ []; cap = 32; closed = false }) framing-eq refl
