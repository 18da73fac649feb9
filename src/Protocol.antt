-- ===== src/Protocol.antt =====
-- protocol.go: the messages between Dock and a Shore. A `map[string]string` is an association list
-- and a `*string` an Option.
pub mod Codec
pub mod Trip
use dock.Base.Decimal.{Int64}
use dock.Base.{ℕ, List, Option, Bytes, codes, Map}

abbrev pub msg_type_http_request : Bytes
msg_type_http_request = codes "http_request"

abbrev pub msg_type_http_response : Bytes
msg_type_http_response = codes "http_response"

abbrev pub msg_type_register : Bytes
msg_type_register = codes "register"

abbrev pub msg_type_ping : Bytes
msg_type_ping = codes "ping"

abbrev pub msg_type_pong : Bytes
msg_type_pong = codes "pong"

abbrev pub msg_type_stream_start : Bytes
msg_type_stream_start = codes "stream_start"

abbrev pub msg_type_stream_frame : Bytes
msg_type_stream_frame = codes "stream_frame"

abbrev pub msg_type_stream_end : Bytes
msg_type_stream_end = codes "stream_end"

abbrev pub Headers : Type 0
Headers = Map Bytes Bytes

-- Shore → Dock, first of all
pub record RegisterMessage : Type 0 where
  pub msg_type : Bytes
  pub name : Bytes
  pub owner : Bytes
  pub services : List Bytes
  pub version : Bytes

-- Shore → Dock
pub record PingMessage : Type 0 where
  pub msg_type : Bytes
  pub ts : Int64

-- Dock → Shore
pub record PongMessage : Type 0 where
  pub msg_type : Bytes
  pub ts : ℕ

-- Dock → Shore; the body is base64
pub record HttpRequestMessage : Type 0 where
  pub msg_type : Bytes
  pub id : Bytes
  pub method : Bytes
  pub path : Bytes
  pub headers : Headers
  pub body : Option Bytes

-- Shore → Dock; the body is base64, empty for none. The status is not negative here.
pub record HttpResponseMessage : Type 0 where
  pub msg_type : Bytes
  pub id : Bytes
  pub status : ℕ
  pub headers : Headers
  pub body : Bytes

-- Dock → Shore
pub record StreamStartMessage : Type 0 where
  pub msg_type : Bytes
  pub id : Bytes
  pub method : Bytes
  pub path : Bytes
  pub headers : Headers

-- Shore → Dock; `text` is the Go field Data
pub record StreamFrameMessage : Type 0 where
  pub msg_type : Bytes
  pub id : Bytes
  pub text : Bytes

-- Shore → Dock
pub record StreamEndMessage : Type 0 where
  pub msg_type : Bytes
  pub id : Bytes

-- What Dock puts on a Shore's socket.
pub data Outgoing : Type 0 where
  http_request : HttpRequestMessage → Outgoing
  stream_start : StreamStartMessage → Outgoing
  pong : PongMessage → Outgoing
