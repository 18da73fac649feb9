-- ===== src/Connect/Messages.antt =====
-- shore_handler.go: what the bytes of a Shore's message are for the handshake and for the read loop.
use dock.Base.{
  ◌≡◌, ◌<◌, ◌^◌, Option, none, some, Bytes, Bytes_eq, lookup, IsMap, ◌==◌, if◌then◌else◌,
}
use dock.Json.{Json}
use dock.Protocol.{
  RegisterMessage, PingMessage, HttpResponseMessage, StreamFrameMessage, StreamEndMessage, Headers,
  msg_type_ping, msg_type_http_response, msg_type_stream_frame, msg_type_stream_end,
}
use dock.Protocol.Codec.{
  peek_type, decode_register, decode_http_response, decode_stream_frame, decode_stream_end,
  encode_ping, encode_http_response, encode_stream_frame, encode_stream_end, encode_register,
}
use dock.Protocol.Trip.{IsText, AreTexts, HasTexts, decode-encode_register}
use dock.Connect.{First, unread, undecoded, decoded}
use dock.Connect.ReadLoop.{Incoming, fails, bad, ping, http_response, stream_frame, stream_end}

-- The first message: none where it cannot be read, `some none` where it is no JSON.
unfoldable pub first_message : Option (Option Json) → First
first_message none = unread
first_message (some none) = undecoded
first_message (some (some v)) = elim (decode_register v) [
  | none ↦ undecoded
  | some reg ↦ decoded reg
]

as_response : Option HttpResponseMessage → Incoming
as_response none = bad
as_response (some m) = http_response m

as_frame : Option StreamFrameMessage → Incoming
as_frame none = bad
as_frame (some m) = stream_frame m

as_end : Option StreamEndMessage → Incoming
as_end none = bad
as_end (some m) = stream_end m

-- The `switch` over the message's type
by_type : Json → Bytes → Incoming
unfolding as_response as_frame as_end
by_type v t =
    if t == msg_type_ping
    then ping
    else if t == msg_type_http_response
    then as_response (decode_http_response v)
    else if t == msg_type_stream_frame
    then as_frame (decode_stream_frame v)
    else if t == msg_type_stream_end
    then as_end (decode_stream_end v)
    else bad

-- A message for the read loop, in the same form.
unfoldable pub incoming : Option (Option Json) → Incoming
unfolding by_type
incoming none = fails
incoming (some none) = bad
incoming (some (some v)) = elim (peek_type v) [ none ↦ bad | some t ↦ by_type v t ]

-- The messages that a Shore sends once it is registered.
pub data FromShore : Type 0 where
  sends_ping : PingMessage → FromShore
  sends_response : HttpResponseMessage → FromShore
  sends_frame : StreamFrameMessage → FromShore
  sends_end : StreamEndMessage → FromShore

-- As json.Marshal encodes it, with the valid UTF-8 that it makes of a string.
unfoldable pub encode_from_shore : (Bytes → Bytes) → FromShore → Json
encode_from_shore utf8 (sends_ping m) = encode_ping utf8 m
encode_from_shore utf8 (sends_response m) = encode_http_response utf8 m
encode_from_shore utf8 (sends_frame m) = encode_stream_frame utf8 m
encode_from_shore utf8 (sends_end m) = encode_stream_end utf8 m

-- The message bears the type of its struct, and a response a status that is an int and headers that
-- are a map.
abbrev pub IsTyped : FromShore → Type 0
IsTyped (sends_ping m) = m.msg_type ≡ msg_type_ping
IsTyped (sends_response m) =
    (m.msg_type ≡ msg_type_http_response) × IsMap m.headers × (m.status < 2 ^ 63)
IsTyped (sends_frame m) = m.msg_type ≡ msg_type_stream_frame
IsTyped (sends_end m) = m.msg_type ≡ msg_type_stream_end

-- All strings of the message are valid UTF-8.
abbrev pub IsValidText : (Bytes → Bytes) → FromShore → Type 0
IsValidText utf8 (sends_ping m) = IsText utf8 m.msg_type
IsValidText utf8 (sends_response m) =
    IsText utf8 m.msg_type × IsText utf8 m.id × IsText utf8 m.body × HasTexts utf8 m.headers
IsValidText utf8 (sends_frame m) = IsText utf8 m.msg_type × IsText utf8 m.id × IsText utf8 m.text
IsValidText utf8 (sends_end m) = IsText utf8 m.msg_type × IsText utf8 m.id

-- What the read loop takes it for.
abbrev pub Understood : FromShore → Incoming → Type 0
Understood (sends_ping m) i = i ≡ ping
Understood (sends_response m) i =
    (h : Headers) × (i ≡ http_response (record m { headers = h }))
    × ((k : Bytes) → lookup k h ≡ lookup k m.headers)
Understood (sends_frame m) i = i ≡ stream_frame m
Understood (sends_end m) i = i ≡ stream_end m

module _ (utf8 : Bytes → Bytes) where
  -- So is the message to register, by the handshake.
  pub first_message-encode :
      (m : RegisterMessage)
      → IsText utf8 m.msg_type
      → IsText utf8 m.name
      → IsText utf8 m.owner
      → AreTexts utf8 m.services
      → IsText utf8 m.version
      → first_message (some (some (encode_register utf8 m))) ≡ decoded m
  unfolding first_message
  first_message-encode m vt vn vo vl vv =
      rw (first_message, decode-encode_register utf8 m vt vn vo vl vv)
