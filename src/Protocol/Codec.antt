-- ===== src/Protocol/Codec.antt =====
-- protocol.go: the messages as JSON, by the tags of their fields.
use dock.Base.{ℕ, true, false, [], ◌∷◌, Option, none, some, Bytes, map, Bytes_eq, codes}
use dock.Base.Decimal.{Int64}
use dock.Json.{
  Json, null, integer, str, arr, obj, Fields, end, field, ◌>>=◌, scan_fields, read_string, read_int,
  read_strings, read_map, strings_json, map_json,
}
use dock.Protocol.{
  Headers, RegisterMessage, PingMessage, PongMessage, HttpRequestMessage, HttpResponseMessage,
  StreamStartMessage, StreamFrameMessage, StreamEndMessage, Outgoing, http_request, stream_start,
  pong,
}

-- The fields that json.Unmarshal reads into a struct that is zero: null has none.
unfoldable pub fields_of : Json → Option Fields
fields_of null = some end
fields_of (obj fs) = some fs
fields_of _ = none

-- `peekType`
unfoldable pub peek_type : Json → Option Bytes
unfolding fields_of
peek_type v = do fs ← fields_of v; scan_fields read_string (codes "type") [] fs

unfoldable pub decode_register : Json → Option RegisterMessage
unfolding fields_of
decode_register v = do
  fs ← fields_of v
  msg_type ← scan_fields read_string (codes "type") [] fs
  name ← scan_fields read_string (codes "name") [] fs
  owner ← scan_fields read_string (codes "owner") [] fs
  services ← scan_fields read_strings (codes "services") [] fs
  version ← scan_fields read_string (codes "version") [] fs
  some (record {
    msg_type = msg_type;
    name = name;
    owner = owner;
    services = services;
    version = version;
  })

-- A negative status is read as 0, since `WriteHeader` panics on it as on 0.
unfoldable pub status_of : Int64 → ℕ
status_of (true, n) = 0
status_of (false, n) = n

unfoldable pub decode_http_response : Json → Option HttpResponseMessage
unfolding fields_of status_of
decode_http_response v = do
  fs ← fields_of v
  msg_type ← scan_fields read_string (codes "type") [] fs
  id ← scan_fields read_string (codes "id") [] fs
  status ← scan_fields read_int (codes "status") (false, 0) fs
  headers ← scan_fields read_map (codes "headers") [] fs
  body ← scan_fields read_string (codes "body") [] fs
  some (record {
    msg_type = msg_type;
    id = id;
    status = status_of status;
    headers = headers;
    body = body;
  })

unfoldable pub decode_stream_frame : Json → Option StreamFrameMessage
unfolding fields_of
decode_stream_frame v = do
  fs ← fields_of v
  msg_type ← scan_fields read_string (codes "type") [] fs
  id ← scan_fields read_string (codes "id") [] fs
  text ← scan_fields read_string (codes "data") [] fs
  some (record { msg_type = msg_type; id = id; text = text })

unfoldable pub decode_stream_end : Json → Option StreamEndMessage
unfolding fields_of
decode_stream_end v = do
  fs ← fields_of v
  msg_type ← scan_fields read_string (codes "type") [] fs
  id ← scan_fields read_string (codes "id") [] fs
  some (record { msg_type = msg_type; id = id })

-- json.Marshal makes valid UTF-8 of every string: `utf8`, which puts U+FFFD for what is not.
module _ (utf8 : Bytes → Bytes) where
  unfoldable pub coerced : Headers → Headers
  coerced [] = []
  coerced ((k, v) ∷ h) = (utf8 k, utf8 v) ∷ coerced h

  -- `omitempty`
  unfoldable pub unless_empty : Bytes → Bytes → Fields → Fields
  unless_empty key [] fs = fs
  unless_empty key (c ∷ s) fs = field key (str (utf8 (c ∷ s))) fs

  unfoldable pub encode_register : RegisterMessage → Json
  unfolding unless_empty
  encode_register m = obj (
      field (codes "type") (str (utf8 m.msg_type)) (
        field (codes "name") (str (utf8 m.name)) (
          unless_empty (codes "owner") m.owner (
            field (codes "services") (arr (strings_json (map utf8 m.services)))
              (unless_empty (codes "version") m.version end)))))

  unfoldable pub encode_ping : PingMessage → Json
  encode_ping m = obj (
      field (codes "type") (str (utf8 m.msg_type)) (field (codes "ts") (integer m.ts.0 m.ts.1) end))

  unfoldable pub encode_pong : PongMessage → Json
  encode_pong m =
      obj
        (field (codes "type") (str (utf8 m.msg_type)) (field (codes "ts") (integer false m.ts) end))

  body_json : Option Bytes → Json
  body_json none = null
  body_json (some b) = str (utf8 b)

  unfoldable pub encode_http_request : HttpRequestMessage → Json
  unfolding body_json
  encode_http_request m = obj (
      field (codes "type") (str (utf8 m.msg_type)) (
        field (codes "id") (str (utf8 m.id)) (
          field (codes "method") (str (utf8 m.method)) (
            field (codes "path") (str (utf8 m.path)) (
              field (codes "headers") (obj (map_json (coerced m.headers)))
                (field (codes "body") (body_json m.body) end))))))

  unfoldable pub encode_http_response : HttpResponseMessage → Json
  encode_http_response m = obj (
      field (codes "type") (str (utf8 m.msg_type)) (
        field (codes "id") (str (utf8 m.id)) (
          field (codes "status") (integer false m.status) (
            field (codes "headers") (obj (map_json (coerced m.headers)))
              (field (codes "body") (str (utf8 m.body)) end)))))

  unfoldable pub encode_stream_start : StreamStartMessage → Json
  encode_stream_start m = obj (
      field (codes "type") (str (utf8 m.msg_type)) (
        field (codes "id") (str (utf8 m.id)) (
          field (codes "method") (str (utf8 m.method)) (
            field (codes "path") (str (utf8 m.path))
              (field (codes "headers") (obj (map_json (coerced m.headers))) end)))))

  unfoldable pub encode_stream_frame : StreamFrameMessage → Json
  encode_stream_frame m = obj (
      field (codes "type") (str (utf8 m.msg_type))
        (field (codes "id") (str (utf8 m.id)) (field (codes "data") (str (utf8 m.text)) end)))

  unfoldable pub encode_stream_end : StreamEndMessage → Json
  encode_stream_end m =
      obj (field (codes "type") (str (utf8 m.msg_type)) (field (codes "id") (str (utf8 m.id)) end))

  -- What `WriteJSON` writes of a message
  unfoldable pub encode : Outgoing → Json
  encode (http_request m) = encode_http_request m
  encode (stream_start m) = encode_stream_start m
  encode (pong m) = encode_pong m
