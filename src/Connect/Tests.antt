-- ===== src/Connect/Tests.antt =====
-- Tests and witnesses for the handshake.
use dock.Base.{
  Bytes, ltb, if◌then◌else◌, ℕ, ◌*◌, false, Bool, lookup, ◌≡◌, refl, true, List, [], ◌∷◌, some,
  Bytes_eq, codes, bytes_eq,
}
use dock.Session.{second}
use dock.Json.{obj, field, end, str, null, integer, scan_fields, read_string}
use dock.Protocol.{HttpResponseMessage, msg_type_http_response, msg_type_stream_frame}
use dock.Protocol.Codec.{peek_type, decode_stream_frame, decode_stream_end}
use dock.Connect.ReadLoop.{bad, stream_frame}
use dock.Connect.Messages.{sends_frame, encode_from_shore, incoming}
use dock.Shore.Invariant.{IsValid}
use dock.Connect.ReadLoop.{Incoming, ping, stream_end}
use dock.Protocol.{msg_type_stream_end, RegisterMessage, msg_type_register}
use dock.Shore.{ShoreConnection, new_connection}

abbrev hello : RegisterMessage
hello = record {
  msg_type = msg_type_register;
  name = codes "shore-b";
  owner = codes "ann";
  services = [];
  version = [];
}

abbrev a_shore : ShoreConnection
unfolding new_connection
a_shore = new_connection (codes "shore-a") (codes "ann") [] [] 0

a_shore-IsValid : IsValid a_shore
unfolding new_connection
a_shore-IsValid = record {
  pending = record {
    leads = λ id ref h. unfold lookup in cc;
    single = λ i j ref h k. unfold lookup in cc;
  };
  streams = record {
    leads = λ id ref h. unfold lookup in cc;
    single = λ i j ref h k. unfold lookup in cc;
  };
}

abbrev three : List (ℕ × Bool × Incoming)
three =
    (second, true, ping)
    ∷ (second, true, stream_end (record { msg_type = msg_type_stream_end; id = codes "s1" }))
    ∷ (2 * second, false, ping)
    ∷ []

abbrev a_response : HttpResponseMessage
a_response = record {
  msg_type = msg_type_http_response;
  id = codes "id1";
  status = 200;
  headers = (codes "Content-Type", codes "text/plain") ∷ [];
  body = codes "aGk=";
}

-- Valid UTF-8 of the ASCII kind: a byte above it becomes U+FFFD.
ascii : Bytes → Bytes
ascii [] = []
ascii (b ∷ s) = let rest = ascii s in if ltb b 128 then b ∷ rest else 0xEF ∷ 0xBF ∷ 0xBD ∷ rest

-- The text of a frame that is not comes out as another one.
coerced_text :
    incoming (
      some (
        some (
          encode_from_shore ascii (
            sends_frame
              (record { msg_type = msg_type_stream_frame; id = codes "s1"; text = 255 ∷ [] })))))
    ≡ stream_frame (record {
      msg_type = msg_type_stream_frame;
      id = codes "s1";
      text = 0xEF ∷ 0xBF ∷ 0xBD ∷ [];
    })
unfolding incoming encode_from_shore dock.Protocol.Codec.encode_stream_frame peek_type
    decode_stream_frame scan_fields read_string bytes_eq ascii
coerced_text = refl

-- A key counts in any case, the last one that matches counts, and unknown ones do not.
odd_keys :
    incoming (
      some (
        some (
          obj (
            field (codes "type") (str (codes "ping")) (
              field (codes "Data") (str (codes "x")) (
                field (codes "more") null (
                  field
                    (codes "TYPE")
                    (str msg_type_stream_frame)
                    (field (codes "Id") (str (codes "s1")) end))))))))
    ≡ stream_frame (record { msg_type = msg_type_stream_frame; id = codes "s1"; text = codes "x" })
unfolding incoming peek_type decode_stream_frame scan_fields read_string bytes_eq
odd_keys = refl

-- A message whose id is a number is skipped.
bad_kind :
    incoming (
      some (
        some (
          obj (
            field
              (codes "type")
              (str msg_type_stream_end)
              (field (codes "id") (integer false 1) end)))))
    ≡ bad
unfolding incoming peek_type decode_stream_end scan_fields read_string bytes_eq
bad_kind = refl
