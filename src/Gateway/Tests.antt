-- ===== src/Gateway/Tests.antt =====
-- Tests and witnesses for the gateway.
use mathlib.Core.Option
use dock.Base.{
  Option, ◌≡◌, refl, inl, inr, false, true, [], ◌∷◌, ◌++◌, none, some, arith, Bytes, Bytes_eq,
  codes, lookup, bytes_eq, insert, delete, get_elem?, if◌then◌else◌,
}
use dock.Base.{take}
use dock.Base.Base64.{base64_encode, base64_decode}
use dock.Protocol.{HttpResponseMessage, http_request, msg_type_http_response}
use dock.Http.{header_get}
use dock.Http.Writer.{
  write_status, first_status, write_header, write_body, declared, parse_length, Writer, new_writer,
  set_header, canonical_key,
}
use dock.Gateway.Route.{
  logged, waits, pin, put, body_str, max_body_size, request_message, route_to_shore,
}
use dock.Gateway.Routed.{route-answered, body_str-decodes}
use dock.Gateway.Answer.{Fits, write_http_response, set_headers, write_http_response-encoded}
use dock.Shore.{deliver_response, ShoreConnection, new_connection}
use dock.Registry.{ShoreRegistry, new_shore_registry, register, get_by_owner}
use dock.Http.{Request}
use dock.Gateway.{is_identity, forward_headers, forward_path, resolve_shore}
use dock.Gateway.Path.{forward_path-confused}
use dock.Gateway.Forwarded.{x_dock_user, forward_headers-identity, forward_headers-others}
use dock.Gateway.Resolve.{OwnShore, Chosen, resolve_shore_sound}

abbrev shore_a : ShoreConnection
unfolding new_connection
shore_a = new_connection (codes "shore-a") (codes "ann") [] (codes "1.2.3.4:5") 0

abbrev a_registry : ShoreRegistry
a_registry = record { heap = shore_a ∷ []; shores = (codes "shore-a", 0) ∷ [] }

a_registry-registered : register new_shore_registry shore_a ≡ a_registry
unfolding register new_shore_registry lookup insert delete shore_a
a_registry-registered = refl

abbrev a_req : Request
a_req = record {
  method = codes "GET";
  path = codes "/a/x?y";
  raw_query = [];
  header =
      (codes "X-Dock-User", codes "eve" ∷ [])
      ∷ (codes "X-Forwarded-For", codes "9.9.9.9" ∷ codes "8.8.8.8" ∷ [])
      ∷ (codes "Accept", codes "text/html" ∷ codes "*/*" ∷ [])
      ∷ [];
  cookies = (codes "hermit_active_shore", codes "b") ∷ [];
  remote_addr = codes "1.2.3.4:5";
  body = none;
  user = codes "ann";
}

forward_headers-identity_example : lookup x_dock_user (forward_headers a_req) ≡ (
    if bytes_eq a_req.user []
    then none
    else if bytes_eq x_dock_user x_dock_user
    then some a_req.user
    else none)
unfolding is_identity bytes_eq dock.Base.to_lower
forward_headers-identity_example = forward_headers-identity a_req x_dock_user refl

forward_headers-others_example :
    lookup (codes "Accept") (forward_headers a_req) ≡ some (codes "text/html, */*")
unfolding is_identity bytes_eq dock.Base.to_lower dock.Base.lookup dock.Base.join
    dock.Http.header_get
forward_headers-others_example = forward_headers-others a_req (codes "Accept") refl

forward_path-confused_example :
    forward_path (codes "/a/x?y") [] (codes "a")
    ≡ forward_path (codes "/a/x") (codes "y") (codes "a")
forward_path-confused_example =
    forward_path-confused (codes "a") (codes "x") (codes "y") (λ e. cc) (λ e. cc)

resolve_shore_sound_example :
    (x : Bytes) × OwnShore a_registry a_req 0 shore_a x × Chosen a_req (codes "a") x
unfolding resolve_shore get_by_owner lookup bytes_eq new_connection dock.Base.cut
    dock.Base.trim_prefix
resolve_shore_sound_example = resolve_shore_sound a_registry a_req 0 shore_a (codes "a") refl

abbrev a_stream_req : Request
a_stream_req = record a_req { header = (codes "Accept", codes "text/event-stream" ∷ []) ∷ [] }

abbrev an_id : Bytes
an_id = codes "id1"

abbrev an_answer : HttpResponseMessage
an_answer = record {
  msg_type = msg_type_http_response;
  id = an_id;
  status = 200;
  headers = (codes "content-type", codes "text/plain") ∷ [];
  body = codes "aGk=";
}

route-answered_example :
    (s' t : ShoreConnection) × (route_to_shore logged a_registry a_req an_id true new_writer
      ≡ (put a_registry 0 s', waits 0 0 (pin new_writer (codes "a"))))
    × (s'.outbox ≡ http_request (request_message a_req an_id (codes "a")) ∷ [])
    × (deliver_response s' an_answer ≡ some t)
    × (get_elem? t.replies 0 ≡ some (record { buffer = an_answer ∷ []; cap = 1; closed = false }))
unfolding resolve_shore get_by_owner lookup bytes_eq new_connection header_get dock.Base.trim_prefix
    dock.Base.cut
route-answered_example =
    route-answered a_registry a_req an_id new_writer 0 shore_a (codes "a") logged an_answer refl
      (λ e. cc) refl refl

body_str-decodes_example :
    (text : Bytes) × (body_str (some (some (codes "hi"))) ≡ some text)
    × (base64_decode text ≡ some (take max_body_size (codes "hi")))
body_str-decodes_example = body_str-decodes (codes "hi") (ground arith) (λ e. cc)

answer-Fits : Fits (set_headers new_writer an_answer.headers).header (codes "hi")
unfolding set_headers set_header canonical_key insert delete lookup bytes_eq dock.Http.contains
answer-Fits v n e p = cc

write_http_response-encoded_example :
    (w' : Writer) × (write_http_response new_writer an_answer ≡ some w')
    × (w'.body ≡ codes "hi")
    × (w'.sent
        ≡ some (
          200,
          (set_headers new_writer an_answer.headers).header,
          (set_headers new_writer an_answer.headers).cookies,
        ))
unfolding base64_encode dock.Base.Base64.sextet
write_http_response-encoded_example =
    write_http_response-encoded new_writer an_answer (codes "hi") refl refl (omega arith)
      (omega arith) (omega arith) (omega arith) (ground arith) refl answer-Fits

-- Two bytes do not fit where one is declared.
too_long :
    Option.map
      (λ (w : Writer). w.body)
      (write_http_response new_writer
        (record an_answer { headers = (codes "content-length", codes "1") ∷ [] }))
    ≡ some []
unfolding write_http_response set_headers set_header canonical_key insert delete lookup bytes_eq
    dock.Http.contains write_status first_status write_header write_body declared parse_length
    base64_decode dock.Base.Base64.sextet_value
too_long = refl

-- A header's name is set in its canonical form.
set_headers_canonical :
    (set_headers new_writer an_answer.headers).header
    ≡ (codes "Content-Type", codes "text/plain") ∷ []
unfolding set_headers set_header canonical_key insert delete dock.Http.contains
set_headers_canonical = refl
