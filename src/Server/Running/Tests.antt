-- ===== src/Server/Running/Tests.antt =====
-- A Shore that connects, sends and is reaped.
use dock.Base.{
  ◌≡◌, Option, ◌≢◌, refl, true, [], ◌∷◌, none, some, Bytes, Bytes_eq, codes, bytes_eq, has_prefix,
  strip_prefix?, lookup, insert, delete,
}
use dock.Protocol.{
  HttpRequestMessage, HttpResponseMessage, RegisterMessage, msg_type_register,
  msg_type_http_response,
}
use dock.Shore.{ShoreConnection, new_connection, send_http_request}
use dock.Shore.Actions.{act, sends, cancels}
use dock.Registry.{new_shore_registry, register}
use dock.Http.{Request}
use dock.Http.Writer.{new_writer}
use dock.Users.{empty_store}
use dock.Auth.{Settings, unauthenticated, Writes}
use dock.Auth.OAuth.{refused}
use dock.Connect.{decoded, check_cert, handshake, shore_name, shore_connect}
use dock.Connect.ReadLoop.{panics, http_response, read_round}
use dock.Gateway.Route.{logged, replied, request_message}
use dock.Status.{StatusReply}
use dock.Status.Reply.{SortSlice}
use dock.Server.{mux, Pages}
use dock.Server.Serve.{Shared, Outside, shore_joined, through, serve, on_route, connected}
use dock.Server.Serve.Protected.{serve-SignedOut}
use dock.Server.Serve.Stored.{IsConsistent}
use dock.Server.Running.{Reachable, with_shore, Reachable-IsConsistent, Reachable-panics_not}

abbrev mac : Bytes → Bytes → Bytes
mac secret payload = secret

abbrev settings : Settings
settings = record { session_secret = codes "k"; secure_cookies = true; admin_user = [] }

abbrev pages : Pages
pages = record { login_page = codes "login"; landing_page = none }

abbrev as_is : SortSlice
as_is less shores = shores

abbrev text : StatusReply → Bytes
text reply = reply.user

abbrev writes : Writes
writes = record { creates = true; counts = true; grants = true }

abbrev reg : RegisterMessage
reg = record {
  msg_type = msg_type_register;
  name = codes "shore-tower";
  owner = codes "ann";
  services = [];
  version = [];
}

abbrev outside : Outside Bytes
outside = record {
  kind = logged;
  now = 0;
  ts = 0;
  db_now = [];
  id = codes "id";
  sent = true;
  form = record { username = []; email = []; password = [] };
  finds = true;
  writes = writes;
  queries = record { finds = true; picks = λ n. true; writes = writes; rereads = true };
  begin = λ provider w. w;
  complete = λ provider. refused [];
  fuel = 1;
  tls = none;
  upgraded = true;
  first = decoded reg;
}

abbrev no_authorities : Option Bytes
no_authorities = none

abbrev connect : Request
connect = record {
  method = codes "GET";
  path = codes "/shore/connect";
  raw_query = [];
  header = [];
  cookies = [];
  remote_addr = codes "1.2.3.4:5";
  body = none;
  user = [];
}

abbrev tower : ShoreConnection
unfolding new_connection
tower = new_connection (codes "shore-tower") (codes "ann") [] (codes "1.2.3.4:5") 0

abbrev one_shore : Shared
unfolding tower
one_shore = record {
  registry = record { heap = tower ∷ []; shores = (codes "shore-tower", 0) ∷ [] };
  users = empty_store;
}

abbrev Runs : Shared → Type 0
Runs =
    Reachable mac as_is text settings pages no_authorities (λ hash pass. true) (λ pass. some pass)
      (λ req w. w)

after_connect : Runs one_shore
unfolding serve on_route connected mux bytes_eq has_prefix strip_prefix? shore_connect check_cert
    handshake shore_name register new_shore_registry new_connection tower one_shore lookup insert
    delete
after_connect =
    Reachable.request Reachable.start outside connect new_writer one_shore shore_joined refl

Reachable-IsConsistent_example : IsConsistent one_shore
Reachable-IsConsistent_example =
    Reachable-IsConsistent mac as_is text settings pages no_authorities (λ hash pass. true)
      (λ pass. some pass) (λ req w. w) after_connect

-- A request of Ann
abbrev anns : Request
anns = record connect { path = codes "/tower/x"; user = codes "ann" }

abbrev asked : HttpRequestMessage
asked = request_message anns (codes "id") (codes "tower")

abbrev answer : HttpResponseMessage
answer = record {
  msg_type = msg_type_http_response;
  id = codes "id";
  status = 200;
  headers = [];
  body = [];
}

abbrev waiting : ShoreConnection
waiting = (send_http_request tower asked true).0

after_request : Runs (with_shore one_shore 0 waiting)
unfolding one_shore act tower
after_request =
    Reachable.works after_connect 0 tower waiting (sends asked true)
      (anns, codes "id", codes "tower", refl, refl) refl refl

-- The Shore answers, and after that the handler gives up.
Reachable-panics_not_example :
    (read_round waiting 7 true (http_response answer) ≢ panics)
    × (act waiting (cancels (codes "id")) ≢ none)
unfolding one_shore
Reachable-panics_not_example =
    Reachable-panics_not mac as_is text settings pages no_authorities (λ hash pass. true)
      (λ pass. some pass) (λ req w. w) 0 waiting 7 true (http_response answer)
      (cancels (codes "id")) after_request refl

-- Somebody asks for the list of Shores.
abbrev stranger : Request
stranger = record connect { path = codes "/api/shores" }

serve-SignedOut_example :
    serve mac as_is text settings pages no_authorities
      (λ hash pass. true)
      (λ pass. some pass)
      (λ req w. w)
      one_shore
      outside
      stranger
      new_writer
    ≡ some (one_shore, through (replied (unauthenticated mac (codes "login") stranger new_writer)))
serve-SignedOut_example =
    serve-SignedOut mac settings as_is text pages no_authorities (λ hash pass. true)
      (λ pass. some pass) (λ req w. w) one_shore outside stranger new_writer
      (unfold bytes_eq has_prefix strip_prefix? in refl) (λ value e. unfold lookup in cc)
