-- ===== src/Server/Tests.antt =====
-- Tests and witnesses for the routes.
use dock.Base.{
  ◌*◌, ◌≡◌, ◌≢◌, refl, sym, ◌∙◌, true, [], ◌∷◌, Option, none, some, arith, Bytes, Bytes_eq, codes,
  lookup, bytes_eq, has_prefix, strip_prefix?,
}
use dock.Base.Decimal.{format}
use dock.Session.{second}
use dock.Session.Token.{extract-create}
use dock.Shore.{ShoreConnection, new_connection}
use dock.Registry.{ShoreRegistry}
use dock.Http.{Request}
use dock.Http.Writer.{new_writer}
use dock.Auth.{Settings, cookie_name, session_max_age, session_cookie, session_user}
use dock.Gateway.Route.{logged, Started}
use dock.Gateway.Untouched.{Untouched}
use dock.Status.{StatusReply}
use dock.Status.Reply.{SortSlice}
use dock.Server.{
  healthz, static, oauth, other, mux, Pages, other_handler, behind_session, guarded_route, guarded,
  healthz_handler,
}
use dock.Server.Isolation.{guarded-isolated}

routes :
    (mux (codes "/healthz") ≡ healthz)
    × (mux (codes "/static/a.css") ≡ static)
    × (mux (codes "/auth/github/callback") ≡ oauth)
    × (mux (codes "/status/x") ≡ other)
unfolding mux has_prefix strip_prefix? bytes_eq
routes = (refl, refl, refl, refl)

abbrev mac : Bytes → Bytes → Bytes
mac secret payload = secret

abbrev settings : Settings
settings = record { session_secret = codes "k"; secure_cookies = true; admin_user = [] }

abbrev pages : Pages
pages = record { login_page = codes "login"; landing_page = some (codes "landing") }

abbrev as_is : SortSlice
as_is less shores = shores

abbrev text : StatusReply → Bytes
text reply = reply.user

abbrev tower : ShoreConnection
unfolding new_connection
tower = new_connection (codes "shore-tower") (codes "ann") [] (codes "1.2.3.4:5") 0

abbrev one_shore : ShoreRegistry
one_shore = record { heap = tower ∷ []; shores = (codes "shore-tower", 0) ∷ [] }

-- Bob asks for Ann's tower.
abbrev bobs : Request
bobs = record {
  method = codes "GET";
  path = codes "/tower/x";
  raw_query = [];
  header = [];
  cookies = (cookie_name, (session_cookie mac settings 5 (codes "bob")).value) ∷ [];
  remote_addr = codes "1.2.3.4:5";
  body = none;
  user = [];
}

bobs-user : session_user mac settings (10 * second) bobs ≡ some (codes "bob")
unfolding session_user session_cookie lookup bytes_eq
bobs-user =
    extract-create mac (codes "bob") (codes "k") 5 session_max_age (10 * second) (λ e. cc)
      (omega arith) (omega arith)

not_ann : ◌≢◌ {A = Option Bytes} (some (codes "bob")) (some (codes "ann"))
not_ann = λ e. ground arith

abbrev served : ShoreRegistry × Started
served =
    behind_session mac as_is text settings pages one_shore (10 * second)
      (λ u. other_handler logged pages one_shore (codes "id") true u new_writer) bobs new_writer

guarded-isolated_example : Untouched one_shore 0 tower served.0
unfolding guarded guarded_route mux has_prefix strip_prefix? bytes_eq tower
guarded-isolated_example =
    guarded-isolated mac as_is text settings pages one_shore 0 tower logged (10 * second)
      (codes "id") true bobs new_writer served.0 served.1 refl (λ e. not_ann (sym bobs-user ∙ e))
      refl

healthy : (healthz_handler one_shore new_writer).body ≡ codes "{\"status\":\"ok\",\"shores\":1}"
unfolding healthz_handler dock.Http.Writer.write dock.Http.Writer.write_header
    dock.Http.Writer.set_header dock.Registry.list format
healthy = refl
