-- ===== src/Server/Serve.antt =====
-- The whole mux of `main`: a request on the state that all handlers share.
pub mod Stored
pub mod Protected
use dock.Base.{ℕ, Bool, List, Option, none, some, Bytes}
use dock.Registry.{ShoreRegistry}
use dock.Http.{Request}
use dock.Http.Writer.{Writer}
use dock.Users.{UserStore}
use dock.Auth.{Settings, Form, Writes, login, register, logout}
use dock.Auth.OAuth.{Completed, Queries, auth}
use dock.Connect.{Cert, First, Connected, rejected, dropped, joined, shore_connect}
use dock.Gateway.Route.{Handed, Started}
use dock.Status.{StatusReply}
use dock.Status.Reply.{SortSlice}
use dock.Server.{Route, mux, Pages, healthz_handler, guarded}
use dock.Server as Server

-- What the handlers share and change.
pub record Shared : Type 0 where
  pub registry : ShoreRegistry
  pub users : UserStore

-- What comes from outside while one request is served: the writer's kind, the time (in nanoseconds, in
-- seconds and as the database has it), the id that is drawn, whether a socket takes a message, the
-- form, what the database carries out, the OAuth provider's answer with the rounds that the loop for a
-- username gets, and a Shore's certificates, its WebSocket and its first message.
pub record Outside (Pool : Type 0) : Type 0 where
  pub kind : Handed
  pub now : ℕ
  pub ts : ℕ
  pub db_now : Bytes
  pub id : Bytes
  pub sent : Bool
  pub form : Form
  pub finds : Bool
  pub writes : Writes
  pub queries : Queries
  pub begin : Bytes → Writer → Writer
  pub complete : Bytes → Completed
  pub fuel : ℕ
  pub tls : Option (List (Cert Pool))
  pub upgraded : Bool
  pub first : First

pub data Answer : Type 0 where
  page : Writer → Answer
  through : Started → Answer
  hung_up : Answer
  shore_joined : Answer

unfoldable pub connected : Shared → Connected → Shared × Answer
connected s (rejected w) = (s, page w)
connected s dropped = (s, hung_up)
connected s (joined r) = (record s { registry = r }, shore_joined)

stored : Shared → UserStore × Writer → Shared × Answer
stored s (users, w) = (record s { users = users }, page w)

stored_if : Shared → Option (UserStore × Writer) → Option (Shared × Answer)
unfolding stored
stored_if s none = none
stored_if s (some o) = some (stored s o)

passed : Shared → Option (ShoreRegistry × Started) → Option (Shared × Answer)
passed s none = none
passed s (some (r, started)) = some (record s { registry = r }, through started)

module _ {Pool : Type 0} (hmac : Bytes → Bytes → Bytes) (sort_slice : SortSlice)
    (encode : StatusReply → Bytes) (app : Settings) (pages : Pages) (pool : Option Pool)
    (compare : Bytes → Bytes → Bool) (generate : Bytes → Option Bytes)
    (static_file : Request → Writer → Writer) where
  unfoldable pub on_route :
      Route → Shared → Outside Pool → Request → Writer → Option (Shared × Answer)
  unfolding connected stored stored_if passed
  on_route Server.healthz s o req w = some (s, page (healthz_handler s.registry w))
  on_route Server.static s o req w = some (s, page (static_file req w))
  on_route Server.shore_connect s o req w =
      some (
        connected s
          (shore_connect s.registry pool o.tls o.upgraded o.first req.remote_addr o.now w))
  on_route Server.login s o req w =
      some (s, page (login hmac compare generate app o.ts o.finds s.users req o.form w))
  on_route Server.register s o req w =
      some
        (stored s (register hmac compare generate app o.ts o.db_now o.writes s.users req o.form w))
  on_route Server.logout s o req w = some (s, page (logout app req w))
  on_route Server.oauth s o req w =
      stored_if s (auth hmac o.fuel app o.ts o.db_now o.queries o.begin o.complete s.users req w)
  on_route _ s o req w =
      passed s (guarded hmac sort_slice encode app pages o.kind s.registry o.now o.id o.sent req w)

  -- A request, through the mux: none while the loop for a username has not ended.
  unfoldable pub serve : Shared → Outside Pool → Request → Writer → Option (Shared × Answer)
  unfolding on_route
  serve s o req w = on_route (mux req.path) s o req w
