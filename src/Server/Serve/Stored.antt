-- ===== src/Server/Serve/Stored.antt =====
-- What the handlers share stays in order, whatever requests come in.
use dock.Base.{
  ℕ, refl, inl, inr, Bool, true, false, [], List, Option, none, some, Bytes, Bytes_eq, codes,
  if◌then◌else◌, ◌==◌, Bool-cases, Option-cases,
}
use dock.Protocol.{msg_type_register}
use dock.Shore.{new_connection}
use dock.Registry.{ShoreRegistry}
use dock.Registry.Channels.{IsSound, register-IsSound, new_connection-IsFit}
use dock.Http.{Request}
use dock.Http.Writer.{Writer}
use dock.Users.{UserStore}
use dock.Users.Table as Table
use dock.Auth.{Settings, session_user, require_session}
use dock.Auth.Stored as Auth
use dock.Auth.OAuth.Stored.{AllValid, auth-AllValid}
use dock.Connect.{
  Cert, First, Connected, unread, undecoded, decoded, rejected, dropped, joined, certifies, refuses,
  Checked, shore_name, check_cert, handshake, shore_connect,
}
use dock.Gateway.Route.{Handed, Started}
use dock.Gateway.Kept.{route_to_shore-IsSound}
use dock.Status.{StatusReply}
use dock.Status.Reply.{SortSlice}
use dock.Server.{Route, mux, Pages, other_handler, behind_session, guarded_route, guarded}
use dock.Server as Server
use dock.Server.Serve.{
  Shared, Outside, Answer, connected, stored, stored_if, passed, on_route, serve,
}

-- The registry is sound, and the user table is in order.
pub record IsConsistent (s : Shared) : Type 0 where
  pub registry : IsSound s.registry
  pub users : Table.IsValid s.users

-- What a Shore that connects leaves.
abbrev Joined : Connected → Type 0
Joined (rejected w) = Unit
Joined dropped = Unit
Joined (joined r) = IsSound r

handshake-Joined :
    (r : ShoreRegistry) (cert_name remote_addr : Bytes) (now : ℕ) (first : First)
    → IsSound r
    → Joined (handshake r cert_name remote_addr now first)
unfolding handshake
handshake-Joined r cert_name remote_addr now unread v = tt
handshake-Joined r cert_name remote_addr now undecoded v = tt
handshake-Joined r cert_name remote_addr now (decoded reg) v =
    elim (Bool-cases (reg.msg_type == msg_type_register)) [
      | inr f ↦ rw (handshake, f) tt
      | inl t ↦ elim (Bool-cases (shore_name cert_name reg == [])) [
        | inl t' ↦ rw (handshake, t, t') tt
        | inr f ↦
            rw (handshake, t, f)
              (register-IsSound r
                (new_connection (shore_name cert_name reg) reg.owner reg.services remote_addr now)
                (unfold new_connection in refl)
                (new_connection-IsFit (shore_name cert_name reg) reg.owner reg.services remote_addr
                  now)
                v)
      ]
    ]

shore_connect-Joined :
    {Pool : Type 0} (r : ShoreRegistry) (pool : Option Pool) (tls : Option (List (Cert Pool)))
    (upgraded : Bool) (first : First) (remote_addr : Bytes) (now : ℕ) (w : Writer)
    → IsSound r
    → Joined (shore_connect r pool tls upgraded first remote_addr now w)
unfolding shore_connect
shore_connect-Joined r pool tls upgraded first remote_addr now w v =
    by_check (check_cert pool tls) upgraded
  where
    by_check :
        (c : Checked) (up : Bool)
        → Joined (elim c [
          | refuses text ↦ rejected (dock.Http.Writer.http_error w text 401)
          | certifies cert_name ↦
              if up then handshake r cert_name remote_addr now first else dropped
        ])
    by_check (refuses text) up = tt
    by_check (certifies cert_name) true = handshake-Joined r cert_name remote_addr now first v
    by_check (certifies cert_name) false = tt

-- What a request leaves, if it comes to an end.
abbrev pub Leaves : Option (Shared × Answer) → Type 0
Leaves none = Unit
Leaves (some (s, _)) = IsConsistent s

connected-Leaves :
    (s : Shared) (c : Connected) → IsConsistent s → Joined c → Leaves (some (connected s c))
unfolding connected
connected-Leaves s (rejected w) v j = v
connected-Leaves s dropped v j = v
connected-Leaves s (joined r) v j = record { registry = j; users = v.users }

stored_if-Leaves :
    (s : Shared) (o : Option (UserStore × Writer))
    → IsConsistent s
    → AllValid o
    → Leaves (stored_if s o)
unfolding stored_if stored
stored_if-Leaves s none v a = tt
stored_if-Leaves s (some (users, w)) v a = record { registry = v.registry; users = a }

-- What the registry is left with by a guarded route.
abbrev Passes : Option (ShoreRegistry × Started) → Type 0
Passes none = Unit
Passes (some (r, _)) = IsSound r

passed-Leaves :
    (s : Shared) (o : Option (ShoreRegistry × Started))
    → IsConsistent s
    → Passes o
    → Leaves (passed s o)
unfolding passed
passed-Leaves s none v p = tt
passed-Leaves s (some (r, started)) v p = record { registry = p; users = v.users }

other_handler-IsSound :
    (kind : Handed) (pages : Pages) (r : ShoreRegistry) (id : Bytes) (sent : Bool) (req : Request)
    (w : Writer)
    → IsSound r
    → IsSound (other_handler kind pages r id sent req w).0
unfolding other_handler
other_handler-IsSound kind pages r id sent req w v = elim (Bool-cases (req.path == codes "/")) [
  | inl t ↦ rw (other_handler, t) v
  | inr f ↦ rw (other_handler, f) (route_to_shore-IsSound kind r req id sent w v)
]

module _ (hmac : Bytes → Bytes → Bytes) (sort_slice : SortSlice) (encode : StatusReply → Bytes)
    (app : Settings) (pages : Pages) where
  behind_session-IsSound :
      (r : ShoreRegistry) (now : ℕ) (next : Request → ShoreRegistry × Started) (req : Request)
      (w : Writer)
      → IsSound r
      → ((u : Request) → IsSound (next u).0)
      → IsSound (behind_session hmac sort_slice encode app pages r now next req w).0
  unfolding behind_session require_session
  behind_session-IsSound r now next req w v keeps =
      elim (Option-cases (session_user hmac app now req)) [
        | inl e ↦ rw (behind_session, require_session, e) v
        | inr (user, e) ↦
            rw (behind_session, require_session, e) (keeps (record req { user = user }))
      ]

  guarded_route-Passes :
      (kind : Handed) (r : ShoreRegistry) (now : ℕ) (id : Bytes) (sent : Bool) (req : Request)
      (w : Writer) (route : Route)
      → IsSound r
      → Passes (guarded_route hmac sort_slice encode app pages kind r now id sent req w route)
  unfolding guarded_route
  guarded_route-Passes kind r now id sent req w Server.status v =
      behind_session-IsSound r now _ req w v (λ u. v)
  guarded_route-Passes kind r now id sent req w Server.api_shores v =
      behind_session-IsSound r now _ req w v (λ u. v)
  guarded_route-Passes kind r now id sent req w Server.other v =
      behind_session-IsSound r now _ req w v (λ u. other_handler-IsSound kind pages r id sent u w v)
  guarded_route-Passes kind r now id sent req w _ v = tt

  guarded-Passes :
      (kind : Handed) (r : ShoreRegistry) (now : ℕ) (id : Bytes) (sent : Bool) (req : Request)
      (w : Writer)
      → IsSound r
      → Passes (guarded hmac sort_slice encode app pages kind r now id sent req w)
  unfolding guarded
  guarded-Passes kind r now id sent req w v =
      guarded_route-Passes kind r now id sent req w (mux req.path) v

  module _ {Pool : Type 0} (pool : Option Pool) (compare : Bytes → Bytes → Bool)
      (generate : Bytes → Option Bytes) (static_file : Request → Writer → Writer) where
    guarded_route-Leaves :
        (s : Shared) (o : Outside Pool) (req : Request) (w : Writer)
        → IsConsistent s
        → Leaves (
            passed s
              (guarded hmac sort_slice encode app pages o.kind s.registry o.now o.id o.sent req w))
    guarded_route-Leaves s o req w v =
        passed-Leaves s _ v (guarded-Passes o.kind s.registry o.now o.id o.sent req w v.registry)

    on_route-Leaves :
        (route : Route) (s : Shared) (o : Outside Pool) (req : Request) (w : Writer)
        → IsConsistent s
        → Leaves (
            on_route hmac sort_slice encode app pages pool compare generate static_file route s o
              req w)
    unfolding on_route stored
    on_route-Leaves Server.healthz s o req w v = v
    on_route-Leaves Server.static s o req w v = v
    on_route-Leaves Server.shore_connect s o req w v = connected-Leaves s _ v (
        shore_connect-Joined s.registry pool o.tls o.upgraded o.first req.remote_addr o.now w
          v.registry)
    on_route-Leaves Server.login s o req w v = v
    on_route-Leaves Server.register s o req w v = record {
      registry = v.registry;
      users =
          Auth.register-IsValid hmac compare generate app o.ts o.db_now o.writes s.users req o.form
            w v.users;
    }
    on_route-Leaves Server.logout s o req w v = v
    on_route-Leaves Server.oauth s o req w v = stored_if-Leaves s _ v (
        auth-AllValid hmac o.fuel app o.ts o.db_now o.queries o.begin o.complete s.users req w
          v.users)
    on_route-Leaves Server.status s o req w v = guarded_route-Leaves s o req w v
    on_route-Leaves Server.api_shores s o req w v = guarded_route-Leaves s o req w v
    on_route-Leaves Server.other s o req w v = guarded_route-Leaves s o req w v

    pub serve-Leaves :
        (s : Shared) (o : Outside Pool) (req : Request) (w : Writer)
        → IsConsistent s
        → Leaves
            (serve hmac sort_slice encode app pages pool compare generate static_file s o req w)
    unfolding serve
    serve-Leaves s o req w v = on_route-Leaves (mux req.path) s o req w v
