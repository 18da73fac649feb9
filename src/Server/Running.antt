-- ===== src/Server/Running.antt =====
-- The program as it runs: requests, what Shores send, what handlers do later, and the reaper, in any
-- order.
mod Tests
use dock.Base.{
  ℕ, ◌≡◌, ◌≢◌, refl, subst, ap, sym, ◌∙◌, Bool, List, [], ◌∷◌, ◌++◌, Option, none, some, arith,
  Bytes, Bytes_eq, set, get_elem?, All-get_elem?, lookup, inl, inr,
}
use mathlib.Core.Option.{some_inj}
use dock.Shore.{ShoreConnection, write_json}
use dock.Shore.Invariant as Channels
use dock.Protocol.{http_request, stream_start}
use dock.Gateway.Route.{request_message, stream_message}
use dock.Gateway.Kept.{request_message-Owned, stream_message-Owned}
use dock.Shore.Actions.{
  Action, closes, sends, opens, responds, delivers, ends, cancels, reads, pings, act, act-IsValid,
}
use dock.Shore.Kept.{Owned, AllOwned, Fair, Kept, KeptIn, act-KeptIn}
use dock.Registry.{ShoreRegistry, new_shore_registry, reap, read_loop_exit}
use dock.Registry.Lifecycle as Live
use dock.Registry.Channels.{IsFit, IsSound, reap-IsSound, read_loop_exit-IsSound, set-IsSound}
use dock.Http.{Request}
use dock.Http.Writer.{Writer}
use dock.Users.{empty_store}
use dock.Auth.{Settings}
use dock.Connect.ReadLoop.{
  Incoming, Round, panics, returns, continues, read_round, Fine, read_round-Fine,
}
use dock.Connect.ReadLoop.Kept.{KeptOn, read_round-KeptOn}
use dock.Status.{StatusReply}
use dock.Status.Reply.{SortSlice}
use dock.Server.{Pages}
use dock.Server.Serve.{Shared, Outside, Answer, serve}
use dock.Server.Serve.Stored.{IsConsistent, Leaves, serve-Leaves}

abbrev pub with_shore : Shared → ℕ → ShoreConnection → Shared
with_shore s ref t = record s { registry = record s.registry { heap = set s.registry.heap ref t } }

-- What a goroutine that holds a Shore may do to it besides its read loop: send a request or open a
-- stream that is made of a request of the Shore's owner, or any other operation but `Close`.
abbrev pub Allowed : ShoreConnection → Action → Type 0
Allowed t (sends msg sent) =
    (req : Request) × (id : Bytes) × (strip : Bytes) × (t.owner ≡ req.user)
    × (msg ≡ request_message req id strip)
Allowed t (opens msg sent) =
    (req : Request) × (id : Bytes) × (strip : Bytes) × (t.owner ≡ req.user)
    × (msg ≡ stream_message req id strip)
Allowed t closes = ⊥
Allowed t _ = Unit

Allowed-Fair : (t : ShoreConnection) (a : Action) → Allowed t a → Fair t a
Allowed-Fair t (sends msg sent) (req, id, strip, mine, same) =
    subst (λ m. Owned t.owner (http_request m)) (sym same)
      (request_message-Owned req id strip t.owner mine)
Allowed-Fair t (opens msg sent) (req, id, strip, mine, same) =
    subst (λ m. Owned t.owner (stream_start m)) (sym same)
      (stream_message-Owned req id strip t.owner mine)
Allowed-Fair t closes never = never
Allowed-Fair t (responds resp) ok = tt
Allowed-Fair t (delivers frame) ok = tt
Allowed-Fair t (ends id) ok = tt
Allowed-Fair t (cancels id) ok = tt
Allowed-Fair t (reads ref) ok = tt
Allowed-Fair t (pings now) ok = tt

module _ (hmac : Bytes → Bytes → Bytes) (sort_slice : SortSlice) (encode : StatusReply → Bytes)
    (app : Settings) (pages : Pages) {Pool : Type 0} (pool : Option Pool)
    (compare : Bytes → Bytes → Bool) (generate : Bytes → Option Bytes)
    (static_file : Request → Writer → Writer) where
  -- The states that the program can get into. A request is served up to where it waits for a Shore; a
  -- round of a read loop goes on or ends the loop; a goroutine that holds a Shore, registered or not,
  -- does one operation on it that is allowed; the reaper ticks.
  pub data Reachable : Shared → Type 0 where
    start : Reachable (record { registry = new_shore_registry; users = empty_store })
    request :
        {s : Shared}
        → Reachable s
        → (o : Outside Pool) → (req : Request) → (w : Writer) → (s' : Shared) → (answer : Answer)
        → serve hmac sort_slice encode app pages pool compare generate static_file s o req w
          ≡ some (s', answer)
        → Reachable s'
    round :
        {s : Shared}
        → Reachable s
        → (ref : ℕ) → (t t' : ShoreConnection) → (now : ℕ) → (sent : Bool) → (msg : Incoming)
        → get_elem? s.registry.heap ref ≡ some t
        → read_round t now sent msg ≡ continues t'
        → Reachable (with_shore s ref t')
    last_round :
        {s : Shared}
        → Reachable s
        → (ref : ℕ) → (t t' : ShoreConnection) → (now : ℕ) → (sent : Bool) → (msg : Incoming)
        → get_elem? s.registry.heap ref ≡ some t
        → read_round t now sent msg ≡ returns t'
        → Reachable (record s { registry = read_loop_exit (with_shore s ref t').registry ref })
    works :
        {s : Shared}
        → Reachable s
        → (ref : ℕ) → (t t' : ShoreConnection) → (a : Action) → Allowed t a
        → get_elem? s.registry.heap ref ≡ some t
        → act t a ≡ some t'
        → Reachable (with_shore s ref t')
    tick :
        {s : Shared}
        → Reachable s
        → (now : ℕ) → Reachable (record s { registry = reap s.registry now })

  with_shore-IsConsistent :
      (s : Shared) (ref : ℕ) (t t' : ShoreConnection)
      → IsConsistent s
      → get_elem? s.registry.heap ref ≡ some t
      → Kept t t'
      → Channels.IsValid t'
      → IsConsistent (with_shore s ref t')
  with_shore-IsConsistent s ref t t' v there k u = record {
    registry = set-IsSound s.registry ref t t' there k u v.registry;
    users = v.users;
  }

  shore-IsFit :
      (s : Shared) (ref : ℕ) (t : ShoreConnection)
      → IsConsistent s
      → get_elem? s.registry.heap ref ≡ some t
      → IsFit t
  shore-IsFit s ref t v there = All-get_elem? IsFit s.registry.heap ref t there v.registry.fit

  act-result :
      (t t' : ShoreConnection) (a : Action)
      → Channels.IsValid t
      → act t a ≡ some t'
      → Channels.IsValid t'
  act-result t t' a u h =
      let (t1, returned, u1) = act-IsValid t a u in
      subst Channels.IsValid (some_inj.0 (sym returned ∙ h)) u1

  -- Whatever requests come in, whatever Shores send, and in whatever order the steps of their read
  -- loops, of the handlers and of the reaper come, each step taken whole: each name in the registry
  -- leads to a Shore of that name whose connection has not been closed; the pending requests and the
  -- streams of every Shore that was ever connected lead to open channels of their own; what was written
  -- to a Shore names no user but its owner; and the rows of the user table have distinct ids and
  -- usernames.
  pub Reachable-IsConsistent : {s : Shared} → Reachable s → IsConsistent s
  Reachable-IsConsistent start = record {
    registry =
        unfold new_shore_registry in record { live = Live.Reachable-IsValid Live.start; fit = tt };
    users = unfold empty_store in record { table = tt; seq = tt };
  }
  Reachable-IsConsistent (request {s} w o req wr s' answer h) = subst Leaves h (
      serve-Leaves hmac sort_slice encode app pages pool compare generate static_file s o req wr
        (Reachable-IsConsistent w))
  Reachable-IsConsistent (round {s} w ref t t' now sent msg there h) =
      let v = Reachable-IsConsistent w in
      with_shore-IsConsistent s ref t t' v there
        (subst (KeptOn t) h (read_round-KeptOn t now sent msg))
        (subst Fine h (read_round-Fine t now sent msg (shore-IsFit s ref t v there).linked))
  Reachable-IsConsistent (last_round {s} w ref t t' now sent msg there h) =
      let v = Reachable-IsConsistent w in
      let v' =
        with_shore-IsConsistent s ref t t' v there
          (subst (KeptOn t) h (read_round-KeptOn t now sent msg))
          (subst Fine h (read_round-Fine t now sent msg (shore-IsFit s ref t v there).linked)) in
      record {
        registry = read_loop_exit-IsSound (with_shore s ref t').registry ref v'.registry;
        users = v.users;
      }
  Reachable-IsConsistent (works {s} w ref t t' a ok there h) =
      let v = Reachable-IsConsistent w in
      with_shore-IsConsistent s ref t t' v there
        (subst (KeptIn t) h (act-KeptIn t a (Allowed-Fair t a ok)))
        (act-result t t' a (shore-IsFit s ref t v there).linked h)
  Reachable-IsConsistent (tick {s} w now) =
      let v = Reachable-IsConsistent w in
      record { registry = reap-IsSound s.registry now v.registry; users = v.users }

  -- In every state that the program can get into by requests, rounds of read loops, operations of
  -- handlers, and ticks, each of them taken whole, no message that a Shore sends makes its
  -- read loop panic, and no operation on a Shore does.
  pub Reachable-panics_not :
      {s : Shared} (ref : ℕ) (t : ShoreConnection) (now : ℕ) (sent : Bool) (msg : Incoming)
      (a : Action)
      → Reachable s
      → get_elem? s.registry.heap ref ≡ some t
      → (read_round t now sent msg ≢ panics) × (act t a ≢ none)
  Reachable-panics_not {s} ref t now sent msg a w there =
      let u = (shore-IsFit s ref t (Reachable-IsConsistent w) there).linked in
      (λ e. subst Fine e (read_round-Fine t now sent msg u), λ e. acts e (act-IsValid t a u))
    where
      acts : act t a ≡ none → Channels.Keeps (act t a) → ⊥
      acts e (t1, returned, _) = cc
