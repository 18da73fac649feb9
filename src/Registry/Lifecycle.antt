-- ===== src/Registry/Lifecycle.antt =====
-- Shores that come and go: connections, pings, ticks of the reaper and the ends of read loops, in any
-- order.
use dock.Base.{
  length-set, get_elem?-length, ℕ, ◌≡◌, ◌≢◌, refl, sym, ap, ◌∙◌, subst, inl, inr, List, [], ◌∷◌,
  ◌++◌, Option, none, some, arith, Bytes, Bytes_eq, lookup, insert, delete, lookup-insert_self,
  lookup-delete_self, lookup-delete_ne, length, get_elem?, set, get_elem?-append_last,
  get_elem?-set_self, get_elem?-set_ne, get_elem?-append_old, Option-cases,
}
use dock.Shore.{ShoreConnection, close, new_connection}
use dock.Registry.{
  ShoreRegistry, modify, new_shore_registry, register, close_existing, get, reap, read_loop_exit,
}
use dock.Registry.Invariant.{
  IsValid, AllLive, set-AllLive, register-IsValid, read_loop_exit-IsValid, read_loop_exit-some,
  modify-some,
}
use dock.Registry.Tick.{reap-IsValid}

-- What happens to the registry: a Shore connects and registers (name, owner, services, address and
-- time), one pings, the reaper ticks, a read loop ends.
pub data Event : Type 0 where
  connects : Bytes → Bytes → List Bytes → Bytes → ℕ → Event
  pings : ℕ → ℕ → Event
  ticks : ℕ → Event
  exits : ℕ → Event

unfoldable pub step : ShoreRegistry → Event → ShoreRegistry
step r (connects name owner services addr now) =
    register r (new_connection name owner services addr now)
step r (pings ref now) = record r { heap = modify ref (λ s. record s { last_ping = now }) r.heap }
step r (ticks now) = reap r now
step r (exits ref) = read_loop_exit r ref

-- The registries that can come about.
pub data Reachable : ShoreRegistry → Type 0 where
  start : Reachable new_shore_registry
  next : {r : ShoreRegistry} → Reachable r → (e : Event) → Reachable (step r e)

pings-IsValid : (r : ShoreRegistry) (ref now : ℕ) → IsValid r → IsValid (step r (pings ref now))
unfolding step
pings-IsValid r ref now v = elim (Option-cases (get_elem? r.heap ref)) [
  | inl e ↦ record { keys = v.keys; live = subst (λ h. AllLive h r.shores) (none_same e) v.live }
  | inr (s, e) ↦
      let s' : ShoreConnection = record s { last_ping = now } in
      record {
        keys = v.keys;
        live =
            subst (λ h. AllLive h r.shores) (sym (modify-some ref _ r.heap s e))
              (set-AllLive r.heap r.shores ref s s' e refl refl v.live);
      }
]
  where
    none_same :
        get_elem? r.heap ref ≡ none → r.heap ≡ modify ref (λ s. record s { last_ping = now }) r.heap
    none_same e = ground arith

pub step-IsValid : (r : ShoreRegistry) (e : Event) → IsValid r → IsValid (step r e)
unfolding step
step-IsValid r (connects name owner services addr now) v =
    register-IsValid r (new_connection name owner services addr now) (unfold new_connection in refl)
      v
step-IsValid r (pings ref now) v = pings-IsValid r ref now v
step-IsValid r (ticks now) v = reap-IsValid r now v
step-IsValid r (exits ref) v = read_loop_exit-IsValid r ref v

-- In every registry that can come about, the names are distinct, and each leads to a Shore of that
-- name whose connection has not been closed.
pub Reachable-IsValid : {r : ShoreRegistry} → Reachable r → IsValid r
unfolding new_shore_registry
Reachable-IsValid start = record { keys = tt; live = λ name ref h. unfold lookup in cc }
Reachable-IsValid (next {r} w e) = step-IsValid r e (Reachable-IsValid w)

register-listed :
    (r : ShoreRegistry) (old : ℕ) (s t : ShoreConnection)
    → lookup t.name r.shores ≡ some old
    → get_elem? r.heap old ≡ some s
    → register r t ≡ record {
      heap = set r.heap old (close s) ++ t ∷ [];
      shores = insert t.name (length r.heap) r.shores;
    }
unfolding register close_existing
register-listed r old s t listed there = ground arith

close-name : (s : ShoreConnection) → (close s).name ≡ s.name
unfolding close
close-name s = ground arith

-- The same for any new connection `t`.
replaced_then_exit :
    (r : ShoreRegistry) (old : ℕ) (t : ShoreConnection)
    → IsValid r
    → lookup t.name r.shores ≡ some old
    → let r' = read_loop_exit (register r t) old in
      (lookup t.name r'.shores ≡ none) × (get_elem? r'.heap (length r.heap) ≡ some t)
replaced_then_exit r old t v listed =
    let (s, there, named, is_open) = v.live t.name old listed in
    let heap : List ShoreConnection = set r.heap old (close s) in
    let closed_there : get_elem? heap old ≡ some (close s) =
      get_elem?-set_self r.heap old (close s) s there in
    let at_old : get_elem? (heap ++ t ∷ []) old ≡ some (close s) =
      get_elem?-append_old heap t (close s) old closed_there in
    let last : get_elem? (heap ++ t ∷ []) (length r.heap) ≡ some t =
      ap (get_elem? (heap ++ t ∷ [])) (sym (length-set r.heap old (close s)))
      ∙ get_elem?-append_last heap t in
    let apart : old ≢ length r.heap =
      λ e. some-ne-none s (sym there ∙ ap (get_elem? r.heap) e ∙ get_elem?-length r.heap) in
    let same_name : t.name ≡ (close s).name = sym (close-name s ∙ named) in
    let r1 : ShoreRegistry = record {
      heap = heap ++ t ∷ [];
      shores = insert t.name (length r.heap) r.shores;
    } in
    rw (register-listed r old s t listed there, read_loop_exit-some r1 old (close s) at_old)
      (
        ap (λ n. lookup n (delete (close s).name (insert t.name (length r.heap) r.shores)))
              same_name
            ∙ lookup-delete_self (close s).name _,
        get_elem?-set_ne (heap ++ t ∷ []) old (length r.heap) (close (close s)) apart ∙ last,
      )
  where
    some-ne-none : (s : ShoreConnection) → ◌≢◌ {A = Option ShoreConnection} (some s) none
    some-ne-none s = λ e. cc

-- A Shore that reconnects is lost. If the name of a registered Shore is taken over by a new
-- connection and after that the read loop of the old one ends, as it must since `Register` has closed
-- its connection, then nothing is registered under the name, though the new connection is up.
pub reconnect_lost :
    (r : ShoreRegistry) (old : ℕ) (name owner : Bytes) (services : List Bytes) (addr : Bytes)
    (now : ℕ)
    → IsValid r
    → get r name ≡ some old
    → let r' = step r (connects name owner services addr now) in
      (get r' name ≡ some (length r.heap))
      × (get (step r' (exits old)) name ≡ none)
      × (get_elem? (step r' (exits old)).heap (length r.heap)
          ≡ some (new_connection name owner services addr now))
unfolding step get
reconnect_lost r old name owner services addr now v listed =
    let t : ShoreConnection = new_connection name owner services addr now in
    let same : t.name ≡ name = unfold new_connection in refl in
    let (gone, there) = replaced_then_exit r old t v (ap (λ n. lookup n r.shores) same ∙ listed) in
    (
      registered_last t same,
      ap (λ n. lookup n (read_loop_exit (register r t) old).shores) (sym same) ∙ gone,
      there,
    )
  where
    registered_last :
        (t : ShoreConnection)
        → t.name ≡ name
        → lookup name (register r t).shores ≡ some (length r.heap)
    registered_last t same =
        ap (λ n. lookup n (register r t).shores) (sym same)
        ∙ (unfold register in lookup-insert_self t.name (length r.heap) r.shores)

-- The end of a read loop frees the Shore's own name and closes its connection, and no other name is
-- touched.
pub exit_frees_name :
    (r : ShoreRegistry) (ref : ℕ) (s : ShoreConnection) (other : Bytes)
    → get_elem? r.heap ref ≡ some s
    → s.name ≢ other
    → (get (step r (exits ref)) s.name ≡ none)
      × (get_elem? (step r (exits ref)).heap ref ≡ some (close s))
      × (get (step r (exits ref)) other ≡ get r other)
unfolding step get
exit_frees_name r ref s other there ne = rw (read_loop_exit-some r ref s there) (
  lookup-delete_self s.name r.shores,
  get_elem?-set_self r.heap ref (close s) s there,
  lookup-delete_ne s.name other r.shores ne,
)
