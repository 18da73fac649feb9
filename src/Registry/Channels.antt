-- ===== src/Registry/Channels.antt =====
-- Whatever the registry does, every Shore that was ever made keeps its pending requests and streams on
-- open channels of their own, and what was written to it under the name of its owner.
use dock.Base.{
  ℕ, ◌≡◌, false, inl, inr, [], ◌∷◌, List, Option, none, some, Bytes, Bytes_eq, Map, All, All-append,
  All-set, All-get_elem?, get_elem?, set, lookup, Option-cases, Bool-cases,
}
use dock.Shore.{ShoreConnection, close, new_connection}
use dock.Shore.Linked.{empty-Linked}
use dock.Shore.Invariant.{IsValid, IsWaiting, IsOpen}
use dock.Shore.Actions.{close-IsValid}
use dock.Shore.Kept.{Kept, AllOwned, close-AllOwned}
use dock.Registry.Invariant as Live
use dock.Registry.Invariant.{set-AllLive, register-IsValid, read_loop_exit-IsValid}
use dock.Registry.Tick.{reap-IsValid}
use dock.Registry.{
  ShoreRegistry, modify, register, close_existing, is_stale, reap_one, reap_over, reap,
  read_loop_exit,
}

-- The pending requests and the streams lead to open channels of their own, and nothing was written
-- under another user's name than the owner's.
pub record IsFit (s : ShoreConnection) : Type 0 where
  pub linked : IsValid s
  pub owned : AllOwned s

abbrev pub AllFit : List ShoreConnection → Type 0
AllFit = All IsFit

close-IsFit : (s : ShoreConnection) → IsFit s → IsFit (close s)
close-IsFit s v = record { linked = close-IsValid s v.linked; owned = close-AllOwned s v.owned }

pub new_connection-IsFit :
    (name owner : Bytes) (services : List Bytes) (addr : Bytes) (now : ℕ)
    → IsFit (new_connection name owner services addr now)
unfolding new_connection
new_connection-IsFit name owner services addr now = record {
  linked = record { pending = empty-Linked IsWaiting []; streams = empty-Linked IsOpen [] };
  owned = tt;
}

modify-close-AllFit :
    (ref : ℕ) (heap : List ShoreConnection) → AllFit heap → AllFit (modify ref close heap)
modify-close-AllFit ref heap v = elim (Option-cases (get_elem? heap ref)) [
  | inl e ↦ rw (modify, e) v
  | inr (s, e) ↦
      rw (modify, e)
        (All-set IsFit heap ref (close s) (close-IsFit s (All-get_elem? IsFit heap ref s e v)) v)
]

close_existing-AllFit :
    (o : Option ℕ) (heap : List ShoreConnection) → AllFit heap → AllFit (close_existing o heap)
unfolding close_existing
close_existing-AllFit none heap v = v
close_existing-AllFit (some ref) heap v = modify-close-AllFit ref heap v

pub register-AllFit :
    (r : ShoreRegistry) (s : ShoreConnection) → IsFit s → AllFit r.heap → AllFit (register r s).heap
unfolding register
register-AllFit r s w v =
    All-append IsFit (close_existing (lookup s.name r.shores) r.heap) (s ∷ [])
      (close_existing-AllFit (lookup s.name r.shores) r.heap v) (w, tt)

reap_one-AllFit :
    (now : ℕ) (r : ShoreRegistry) (b : Bytes × ℕ) → AllFit r.heap → AllFit (reap_one now r b).heap
unfolding reap_one
reap_one-AllFit now r (name, ref) v = elim (Option-cases (get_elem? r.heap ref)) [
  | inl e ↦ rw (reap_one, e) v
  | inr (s, e) ↦ elim (Bool-cases (is_stale now s)) [
    | inl old ↦
        rw (reap_one, e, old)
          (All-set IsFit r.heap ref (close s) (close-IsFit s (All-get_elem? IsFit r.heap ref s e v))
            v)
    | inr young ↦ rw (reap_one, e, young) v
  ]
]

reap_over-AllFit :
    (now : ℕ) (r : ShoreRegistry) (m : Map Bytes ℕ)
    → AllFit r.heap
    → AllFit (reap_over now r m).heap
unfolding reap_over
reap_over-AllFit now r [] v = v
reap_over-AllFit now r (b ∷ m) v =
    reap_over-AllFit now (reap_one now r b) m (reap_one-AllFit now r b v)

pub reap-AllFit : (r : ShoreRegistry) (now : ℕ) → AllFit r.heap → AllFit (reap r now).heap
unfolding reap
reap-AllFit r now v = reap_over-AllFit now r r.shores v

pub read_loop_exit-AllFit :
    (r : ShoreRegistry) (ref : ℕ) → AllFit r.heap → AllFit (read_loop_exit r ref).heap
unfolding read_loop_exit
read_loop_exit-AllFit r ref v = elim (Option-cases (get_elem? r.heap ref)) [
  | inl e ↦ rw (read_loop_exit, e) v
  | inr (s, e) ↦ rw (read_loop_exit, e) (modify-close-AllFit ref r.heap v)
]

-- The names lead to open Shores of those names, and every Shore's channels are in order.
pub record IsSound (r : ShoreRegistry) : Type 0 where
  pub live : Live.IsValid r
  pub fit : AllFit r.heap

pub register-IsSound :
    (r : ShoreRegistry) (s : ShoreConnection)
    → s.done ≡ false
    → IsFit s
    → IsSound r
    → IsSound (register r s)
register-IsSound r s is_open w v = record {
  live = register-IsValid r s is_open v.live;
  fit = register-AllFit r s w v.fit;
}

pub reap-IsSound : (r : ShoreRegistry) (now : ℕ) → IsSound r → IsSound (reap r now)
reap-IsSound r now v = record { live = reap-IsValid r now v.live; fit = reap-AllFit r now v.fit }

pub read_loop_exit-IsSound :
    (r : ShoreRegistry) (ref : ℕ) → IsSound r → IsSound (read_loop_exit r ref)
read_loop_exit-IsSound r ref v = record {
  live = read_loop_exit-IsValid r ref v.live;
  fit = read_loop_exit-AllFit r ref v.fit;
}

-- A Shore that is worked on, but not closed.
pub set-IsSound :
    (r : ShoreRegistry) (ref : ℕ) (s s' : ShoreConnection)
    → get_elem? r.heap ref ≡ some s
    → Kept s s'
    → IsValid s'
    → IsSound r
    → IsSound (record r { heap = set r.heap ref s' })
set-IsSound r ref s s' there (named, as_open, names) w v = record {
  live = record {
    keys = v.live.keys;
    live = set-AllLive r.heap r.shores ref s s' there named as_open v.live.live;
  };
  fit =
      All-set IsFit r.heap ref s'
        (record { linked = w; owned = names (All-get_elem? IsFit r.heap ref s there v.fit).owned })
        v.fit;
}
