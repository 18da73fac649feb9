-- ===== src/Registry.antt =====
-- registry.go, ShoreRegistry. `heap` holds every ShoreConnection ever made, a pointer is a position in
-- it, and `shores` maps names to pointers. Each operation runs under the registry's lock. Times are
-- nanoseconds; a clock that stands before `LastPing` gives an age of 0 for a negative one.
pub mod Invariant
pub mod Lookup
pub mod Owned
pub mod Reaper
pub mod Tick
pub mod Choice
pub mod Lifecycle
pub mod Silence
pub mod Channels
mod Tests
use dock.Base.{
  ℕ, ◌+◌, ◌-◌, ◌*◌, ◌≡◌, Bool, true, false, List, [], ◌∷◌, ◌++◌, Option, none, some, Bytes,
  Bytes_eq, bytes_lt, Map, ◌==◌, lookup, insert, delete, length, get_elem?, set, ltb, if◌then◌else◌,
}
use dock.Shore.{ShoreConnection, close}

abbrev pub stale_threshold : ℕ
stale_threshold = 45 * 1_000_000_000

pub record ShoreRegistry : Type 0 where
  pub heap : List ShoreConnection
  pub shores : Map Bytes ℕ

-- Apply a method to the Shore behind a pointer.
abbrev pub modify :
    ℕ → (ShoreConnection → ShoreConnection) → List ShoreConnection → List ShoreConnection
modify ref f heap = elim (get_elem? heap ref) [ none ↦ heap | some s ↦ set heap ref (f s) ]

-- `NewShoreRegistry`, before the reaper's first tick
unfoldable pub new_shore_registry : ShoreRegistry
new_shore_registry = record { heap = []; shores = [] }

close_existing : Option ℕ → List ShoreConnection → List ShoreConnection
close_existing none heap = heap
close_existing (some ref) heap = modify ref close heap

-- `Register` of a Shore that is new, which gets the next pointer.
unfoldable pub register : ShoreRegistry → ShoreConnection → ShoreRegistry
unfolding close_existing
register r shore = record {
  heap = close_existing (lookup shore.name r.shores) r.heap ++ shore ∷ [];
  shores = insert shore.name (length r.heap) r.shores;
}

-- `Unregister`
unfoldable pub unregister : ShoreRegistry → Bytes → ShoreRegistry
unregister r name = record r { shores = delete name r.shores }

-- `Get`
unfoldable pub get : ShoreRegistry → Bytes → Option ℕ
get r name = lookup name r.shores

-- `List`: the pointers in the order in which the map is visited.
unfoldable pub list : Map Bytes ℕ → List ℕ
list [] = []
list ((name, ref) ∷ m) = ref ∷ list m

-- One round of the loop of `Default`: the Shore that is first so far, and the one behind the entry.
pick_first : Option ShoreConnection → Option ShoreConnection → Option ShoreConnection
pick_first first none = first
pick_first none (some s) = some s
pick_first (some first) (some s) = if bytes_lt s.name first.name then some s else some first

default_from : List ShoreConnection → Option ShoreConnection → Map Bytes ℕ → Option ShoreConnection
unfolding pick_first
default_from heap first [] = first
default_from heap first ((name, ref) ∷ m) =
    default_from heap (pick_first first (get_elem? heap ref)) m

-- `Default`
unfoldable pub default : ShoreRegistry → Option ShoreConnection
unfolding default_from
default r = default_from r.heap none r.shores

-- One round of the loop of `ListByOwner`
add_owned : Bytes → Option ShoreConnection → List ShoreConnection → List ShoreConnection
add_owned owner none rest = rest
add_owned owner (some s) rest = if s.owner == owner then s ∷ rest else rest

-- The loop of `ListByOwner`
unfoldable pub owned_by : List ShoreConnection → Bytes → Map Bytes ℕ → List ShoreConnection
unfolding add_owned
owned_by heap owner [] = []
owned_by heap owner ((name, ref) ∷ m) = add_owned owner (get_elem? heap ref) (owned_by heap owner m)

-- `ListByOwner`
unfoldable pub list_by_owner : ShoreRegistry → Bytes → List ShoreConnection
unfolding owned_by
list_by_owner r owner = owned_by r.heap owner r.shores

-- `GetByOwner`: the pointer and what it points to.
unfoldable pub get_by_owner : ShoreRegistry → Bytes → Bytes → Option (ℕ × ShoreConnection)
get_by_owner r owner name = elim (lookup name r.shores) [
  | none ↦ none
  | some ref ↦ elim (get_elem? r.heap ref) [
    | none ↦ none
    | some s ↦ if s.owner == owner then some (ref, s) else none
  ]
]

unfoldable pub is_stale : ℕ → ShoreConnection → Bool
is_stale now s = ltb stale_threshold (now - s.last_ping)

-- One round of the loop of `reap`
pub reap_one : ℕ → ShoreRegistry → Bytes × ℕ → ShoreRegistry
reap_one now r (name, ref) = elim (get_elem? r.heap ref) [
  | none ↦ r
  | some s ↦
      if is_stale now s
      then record { heap = set r.heap ref (close s); shores = delete name r.shores }
      else r
]

pub reap_over : ℕ → ShoreRegistry → Map Bytes ℕ → ShoreRegistry
reap_over now r [] = r
reap_over now r (b ∷ m) = reap_over now (reap_one now r b) m

-- `reap` at time `now`
unfoldable pub reap : ShoreRegistry → ℕ → ShoreRegistry
unfolding reap_over reap_one
reap r now = reap_over now r r.shores

-- What `runShoreReadLoop` defers, when the loop of the Shore behind `ref` ends.
unfoldable pub read_loop_exit : ShoreRegistry → ℕ → ShoreRegistry
unfolding unregister
read_loop_exit r ref = elim (get_elem? r.heap ref) [
  | none ↦ r
  | some s ↦ record (unregister r s.name) { heap = modify ref close r.heap }
]
