-- ===== src/Registry/Tests.antt =====
-- Tests and witnesses for the registry.
use dock.Base.{
  ℕ, ◌-◌, ◌<◌, ◌≤◌, ◌≡◌, ◌↔◌, ◌⊎◌, ◌≢◌, refl, List, [], ◌∷◌, none, some, arith, Bytes, Bytes_eq,
  codes, lookup, insert, delete, bytes_eq, get_elem?,
}
use dock.Shore.{ShoreConnection, new_connection, close}
use dock.Registry.{ShoreRegistry, new_shore_registry, register, get, get_by_owner, reap, is_stale}
use dock.Registry.Invariant.{IsValid}
use dock.Registry.Lookup.{get_by_owner-eq-some_iff}
use dock.Registry.Tick.{reap-Outcome}
use dock.Registry.Silence.{run_reaper, run_reaper-silent}
use dock.Registry.Lifecycle.{
  Event, connects, pings, exits, ticks, step, Reachable, start, next, Reachable-IsValid,
  reconnect_lost,
}

abbrev ann : Bytes
ann = codes "ann"

abbrev tower : Bytes
tower = codes "shore-tower"

abbrev master : Bytes
master = codes "shore-master"

abbrev tower_shore : ShoreConnection
unfolding new_connection
tower_shore = new_connection tower ann [] [] 0

abbrev master_shore : ShoreConnection
unfolding new_connection
master_shore = new_connection master (codes "bob") [] [] 60_000_000_000

abbrev joins : Bytes → Bytes → ℕ → Event
joins name owner now = connects name owner [] [] now

two_Reachable :
    Reachable (
      step
        (step new_shore_registry (joins tower ann 0))
        (joins master (codes "bob") 60_000_000_000))
two_Reachable = next (next start (joins tower ann 0)) (joins master (codes "bob") 60_000_000_000)

-- Ann's tower and Bob's master.
abbrev two : ShoreRegistry
two = record { heap = tower_shore ∷ master_shore ∷ []; shores = (master, 1) ∷ (tower, 0) ∷ [] }

two-eq :
    step (step new_shore_registry (joins tower ann 0)) (joins master (codes "bob") 60_000_000_000)
    ≡ two
unfolding step register new_shore_registry new_connection lookup insert delete bytes_eq
two-eq = refl

two-IsValid : IsValid two
unfolding new_connection
two-IsValid = rw two-eq at (Reachable-IsValid two_Reachable)

-- The reaper ticks, and Bob's read loop ends.
Reachable-IsValid_example : IsValid (
    step
      (step
        (step
          (step new_shore_registry (joins tower ann 0))
          (joins master (codes "bob") 60_000_000_000))
        (ticks 61_000_000_000))
      (exits 1))
Reachable-IsValid_example =
    Reachable-IsValid (next (next two_Reachable (ticks 61_000_000_000)) (exits 1))

get_by_owner-eq-some_iff_example : (get_by_owner two ann tower ≡ some (0, tower_shore)) ↔ (
    (lookup tower two.shores ≡ some 0)
    × (get_elem? two.heap 0 ≡ some tower_shore)
    × (tower_shore.owner ≡ ann))
unfolding new_connection
get_by_owner-eq-some_iff_example = get_by_owner-eq-some_iff two ann tower 0 tower_shore

-- At one minute the tower, which has not pinged since the start, is stale.
reap-Outcome_example :
    ((45_000_000_000 < 60_000_000_000 - tower_shore.last_ping)
      × (get (reap two 60_000_000_000) tower ≡ none)
      × (get_elem? (reap two 60_000_000_000).heap 0 ≡ some (close tower_shore)))
    ⊎ ((60_000_000_000 - tower_shore.last_ping ≤ 45_000_000_000)
        × (get (reap two 60_000_000_000) tower ≡ some 0)
        × (get_elem? (reap two 60_000_000_000).heap 0 ≡ some tower_shore))
unfolding new_connection get lookup bytes_eq
reap-Outcome_example = reap-Outcome two 60_000_000_000 tower 0 tower_shore two-IsValid refl refl

reconnect_lost_example :
    let r' = step two (joins tower ann 9) in
    (get r' tower ≡ some 2)
    × (get (step r' (exits 0)) tower ≡ none)
    × (get_elem? (step r' (exits 0)).heap 2 ≡ some (new_connection tower ann [] [] 9))
unfolding new_connection get lookup bytes_eq
reconnect_lost_example = reconnect_lost two 0 tower ann [] [] 9 two-IsValid refl

-- Bob's master goes on pinging, and Ann's tower does not.
abbrev four_rounds : List (List Event)
four_rounds =
    (pings 1 70_000_000_000 ∷ [])
    ∷ []
    ∷ (pings 1 100_000_000_000 ∷ [])
    ∷ (pings 1 110_000_000_000 ∷ [])
    ∷ []

run_reaper-silent_example : get (run_reaper 60_000_000_000 two four_rounds) tower ≢ some 0
run_reaper-silent_example =
    run_reaper-silent two 0 60_000_000_000 tower_shore tower four_rounds two-IsValid
      (unfold new_connection in refl) (unfold new_connection in omega arith)
      (
        ((λ e. omega (arith, e)), tt),
        (tt, (((λ e. omega (arith, e)), tt), (((λ e. omega (arith, e)), tt), tt))),
      )
      (omega arith)

master_kept : get (run_reaper 60_000_000_000 two four_rounds) master ≡ some 1
unfolding run_reaper get reap step lookup delete bytes_eq new_connection is_stale close
master_kept = refl
