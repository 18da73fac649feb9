-- ===== src/Registry/Silence.antt =====
-- `runReaper`, with what else happens to the registry between its ticks: a Shore that has fallen silent
-- does not stay registered.
use native.Mathlib.Decide.{ℕ_discrete}
use dock.Base.{
  ℕ, ◌+◌, ◌*◌, ◌≤◌, ◌<◌, ◌≡◌, ◌≢◌, sym, ap, ◌∙◌, subst, inl, inr, List, [], ◌∷◌, Option, none, some,
  arith, Bytes, Bytes_eq, Map, lookup, length, get_elem?, set, get_elem?-append_old,
  get_elem?-set_self, get_elem?-set_ne, All, Option-cases, Bool-cases,
}
use dock.Shore.{ShoreConnection, close, new_connection}
use dock.Registry.{
  ShoreRegistry, modify, register, close_existing, get, is_stale, reap, reap_one, reap_over,
  read_loop_exit,
}
use dock.Registry.Invariant.{IsValid, modify-some, read_loop_exit-some}
use dock.Registry.Tick.{reap-Outcome, reap-IsValid, get-reap-none}
use dock.Registry.Lifecycle.{Event, connects, pings, ticks, exits, step, step-IsValid}

-- The ticker's 15 seconds
abbrev pub tick_interval : ℕ
tick_interval = 15 * 1_000_000_000

unfoldable pub steps : ShoreRegistry → List Event → ShoreRegistry
steps r [] = r
steps r (e ∷ es) = steps (step r e) es

-- `runReaper` from time `now`, with the events before each of its ticks
unfoldable pub run_reaper : ℕ → ShoreRegistry → List (List Event) → ShoreRegistry
unfolding steps
run_reaper now r [] = r
run_reaper now r (es ∷ later) =
    run_reaper (now + tick_interval) (reap (steps r es) (now + tick_interval)) later

-- The last ping of the Shore behind `ref` was at `last` or before.
abbrev pub QuietSince : ℕ → ℕ → List ShoreConnection → Type 0
QuietSince last ref heap =
    (s : ShoreConnection) × (get_elem? heap ref ≡ some s) × (s.last_ping ≤ last)

abbrev pub NoPing : ℕ → Event → Type 0
NoPing ref (pings q now) = q ≢ ref
NoPing ref _ = Unit

module _ (last ref : ℕ) where
  set-QuietSince :
      (heap : List ShoreConnection) (q : ℕ) (s s' : ShoreConnection)
      → get_elem? heap q ≡ some s
      → s'.last_ping ≡ s.last_ping
      → QuietSince last ref heap
      → QuietSince last ref (set heap q s')
  set-QuietSince heap q s s' there same (t, here, quiet) = elim (ℕ_discrete q ref) [
    | yes e ↦
        let both : t ≡ s = ground arith in
        (
          s',
          ap (get_elem? (set heap q s')) (sym e) ∙ get_elem?-set_self heap q s' s there,
          subst (λ n. n ≤ last) (ap (λ (x : ShoreConnection). x.last_ping) both ∙ sym same) quiet,
        )
    | no ne ↦ (t, get_elem?-set_ne heap q ref s' ne ∙ here, quiet)
  ]

  close-last_ping : (s : ShoreConnection) → (close s).last_ping ≡ s.last_ping
  unfolding close
  close-last_ping s = ground arith

  modify-QuietSince :
      (heap : List ShoreConnection) (q : ℕ)
      → QuietSince last ref heap
      → QuietSince last ref (modify q close heap)
  modify-QuietSince heap q v = elim (Option-cases (get_elem? heap q)) [
    | inl e ↦ rw (modify, e) v
    | inr (s, e) ↦
        rw (modify-some q close heap s e)
          (set-QuietSince heap q s (close s) e (close-last_ping s) v)
  ]

  close_existing-QuietSince :
      (o : Option ℕ) (heap : List ShoreConnection)
      → QuietSince last ref heap
      → QuietSince last ref (close_existing o heap)
  unfolding close_existing
  close_existing-QuietSince none heap v = v
  close_existing-QuietSince (some q) heap v = modify-QuietSince heap q v

  reap_one-QuietSince :
      (now : ℕ) (r : ShoreRegistry) (b : Bytes × ℕ)
      → QuietSince last ref r.heap
      → QuietSince last ref (reap_one now r b).heap
  unfolding reap_one
  reap_one-QuietSince now r (name, q) v = elim (Option-cases (get_elem? r.heap q)) [
    | inl e ↦ rw (reap_one, e) v
    | inr (s, e) ↦ elim (Bool-cases (is_stale now s)) [
      | inl old ↦
          rw (reap_one, e, old) (set-QuietSince r.heap q s (close s) e (close-last_ping s) v)
      | inr young ↦ rw (reap_one, e, young) v
    ]
  ]

  reap_over-QuietSince :
      (now : ℕ) (r : ShoreRegistry) (m : Map Bytes ℕ)
      → QuietSince last ref r.heap
      → QuietSince last ref (reap_over now r m).heap
  unfolding reap_over
  reap_over-QuietSince now r [] v = v
  reap_over-QuietSince now r (b ∷ m) v =
      reap_over-QuietSince now (reap_one now r b) m (reap_one-QuietSince now r b v)

  reap-QuietSince :
      (r : ShoreRegistry) (now : ℕ)
      → QuietSince last ref r.heap
      → QuietSince last ref (reap r now).heap
  unfolding reap
  reap-QuietSince r now v = reap_over-QuietSince now r r.shores v

  step-QuietSince :
      (r : ShoreRegistry) (e : Event)
      → NoPing ref e
      → QuietSince last ref r.heap
      → QuietSince last ref (step r e).heap
  unfolding step register read_loop_exit
  step-QuietSince r (connects name owner services addr now) other v =
      let s : ShoreConnection = new_connection name owner services addr now in
      let (t, there, quiet) = close_existing-QuietSince (lookup s.name r.shores) r.heap v in
      (t, get_elem?-append_old _ s t ref there, quiet)
  step-QuietSince r (pings q now) other (t, there, quiet) =
      elim (Option-cases (get_elem? r.heap q)) [
        | inl e ↦ rw (modify, e) (t, there, quiet)
        | inr (s, e) ↦
            rw (modify-some q (λ (x : ShoreConnection). record x { last_ping = now }) r.heap s e)
              (t, get_elem?-set_ne r.heap q ref (record s { last_ping = now }) other ∙ there, quiet)
      ]
  step-QuietSince r (ticks now) other v = reap-QuietSince r now v
  step-QuietSince r (exits q) other v = elim (Option-cases (get_elem? r.heap q)) [
    | inl e ↦ rw (read_loop_exit, e) v
    | inr (s, e) ↦
        rw (read_loop_exit-some r q s e)
          (set-QuietSince r.heap q s (close s) e (close-last_ping s) v)
  ]

  steps-QuietSince :
      (r : ShoreRegistry) (es : List Event)
      → All (NoPing ref) es
      → QuietSince last ref r.heap
      → QuietSince last ref (steps r es).heap
  unfolding steps
  steps-QuietSince r [] others v = v
  steps-QuietSince r (e ∷ es) (other, others) v =
      steps-QuietSince (step r e) es others (step-QuietSince r e other v)

steps-IsValid : (r : ShoreRegistry) (es : List Event) → IsValid r → IsValid (steps r es)
unfolding steps
steps-IsValid r [] v = v
steps-IsValid r (e ∷ es) v = steps-IsValid (step r e) es (step-IsValid r e v)

-- A tick more than 45 seconds later.
reap-silent :
    (r : ShoreRegistry) (last ref now : ℕ) (name : Bytes)
    → IsValid r
    → QuietSince last ref r.heap
    → last + 45_000_000_000 < now
    → get (reap r now) name ≢ some ref
unfolding get
reap-silent r last ref now name v (s, there, quiet) late h = elim (Option-cases (get r name)) [
  | inl free ↦ let still = get-reap-none r now name free in cc
  | inr (q, listed) ↦
      let (t, at_q, _, _) = v.live name q listed in
      elim (reap-Outcome r now name q t v listed at_q) [
        | inl (_, gone, _) ↦ cc
        | inr (young, kept, _) ↦
            let here : get_elem? r.heap q ≡ some s = at_ref q kept in
            let both : t ≡ s = ground arith in
            let age = ap (λ (x : ShoreConnection). x.last_ping) both in omega (arith, age)
      ]
]
  where
    at_ref : (q : ℕ) → get (reap r now) name ≡ some q → get_elem? r.heap q ≡ some s
    at_ref q kept = let e : q ≡ ref = ground arith in ap (get_elem? r.heap) e ∙ there

silent-run :
    (r : ShoreRegistry) (last ref now : ℕ) (name : Bytes) (es : List Event)
    (later : List (List Event))
    → IsValid r
    → QuietSince last ref r.heap
    → All (NoPing ref) es
    → All (All (NoPing ref)) later
    → last + 45_000_000_000 < now + tick_interval + tick_interval * length later
    → get (run_reaper now r (es ∷ later)) name ≢ some ref
unfolding run_reaper
silent-run r last ref now name es [] v quiet others _ late =
    reap-silent (steps r es) last ref (now + tick_interval) name (steps-IsValid r es v)
      (steps-QuietSince last ref r es others quiet) (omega arith)
silent-run r last ref now name es (es' ∷ later) v quiet others (others', more) late =
    let r' = reap (steps r es) (now + tick_interval) in
    silent-run r' last ref (now + tick_interval) name es' later
      (reap-IsValid (steps r es) (now + tick_interval) (steps-IsValid r es v))
      (reap-QuietSince last ref (steps r es) (now + tick_interval)
        (steps-QuietSince last ref r es others quiet))
      others' more (omega arith)

-- A Shore that has fallen silent does not stay registered. While the reaper ticks every 15 seconds,
-- whatever else happens to the registry between its ticks, a Shore from which no ping comes is
-- registered under no name right after the fourth tick, nor after any later one.
pub run_reaper-silent :
    (r : ShoreRegistry) (ref now : ℕ) (s : ShoreConnection) (name : Bytes)
    (rounds : List (List Event))
    → IsValid r
    → get_elem? r.heap ref ≡ some s
    → s.last_ping ≤ now
    → All (All (NoPing ref)) rounds
    → 4 ≤ length rounds
    → get (run_reaper now r rounds) name ≢ some ref
run_reaper-silent r ref now s name [] v there quiet others long = absurd (omega arith)
run_reaper-silent r ref now s name (es ∷ later) v there quiet (others, more) long =
    silent-run r now ref now name es later v (s, there, quiet) others more (omega arith)
