-- ===== src/Scheduler/Engine/Sound.antt =====
-- scheduler/engine.go: what one tick does to the database, as a history of the store's methods.
use pi_bully.Prelude.{
  ℕ, ◌<◌, ◌≡◌, refl, sym, ap, ◌∙◌, subst, Bool, true, false, ◌||◌, some, none, Option, List, [],
  ◌∷◌, length, get_elem?, u64_mod, arith, All, Bool-cases, Option-cases, ◌⊎◌, inl, inr, ◌==◌, ℤ,
  pos, to_int64,
}
use pi_bully.Cluster.Members.{Member, Members, lookup, delete}
use pi_bully.Task.Model.{Task, Lease, Db}
use pi_bully.Task.Query.Leases.{holder_of, holder_of-upsert}
use pi_bully.Task.Tx.{Reply, Result, ok, err, transaction, call, query, exec}
use pi_bully.Task.Store.{
  Store, Op, Answer, mark_assigned, mark_assigned_tx, mark_worker_lost, claim, recover_dead,
  recover_expired, recover_stale, perform, active_leases, insert_status, latest_status,
  exec_upsert_lease, lease_end,
}
use pi_bully.Task.Store.Atomic.{perform_atomic}
use pi_bully.Task.Store.Advance.{IsSound}
use pi_bully.Task.Store.Sound.{IsCall}
use pi_bully.Task.Store.History.{History, start, then_perform, history-IsSound}
use pi_bully.Scheduler.Strategy.{pick, sorted_ids, member_at}
use pi_bully.Scheduler.Engine.Tick.{
  Result-cases, recovered_world, start_world, tick-schedule, tick-alone,
}
use pi_bully.Scheduler.Engine.{
  Env, Engine, World, call_store, after_call, is_ok, alive_workers, without_holders, free_workers,
  dispatch_one, dispatch_claimed_tasks, recover_on_leadership, claim_count, claimed_tasks,
  assign_tasks, schedule, tick, is_empty, is_zero,
}

-- The identifiers of the members are numbers of Go's uint64.
abbrev pub AreWide : Members → Type 0
AreWide members = All (λ (e : ℕ × Member). e.1.id < u64_mod) members

delete-AreWide : (id : ℕ) (ms : Members) → AreWide ms → AreWide (delete id ms)
unfolding delete
delete-AreWide id [] h = h
delete-AreWide id ((k, m) ∷ ms) h = ground (arith, delete-AreWide id ms h.1)

alive_workers-AreWide : (id : ℕ) (ms : Members) → AreWide ms → AreWide (alive_workers id ms)
unfolding alive_workers
alive_workers-AreWide id [] h = h
alive_workers-AreWide id ((k, m) ∷ ms) h = ground (arith, alive_workers-AreWide id ms h.1)

without_holders-AreWide :
    (leases : List Lease) (ms : Members) → AreWide ms → AreWide (without_holders leases ms)
unfolding without_holders
without_holders-AreWide [] ms h = h
without_holders-AreWide (l ∷ leases) ms h =
    without_holders-AreWide leases (delete l.worker_id ms) (delete-AreWide l.worker_id ms h)

free_workers-AreWide :
    (env : Env) (alive : Members) (w : World) (free : Members)
    → AreWide alive
    → (free_workers env alive w).1 ≡ ok free
    → AreWide free
unfolding free_workers
free_workers-AreWide env [] w free h e = let same : [] ≡ free = ground arith in subst AreWide same h
free_workers-AreWide env (m ∷ alive) w free h e = go (active_leases w.db (env.replies w.calls)) refl
  where
    go : (r : Result (List Lease)) → active_leases w.db (env.replies w.calls) ≡ r → AreWide free
    go (err x) p = absurd (ground arith)
    go (ok leases) p =
        let same : without_holders leases (m ∷ alive) ≡ free = ground arith in
        subst AreWide same (without_holders-AreWide leases (m ∷ alive) h)

lookup-AreWide :
    (id : ℕ) (ms : Members) (m : Member) → AreWide ms → lookup id ms ≡ some m → m.id < u64_mod
unfolding lookup
lookup-AreWide id [] m h e = absurd (ground arith)
lookup-AreWide id ((k, n) ∷ ms) m h e = ground (arith, lookup-AreWide id ms m h.1, h.0)

member_at-AreWide :
    (ms : Members) (i : ℕ) (m : Member) → AreWide ms → member_at ms i ≡ some m → m.id < u64_mod
unfolding member_at
member_at-AreWide ms i m h e = elim (Option-cases (get_elem? (sorted_ids ms) i)) [
  | inl p ↦ absurd (ground arith)
  | inr (id, p) ↦ lookup-AreWide id ms m h (ground arith)
]

pick-AreWide :
    (c : ℕ) (ms : Members) (m : Member) → AreWide ms → (pick c ms).1 ≡ some m → m.id < u64_mod
unfolding pick
pick-AreWide c [] m h e = absurd (ground arith)
pick-AreWide c (x ∷ ms) m h e = member_at-AreWide (x ∷ ms) _ m h e

-- An assignment that is answered without an error gives the lease to the worker.
whole_assigned :
    (s : Store) (now t w : ℕ) (db : Db) (answer : Answer)
    → (perform s now (mark_assigned t w) db []).1 ≡ ok answer
    → holder_of t (perform s now (mark_assigned t w) db []).0.leases ≡ some (to_int64 w)
unfolding perform transaction mark_assigned_tx latest_status insert_status exec_upsert_lease query
    exec call
whole_assigned s now t w db answer e =
    ground (arith, holder_of-upsert t t (to_int64 w) (lease_end s now) db.leases)

assigned-holder :
    (s : Store) (now t w : ℕ) (db : Db) (replies : List Reply) (answer : Answer)
    → (perform s now (mark_assigned t w) db replies).1 ≡ ok answer
    → holder_of t (perform s now (mark_assigned t w) db replies).0.leases ≡ some (to_int64 w)
assigned-holder s now t w db replies answer e =
    let whole = (perform_atomic s now (mark_assigned t w) db replies).1 answer e in
    let held = whole_assigned s now t w db answer (ap (λ r. r.1) (sym whole) ∙ e) in
    subst (λ r. holder_of t r.0.leases ≡ some (to_int64 w)) (sym whole) held

module _ (env : Env) (s : Store) (db : Db) where
  -- The world's database comes from `db` by calls of the store.
  abbrev pub Follows : World → Type 0
  Follows w = History s db w.db

  pub call-Follows :
      (op : Op) (w : World) → IsCall w.db op → Follows w → Follows (after_call env s op w)
  unfolding call_store
  call-Follows op w m h = then_perform (env.now w.calls) op (env.replies w.calls) h m

  assigned-IsCall :
      (t id : ℕ) (w : World)
      → is_ok (call_store env s (mark_assigned t id) w).1 ≡ true
      → holder_of t (after_call env s (mark_assigned t id) w).db.leases ≡ some (to_int64 id)
  unfolding call_store
  assigned-IsCall t id w p = elim (Result-cases (call_store env s (mark_assigned t id) w).1) [
    | inl (a, e) ↦ assigned-holder s (env.now w.calls) t id w.db (env.replies w.calls) a e
    | inr e ↦ absurd (ground arith)
  ]

  dispatch_one-Follows :
      (t : Task) (m : Member) (w : World)
      → m.id < u64_mod
      → Follows w
      → Follows (dispatch_one env s t m w)
  unfolding dispatch_one
  dispatch_one-Follows t m w wide h =
      let assigned_world = after_call env s (mark_assigned t.id m.id) w in
      let first = call-Follows (mark_assigned t.id m.id) w wide h in
      elim (Bool-cases (is_ok (call_store env s (mark_assigned t.id m.id) w).1)) [
        | inr p ↦ rw (p, dispatch_one) first
        | inl p ↦
            let held = assigned-IsCall t.id m.id w p in
            elim (Bool-cases (env.accepts t.id m.id)) [
              | inl a ↦ rw (p, a, dispatch_one) first
              | inr a ↦
                  rw (p, a, dispatch_one)
                    (call-Follows (mark_worker_lost t.id m.id "dispatch failed")
                      (record assigned_world { sent = (t.id, m.id) ∷ assigned_world.sent }) held
                      first)
            ]
      ]

  dispatch-Follows :
      (ts : List Task) (ms : Members) (c : ℕ) (w : World)
      → AreWide ms
      → Follows w
      → Follows (dispatch_claimed_tasks env s ts ms c w).1
  unfolding dispatch_claimed_tasks
  dispatch-Follows [] ms c w wide h = h
  dispatch-Follows (t ∷ ts) ms c w wide h = go (pick c ms).1 refl (λ m p.
      dispatch-Follows ts ms (pick c ms).0 (dispatch_one env s t m w) wide
        (dispatch_one-Follows t m w (pick-AreWide c ms m wide p) h))
    where
      go :
          (picked : Option Member)
          → (pick c ms).1 ≡ picked
          → ((m : Member)
              → (pick c ms).1 ≡ some m
              → Follows
                  (dispatch_claimed_tasks env s ts ms (pick c ms).0 (dispatch_one env s t m w)).1)
          → Follows (dispatch_claimed_tasks env s (t ∷ ts) ms c w).1
      go none p later = rw (p, dispatch_claimed_tasks) h
      go (some m) p later = rw (p, dispatch_claimed_tasks) (later m p)

-- The three ways through `schedule`.
schedule-ways :
    (env : Env) (e : Engine) (alive : Members) (w : World)
    → ((schedule env e alive w).1 ≡ recovered_world env e w)
      ⊎ ((schedule env e alive w).1 ≡ (free_workers env alive (recovered_world env e w)).0)
      ⊎ ((free : Members) × ((free_workers env alive (recovered_world env e w)).1 ≡ ok free)
          × ((schedule env e alive w).1
              ≡ (assign_tasks env e free (free_workers env alive (recovered_world env e w)).0).1))
unfolding schedule call_store
schedule-ways env e alive w =
    let expired = (call_store env e.store (recover_expired env.scan_uint64) w).1 in
    let chosen = (free_workers env alive (recovered_world env e w)).1 in
    elim (Bool-cases (is_ok expired)) [
      | inr p ↦ inl (ground arith)
      | inl p ↦ elim (Result-cases chosen) [
        | inl (free, q) ↦ inr (inr (free, q, ground arith))
        | inr q ↦ inr (inl (ground arith))
      ]
    ]

pub free_workers-db :
    (env : Env) (alive : Members) (w : World) → (free_workers env alive w).0.db ≡ w.db
unfolding free_workers
free_workers-db env [] w = refl
free_workers-db env (m ∷ alive) w = refl

module _ (env : Env) (e : Engine) (db : Db)
    (driver : (z : ℤ) (w : ℕ) → env.scan_uint64 z ≡ some w → z ≡ pos w) where
  recovered_leader :
      (alive : Members) (w : World)
      → Follows env e.store db w
      → Follows env e.store db (recover_on_leadership env e.store alive w)
  unfolding recover_on_leadership
  recovered_leader alive w h =
      call-Follows env e.store db (recover_dead alive) (after_call env e.store recover_stale w) tt
        (call-Follows env e.store db recover_stale w tt h)

  assign_tasks-Follows :
      (workers : Members) (w : World)
      → AreWide workers
      → Follows env e.store db w
      → Follows env e.store db (assign_tasks env e workers w).1
  unfolding assign_tasks
  assign_tasks-Follows workers w wide h =
      let count = claim_count e.batch_size (length workers) in
      elim (Bool-cases (length workers == 0 || is_zero count)) [
        | inl p ↦ rw (p, assign_tasks) h
        | inr p ↦
            let r = call_store env e.store (claim env.scan_text e.self_id count) w in
            rw (p, assign_tasks)
              (dispatch-Follows env e.store db (claimed_tasks r.1) workers e.counter r.0 wide
                (call-Follows env e.store db (claim env.scan_text e.self_id count) w tt h))
      ]

  schedule-Follows :
      (alive : Members) (w : World)
      → AreWide alive
      → Follows env e.store db w
      → Follows env e.store db (schedule env e alive w).1
  schedule-Follows alive w wide h =
      let first = call-Follows env e.store db (recover_expired env.scan_uint64) w driver h in
      let w' = recovered_world env e w in
      let chosen : Follows env e.store db (free_workers env alive w').0 =
        subst (History e.store db) (sym (free_workers-db env alive w')) first in
      elim (schedule-ways env e alive w) [
        | inl same ↦ subst (Follows env e.store db) (sym same) first
        | inr (inl same) ↦ subst (Follows env e.store db) (sym same) chosen
        | inr (inr (free, q, same)) ↦ subst (Follows env e.store db) (sym same) (
            assign_tasks-Follows free (free_workers env alive w').0
              (free_workers-AreWide env alive w' free wide q) chosen)
      ]

  pub start-Follows :
      (members : Members) (w : World)
      → Follows env e.store db w
      → Follows env e.store db (start_world env e members w)
  start-Follows members w h = elim (Bool-cases e.did_leader_recovery) [
    | inl p ↦ rw p h
    | inr p ↦ rw p (recovered_leader (alive_workers e.self_id members) w h)
  ]

tick-Follows :
    (env : Env) (e : Engine) (is_leader : Bool) (members : Members) (w : World)
    → ((z : ℤ) (n : ℕ) → env.scan_uint64 z ≡ some n → z ≡ pos n)
    → AreWide members
    → Follows env e.store w.db (tick env e is_leader members w).1
unfolding tick
tick-Follows env e false members w driver wide = start
tick-Follows env e true members w driver wide =
    let follows : World → Type 0 = Follows env e.store w.db in
    let alive = alive_workers e.self_id members in
    let later : follows (tick env e true members w).1 = elim (Bool-cases (is_empty alive)) [
      | inl p ↦ subst (Follows env e.store w.db) (sym (tick-alone env e members w p)) start
      | inr p ↦ subst (Follows env e.store w.db) (sym (tick-schedule env e members w p)) (
          schedule-Follows env (record e { did_leader_recovery = true }) w.db driver alive
            (start_world env e members w) (alive_workers-AreWide e.self_id members wide)
            (start-Follows env e w.db driver members w start))
    ] in
    later

-- All that a tick does to the database is a sequence of calls of the store's methods, each of which
-- the store takes in a sound database: it reports a worker lost only for a task whose lease that worker
-- has just got. So a sound database is sound after the tick, whichever calls of the database fail and
-- whichever workers do not answer. The members' identifiers are uint64s, and the driver reads a number
-- that is not negative as itself.
pub tick-IsSound :
    (env : Env) (e : Engine) (is_leader : Bool) (members : Members) (w : World)
    → ((z : ℤ) (n : ℕ) → env.scan_uint64 z ≡ some n → z ≡ pos n)
    → AreWide members
    → IsSound w.db
    → History e.store w.db (tick env e is_leader members w).1.db
      × IsSound (tick env e is_leader members w).1.db
tick-IsSound env e is_leader members w driver wide sound =
    let past = tick-Follows env e is_leader members w driver wide in
    (past, history-IsSound past sound)
