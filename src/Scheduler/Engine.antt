-- ===== src/Scheduler/Engine.antt =====
-- scheduler/engine.go: one tick of the scheduler. What the scheduler does not decide comes from an
-- environment: the instant and the replies of the database at each call of the store, whether a
-- worker answers an assignment, and how the database's driver reads a column.
pub mod Dispatch
pub mod Free
pub mod Choice
pub mod Tick
pub mod Sound
pub mod Progress
pub mod Sends
pub mod Waiting
use pi_bully.Prelude.{
  ℕ, suc, String, Bool, true, false, not, ◌||◌, Option, none, some, List, [], ◌∷◌, length, ◌==◌,
  if◌then◌else◌, ℤ, pos, negsuc, min,
}
use pi_bully.Cluster.Members.{Member, Members, delete}
use pi_bully.Task.Model.{Task, Lease, Db}
use pi_bully.Task.Tx.{Reply, Result, ok, err}
use pi_bully.Task.Store.{
  Store, Op, Answer, claim, mark_assigned, mark_worker_lost, recover_expired, recover_dead,
  recover_stale, claimed, perform, active_leases,
}
use pi_bully.Scheduler.Strategy.{pick}

pub record Env : Type 0 where
  pub now : ℕ → ℕ
  pub replies : ℕ → List Reply
  pub accepts : (task_id worker_id : ℕ) → Bool
  pub scan_text : Option String → Option String
  pub scan_uint64 : ℤ → Option ℕ

-- The engine with its strategy's counter; `store` is the store's own configuration.
pub record Engine : Type 0 where
  pub self_id : ℕ
  pub store : Store
  pub batch_size : ℤ
  pub did_leader_recovery : Bool
  pub counter : ℕ

-- The database, the number of calls of the store so far, and the assignments that were sent, newest
-- first, as pairs of task and worker.
pub record World : Type 0 where
  pub db : Db
  pub calls : ℕ
  pub sent : List (ℕ × ℕ)

-- One call of the store.
unfoldable pub call_store : Env → Store → Op → World → World × Result Answer
call_store env store op w =
    let (db, result) = perform store (env.now w.calls) op w.db (env.replies w.calls) in
    (record w { db = db; calls = suc w.calls }, result)

-- A call whose answer is only logged.
abbrev pub after_call : Env → Store → Op → World → World
after_call env store op w = (call_store env store op w).0

abbrev pub is_ok : {A : Type 0} → Result A → Bool
is_ok (ok a) = true
is_ok (err e) = false

-- `aliveWorkers`
unfoldable pub alive_workers : ℕ → Members → Members
alive_workers self_id [] = []
alive_workers self_id ((id, m) ∷ members) =
    if id == self_id then alive_workers self_id members else (id, m) ∷ alive_workers self_id members

unfoldable pub without_holders : List Lease → Members → Members
unfolding delete
without_holders [] free = free
without_holders (l ∷ leases) free = without_holders leases (delete l.worker_id free)

-- `freeWorkers`
unfoldable pub free_workers : Env → Members → World → World × Result Members
unfolding without_holders active_leases
free_workers env [] w = (w, ok [])
free_workers env (m ∷ alive) w = (
  record w { calls = suc w.calls },
  elim (active_leases w.db (env.replies w.calls)) [
    | ok leases ↦ ok (without_holders leases (m ∷ alive))
    | err e ↦ err e
  ],
)

-- The dispatch of one task to the worker that was picked.
unfoldable pub dispatch_one : Env → Store → Task → Member → World → World
unfolding call_store
dispatch_one env store t worker w =
    let (w', marked) = call_store env store (mark_assigned t.id worker.id) w in
    if is_ok marked
    then (let w'' = record w' { sent = (t.id, worker.id) ∷ w'.sent } in
        if env.accepts t.id worker.id
        then w''
        else after_call env store (mark_worker_lost t.id worker.id "dispatch failed") w'')
    else w'

-- `dispatchClaimedTasks`, with the counter of the strategy.
unfoldable pub dispatch_claimed_tasks : Env → Store → List Task → Members → ℕ → World → ℕ × World
unfolding pick dispatch_one
dispatch_claimed_tasks env store [] workers counter w = (counter, w)
dispatch_claimed_tasks env store (t ∷ tasks) workers counter w =
    let (counter', picked) = pick counter workers in
    elim picked [
      | none ↦ (counter', w)
      | some worker ↦
          dispatch_claimed_tasks env store tasks workers counter'
            (dispatch_one env store t worker w)
    ]

-- `recoverOnLeadership`
unfoldable pub recover_on_leadership : Env → Store → Members → World → World
unfolding call_store
recover_on_leadership env store alive w =
    after_call env store (recover_dead alive) (after_call env store recover_stale w)

-- `min(e.cfg.BatchSize, len(workers))` of two ints
abbrev pub claim_count : ℤ → ℕ → ℤ
claim_count (pos n) workers = pos (min n workers)
claim_count (negsuc n) workers = negsuc n

abbrev pub is_zero : ℤ → Bool
is_zero (pos n) = n == 0
is_zero (negsuc n) = false

abbrev pub claimed_tasks : Result Answer → List Task
claimed_tasks (ok (claimed tasks)) = tasks
claimed_tasks _ = []

-- The part of `tick` from the choice of the workers on.
unfoldable pub assign_tasks : Env → Engine → Members → World → Engine × World
unfolding dispatch_claimed_tasks call_store
assign_tasks env e workers w =
    let count = claim_count e.batch_size (length workers) in
    if length workers == 0 || is_zero count
    then (e, w)
    else (let (w', result) = call_store env e.store (claim env.scan_text e.self_id count) w in
        let (counter, w'') =
          dispatch_claimed_tasks env e.store (claimed_tasks result) workers e.counter w' in
        (record e { counter = counter }, w''))

-- The part of `tick` from the recovery of expired leases on.
unfoldable pub schedule : Env → Engine → Members → World → Engine × World
unfolding call_store free_workers assign_tasks
schedule env e alive w =
    let (w', expired) = call_store env e.store (recover_expired env.scan_uint64) w in
    let (w'', free) = free_workers env alive w' in
    if is_ok expired
    then elim free [ ok workers ↦ assign_tasks env e workers w'' | err x ↦ (e, w'') ]
    else (e, w')

abbrev pub is_empty : Members → Bool
is_empty [] = true
is_empty (m ∷ ms) = false

unfoldable pub tick : Env → Engine → (is_leader : Bool) → Members → World → Engine × World
unfolding alive_workers recover_on_leadership schedule
tick env e is_leader members w =
    let alive = alive_workers e.self_id members in
    if not is_leader
    then (record e { did_leader_recovery = false }, w)
    else (if is_empty alive
        then (e, w)
        else (if e.did_leader_recovery
            then schedule env e alive w
            else schedule env (record e { did_leader_recovery = true }) alive
                (recover_on_leadership env e.store alive w)))
