-- ===== src/Scheduler/Engine/Tick.antt =====
-- scheduler/engine.go: to whom one tick sends tasks.
use pi_bully.Prelude.{
  ℕ, ◌≡◌, ◌⊎◌, refl, inl, inr, true, false, arith, All, Distinct, Bool-cases, if◌then◌else◌,
}
use pi_bully.Cluster.Members.{Members}
use pi_bully.Task.Model.{Task}
use pi_bully.Task.Tx.{Result, ok, err}
use pi_bully.Task.Store.{recover_expired}
use pi_bully.Scheduler.Engine.{
  Env, Engine, World, call_store, alive_workers, recover_on_leadership, schedule, tick, is_empty,
  is_ok,
}
use pi_bully.Scheduler.Engine.Dispatch.{worker_ids}
use pi_bully.Scheduler.Engine.Choice.{IsFree}

-- The workers that were sent a task are different, and each of them is free.
abbrev pub SendsRight : Env → ℕ → Members → World → World → Type 0
SendsRight env self_id members w after =
    Distinct (worker_ids after.sent) × All (IsFree env self_id members w) (worker_ids after.sent)

-- The world after the recovery of expired leases.
abbrev pub recovered_world : Env → Engine → World → World
recovered_world env e w = (call_store env e.store (recover_expired env.scan_uint64) w).0

pub Result-cases : {A : Type 0} (r : Result A) → ((a : A) × (r ≡ ok a)) ⊎ (is_ok r ≡ false)
Result-cases (ok a) = inl (a, refl)
Result-cases (err x) = inr refl

-- The world in which a leader's tick recovers the expired leases.
abbrev pub start_world : Env → Engine → Members → World → World
start_world env e members w =
    if e.did_leader_recovery
    then w
    else recover_on_leadership env e.store (alive_workers e.self_id members) w

-- A leader with other members alive goes on from there, as an engine that has done its recovery.
pub tick-schedule :
    (env : Env) (e : Engine) (members : Members) (w : World)
    → is_empty (alive_workers e.self_id members) ≡ false
    → (tick env e true members w).1
      ≡ (schedule env
          (record e { did_leader_recovery = true })
          (alive_workers e.self_id members)
          (start_world env e members w)).1
unfolding tick
tick-schedule env e members w h = elim (Bool-cases e.did_leader_recovery) [
  | inl p ↦ ground arith
  | inr p ↦ ground arith
]

pub tick-alone :
    (env : Env) (e : Engine) (members : Members) (w : World)
    → is_empty (alive_workers e.self_id members) ≡ true
    → (tick env e true members w).1 ≡ w
unfolding tick
tick-alone env e members w h = ground arith
