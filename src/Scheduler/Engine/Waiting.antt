-- ===== src/Scheduler/Engine/Waiting.antt =====
-- scheduler/engine.go: a tick from its recoveries to the assignment of the oldest task that waits.
use pi_bully.Prelude.{ℕ, ◌≡◌, Any}
use pi_bully.Cluster.Members.{Members}
use pi_bully.Task.Tx.{Result}
use pi_bully.Task.Store.{Store, Answer}
use pi_bully.Scheduler.Engine.{Env, Engine, World, dispatch_claimed_tasks, claimed_tasks}
use pi_bully.Scheduler.Engine.Tick.{recovered_world, start_world}

-- The task is assigned to somebody.
abbrev pub IsSent : ℕ → World → Type 0
IsSent t w = (id : ℕ) × Any (λ a. a ≡ (t, id)) w.sent

-- The world after a dispatch of what a claim has answered.
abbrev dispatched : Env → Engine → Members → World × Result Answer → World
dispatched env e workers r =
    (dispatch_claimed_tasks env e.store (claimed_tasks r.1) workers e.counter r.0).1

-- The world in which a leader's tick chooses its workers, and the members that it finds alive.
abbrev pub choice_world : Env → Engine → Members → World → World
choice_world env e members w = recovered_world env e (start_world env e members w)
