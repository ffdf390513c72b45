-- ===== src/System.antt =====
-- scheduler/engine.go, server/scheduler.go, task/store.go: the database under the ticks of any number of
-- nodes and the reports of any workers, in any order. A tick is not interrupted.
use pi_bully.Prelude.{ℕ, ◌≡◌, String, Bool, Option, none, some, List, ℤ, pos}
use pi_bully.Cluster.Members.{Members}
use pi_bully.Task.Model.{Db}
use pi_bully.Task.Tx.{Reply}
use pi_bully.Task.Store
use pi_bully.Task.Store.{Store}
use pi_bully.Task.Store.Advance.{IsSound}
use pi_bully.Task.Store.History.{History, start, then_perform, then_renew, history-IsSound}
use pi_bully.Scheduler.Engine.{Env, Engine, World, tick}
use pi_bully.Scheduler.Engine.Sound.{AreWide, tick-IsSound}
use pi_bully.Worker.Server.{
  Outcome, success, failure, other, report_result, handle_renew_lease, handle_mark_running,
}

module _ (parse_uuid : String → Option ℕ) where
  -- A tick of any node, whether it leads or not, and a call that a worker's node makes of a leader.
  pub data Happens : Db → Db → Type 0 where
    tick_of :
        (env : Env) (e : Engine) (is_leader : Bool) (members : Members) (w : World)
        → ((z : ℤ) (n : ℕ) → env.scan_uint64 z ≡ some n → z ≡ pos n)
        → AreWide members
        → Happens w.db (tick env e is_leader members w).1.db
    result_reported :
        (s : Store) (now : ℕ) (db : Db) (replies : List Reply) (task_id : String) (worker_id : ℕ)
        (outcome : Outcome) (msg : String)
        → Happens db (report_result parse_uuid s now db replies task_id worker_id outcome msg).0
    lease_renewed :
        (s : Store) (now : ℕ) (db : Db) (replies : List Reply) (task_id : String) (worker_id : ℕ)
        → Happens db (handle_renew_lease parse_uuid s now db replies task_id worker_id).0
    run_marked :
        (s : Store) (now : ℕ) (db : Db) (replies : List Reply) (task_id : String) (worker_id : ℕ)
        → Happens db (handle_mark_running parse_uuid s now db replies task_id worker_id).0

  pub data Runs (db : Db) : Db → Type 0 where
    begins : Runs db db
    goes_on : {mid after : Db} → Runs db mid → Happens mid after → Runs db after

  report-History :
      (s : Store) (now : ℕ) (db : Db) (replies : List Reply) (task_id : String) (worker_id : ℕ)
      (outcome : Outcome) (msg : String)
      → History s db (report_result parse_uuid s now db replies task_id worker_id outcome msg).0
  unfolding report_result
  report-History s now db replies task_id worker_id outcome msg = go (parse_uuid task_id) outcome
    where
      go :
          (t : Option ℕ) (o : Outcome)
          → History s db (report_result (λ _. t) s now db replies task_id worker_id o msg).0
      go none o = start
      go (some t) success = then_perform now (Store.mark_completed t worker_id) replies start tt
      go (some t) failure = then_perform now (Store.mark_failed t worker_id msg) replies start tt
      go (some t) (other n) = start

  renew-History :
      (s : Store) (now : ℕ) (db : Db) (replies : List Reply) (task_id : String) (worker_id : ℕ)
      → History s db (handle_renew_lease parse_uuid s now db replies task_id worker_id).0
  unfolding handle_renew_lease
  renew-History s now db replies task_id worker_id = go (parse_uuid task_id)
    where
      go :
          (t : Option ℕ)
          → History s db (handle_renew_lease (λ _. t) s now db replies task_id worker_id).0
      go none = start
      go (some t) = then_renew now t worker_id replies start

  marked-History :
      (s : Store) (now : ℕ) (db : Db) (replies : List Reply) (task_id : String) (worker_id : ℕ)
      → History s db (handle_mark_running parse_uuid s now db replies task_id worker_id).0
  unfolding handle_mark_running
  marked-History s now db replies task_id worker_id = go (parse_uuid task_id)
    where
      go :
          (t : Option ℕ)
          → History s db (handle_mark_running (λ _. t) s now db replies task_id worker_id).0
      go none = start
      go (some t) = then_perform now (Store.mark_running t worker_id) replies start tt

  Happens-IsSound : {db after : Db} → Happens db after → IsSound db → IsSound after
  Happens-IsSound (tick_of env e is_leader members w driver wide) sound =
      (tick-IsSound env e is_leader members w driver wide sound).1
  Happens-IsSound (result_reported s now db replies t w outcome msg) sound =
      history-IsSound (report-History s now db replies t w outcome msg) sound
  Happens-IsSound (lease_renewed s now db replies t w) sound =
      history-IsSound (renew-History s now db replies t w) sound
  Happens-IsSound (run_marked s now db replies t w) sound =
      history-IsSound (marked-History s now db replies t w) sound

  -- However the ticks of the nodes and the calls of the workers follow one another, a sound database
  -- stays sound: even while two nodes take themselves for the leader, no task gets two leases, a worker
  -- holds a task's lease exactly while the task is assigned or running, and no task fails more often
  -- than it may. A tick is not interrupted, the members' identifiers are uint64s, and the driver reads
  -- a number that is not negative as itself; calls of the database may fail and workers may not answer.
  pub Runs-IsSound : {db after : Db} → Runs db after → IsSound db → IsSound after
  Runs-IsSound begins sound = sound
  Runs-IsSound (goes_on runs h) sound = Happens-IsSound h (Runs-IsSound runs sound)
