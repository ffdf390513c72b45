-- ===== src/Tests/Schedule.antt =====
-- The theorems on the scheduler at concrete inputs.
use pi_bully.Prelude.{
  false, true, ℤ, pos, negsuc, String, Option, ℕ, ◌≡◌, ◌≢◌, refl, none, some, [], ◌∷◌, arith, ◌==◌,
  not, All, Distinct,
}
use pi_bully.Cluster.Members.{Member, Members, lookup}
use pi_bully.Task.Model.{Db, queued, Task, TaskRow, scheduling}
use pi_bully.Task.Tx.{transaction}
use pi_bully.Task.Query.{latest_of, failed_of, task_of}
use pi_bully.Task.Query.Leases.{holder_of}
use pi_bully.Task.Store.Advance.{IsSound}
use pi_bully.Worker.Server.{handle_mark_running}
use pi_bully.System.{begins, goes_on, tick_of, run_marked, Runs-IsSound}
use pi_bully.Task.Store.{Store, perform, mark_assigned_tx}
use pi_bully.Scheduler.Engine.{Engine, tick, Env, World, dispatch_claimed_tasks}
use pi_bully.Scheduler.Engine.Dispatch.{worker_ids, dispatch-Distinct}
use pi_bully.Scheduler.Strategy.{pick}
use mathlib.Core.List.Perm
use pi_bully.Scheduler.Strategy.Order.{pick-perm}
use pi_bully.Scheduler.Strategy.Fair.{pick-Distinct}

abbrev worker : ℕ → Member
worker id = record { id = id; grpc_addr = "node:1" }

abbrev workers : Members
workers = (9, worker 9) ∷ (4, worker 4) ∷ (7, worker 7) ∷ []

pick-Distinct_example : (worker 9).id ≢ (worker 4).id
unfolding pick
pick-Distinct_example =
    pick-Distinct 5 6 workers {m = worker 9} {k = worker 4} (omega arith) (omega arith)
      (omega arith) (omega arith) refl refl

abbrev read_text : Option String → Option String
read_text none = some ""
read_text (some text) = some text

abbrev read_uint64 : ℤ → Option ℕ
read_uint64 (pos n) = some n
read_uint64 (negsuc n) = none

reads : (z : ℤ) (n : ℕ) → read_uint64 z ≡ some n → z ≡ pos n
reads z n e = ground arith

-- Worker 9 does not answer.
abbrev env : Env
env = record {
  now = λ call. 100;
  replies = λ call. [];
  accepts = λ task_id worker_id. not (worker_id == 9);
  scan_text = read_text;
  scan_uint64 = read_uint64;
}

abbrev store : Store
store = record { lease_duration = 180_000_000_000 }

abbrev task : ℕ → Task
task id = record {
  id = id;
  executable = "s3://bully/tasks/transcode.py";
  input_uri = "";
  output_uri = "";
  args = [];
  max_retries = 3;
  created_at = 10;
}

abbrev claimed_row : ℕ → TaskRow
claimed_row id = record {
  id = id;
  executable = "s3://bully/tasks/transcode.py";
  input_uri = some "";
  output_uri = some "";
  args = [];
  max_retries = 3;
  created_at = 10;
}

-- Two tasks are claimed.
abbrev world : World
world = record {
  db = record {
    tasks = claimed_row 1 ∷ claimed_row 2 ∷ [];
    statuses =
        record { task_id = 1; status = scheduling; assigned_to = none; error = none }
        ∷ record { task_id = 2; status = scheduling; assigned_to = none; error = none }
        ∷ [];
    leases = [];
  };
  calls = 0;
  sent = [];
}

sent_to :
    worker_ids (dispatch_claimed_tasks env store (task 1 ∷ task 2 ∷ []) workers 1 world).1.sent
    ≡ 9 ∷ 7 ∷ []
unfolding dispatch_claimed_tasks perform transaction mark_assigned_tx latest_of task_of
sent_to = refl

dispatch-Distinct_example :
    ((dispatch_claimed_tasks env store (task 1 ∷ task 2 ∷ []) workers 1 world).0 ≡ 3)
    × Distinct (
        worker_ids (dispatch_claimed_tasks env store (task 1 ∷ task 2 ∷ []) workers 1 world).1.sent)
    × All
        (λ id. (m : Member) × (lookup id workers ≡ some m))
        (worker_ids
          (dispatch_claimed_tasks env store (task 1 ∷ task 2 ∷ []) workers 1 world).1.sent)
dispatch-Distinct_example =
    dispatch-Distinct env store (task 1 ∷ task 2 ∷ []) workers 1 world (omega arith) (omega arith)
      (omega arith) (omega arith) refl

-- Worker 7 holds a lease.
abbrev busy_world : World
busy_world = record world {
  db = record world.db { leases = record { task_id = 1; worker_id = pos 7; expires_at = 99 } ∷ [] };
}

abbrev idle_workers : Members
idle_workers = (9, worker 9) ∷ (4, worker 4) ∷ []

-- Node 1 leads for the first time; task 1 waits.
abbrev leader : Engine
leader = record {
  self_id = 1;
  store = store;
  batch_size = pos 10;
  did_leader_recovery = false;
  counter = 0;
}

abbrev queued_world : World
queued_world = record world {
  db = record {
    tasks = claimed_row 1 ∷ [];
    statuses = record { task_id = 1; status = queued; assigned_to = none; error = none } ∷ [];
    leases = [];
  };
}

queued-IsSound : IsSound queued_world.db
unfolding latest_of failed_of holder_of
queued-IsSound = record {
  rows = (tt, tt);
  table = record { keys = tt; words = tt };
  orderly = ground arith;
}

-- The leader sends task 1 to worker 4, which reports that it runs it; then another node ticks.
abbrev parse_one : String → Option ℕ
parse_one text = some 1

abbrev sent_db : Db
sent_db = (tick env leader true workers queued_world).1.db

abbrev running_db : Db
running_db = (handle_mark_running parse_one store 110 sent_db [] "1" 4).0

abbrev second_world : World
second_world = record { db = running_db; calls = 0; sent = [] }

abbrev second_leader : Engine
second_leader = record leader { self_id = 9 }

Runs-IsSound_example : IsSound (tick env second_leader true workers second_world).1.db
Runs-IsSound_example =
    Runs-IsSound parse_one
      (goes_on
        (goes_on (goes_on begins (tick_of env leader true workers queued_world reads (omega arith)))
          (run_marked store 110 sent_db [] "1" 4))
        (tick_of env second_leader true workers second_world reads (omega arith)))
      queued-IsSound

-- Go ranges over the map in another order.
pick-perm_example : pick 5 workers ≡ pick 5 ((4, worker 4) ∷ (9, worker 9) ∷ (7, worker 7) ∷ [])
pick-perm_example = pick-perm 5 {xs = workers} (omega arith) (Perm.swap _ _ _)
