-- ===== src/Tests/Tasks.antt =====
-- The theorems on the store at concrete inputs: task 1 is running on worker 7.
use pi_bully.Prelude.{◌≡◌, ◌⊎◌, refl, inr, none, some, List, [], ◌∷◌, arith, to_int64, of_int64, ℤ}
use pi_bully.Task.Model.{TaskRow, Db, assigned, running, completed}
use pi_bully.Task.Query.{latest_of, failed_of, task_of}
use pi_bully.Task.Query.Leases.{holder_of}
use pi_bully.Cluster.Members.{Member, Members, lookup}
use pi_bully.Task.Lifecycle.{Steps}
use pi_bully.Task.Tx.{Reply, ok, transaction}
use pi_bully.Task.Store.{
  Store, Answer, mark_failed, recover_dead, recovered, perform, recover_dead_worker_leases_tx,
  dead_leases,
}
use pi_bully.Task.Store.Advance.{IsSound}
use pi_bully.Task.Store.Sound.{perform_refines}
use pi_bully.Task.Store.History.{History, start, then_perform, history-IsSound, history_completed}
use pi_bully.Task.Store.Recovered.{recover_dead_lem}
use pi_bully.Task.Store.Atomic.{perform_atomic}
use pi_bully.Task.Store.Refine.{view}

abbrev row : TaskRow
row = record {
  id = 1;
  executable = "s3://bully/tasks/transcode.py";
  input_uri = some "s3://bully/input/sample.mp4";
  output_uri = none;
  args = [];
  max_retries = 3;
  created_at = 10;
}

abbrev db : Db
db = record {
  tasks = row ∷ record row { id = 2 } ∷ [];
  statuses =
      record { task_id = 1; status = running; assigned_to = some (to_int64 7); error = none }
      ∷ record { task_id = 1; status = assigned; assigned_to = some (to_int64 7); error = none }
      ∷ record { task_id = 2; status = completed; assigned_to = some (to_int64 7); error = none }
      ∷ [];
  leases = record { task_id = 1; worker_id = to_int64 7; expires_at = 99 } ∷ [];
}

abbrev store : Store
store = record { lease_duration = 180_000_000_000 }

-- The third call fails.
abbrev broken : List Reply
broken = Reply.answered ∷ Reply.answered ∷ Reply.failed ∷ []

perform_atomic_example :
    (((perform store 50 (mark_failed 1 7 "exit 1") db broken).0 ≡ db)
      ⊎ ((perform store 50 (mark_failed 1 7 "exit 1") db broken).0
          ≡ (perform store 50 (mark_failed 1 7 "exit 1") db []).0))
    × ((a : Answer)
        → (perform store 50 (mark_failed 1 7 "exit 1") db broken).1 ≡ ok a
        → perform store 50 (mark_failed 1 7 "exit 1") db broken
          ≡ perform store 50 (mark_failed 1 7 "exit 1") db [])
perform_atomic_example = perform_atomic store 50 (mark_failed 1 7 "exit 1") db broken

db-IsSound : IsSound db
unfolding latest_of failed_of holder_of
db-IsSound = record {
  rows = ground arith;
  table = record { keys = (tt, tt); words = (refl, tt) };
  orderly = ground arith;
}

perform_refines_example :
    Steps 3 (view 1 db) (view 1 (perform store 50 (mark_failed 1 7 "exit 1") db broken).0)
unfolding task_of
perform_refines_example =
    perform_refines store 50 (mark_failed 1 7 "exit 1") db broken 1 row db-IsSound tt refl

-- Worker 7 is lost; the next claim finds the task.
abbrev lost_db : Db
lost_db = (perform store 60 (recover_dead []) db []).0

lost_history : History store db lost_db
lost_history = then_perform 60 (recover_dead []) [] start tt

history-IsSound_example : IsSound lost_db
history-IsSound_example = history-IsSound lost_history db-IsSound

history_completed_example : view 2 lost_db ≡ view 2 db
unfolding task_of latest_of
history_completed_example =
    history_completed 2 (record row { id = 2 }) lost_history db-IsSound refl refl

-- Worker 7 is alive, and task 1 stays with it.
abbrev alive : Members
alive = (7, record { id = 7; grpc_addr = "node:7" }) ∷ []

recover_dead_lem_example :
    (z : ℤ) × (m : Member) × (holder_of 1 (perform store 60 (recover_dead alive) db []).0.leases
      ≡ some z)
    × (lookup (of_int64 z) alive ≡ some m)
unfolding task_of latest_of perform transaction recover_dead_worker_leases_tx dead_leases lookup
recover_dead_lem_example =
    recover_dead_lem store 60 alive db [] (recovered 0) 1 row db-IsSound refl refl (inr refl)
