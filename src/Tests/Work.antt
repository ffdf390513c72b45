-- ===== src/Tests/Work.antt =====
-- The theorems on the worker at concrete inputs: worker 2 follows node 3.
use pi_bully.Prelude.{arith, ◌⊎◌, refl, inl, none, pos, to_int64, false, ◌≡◌, true, some, [], ◌∷◌}
use pi_bully.Election.State.{leading, idle}
use pi_bully.Task.Model.{Db, TaskRow, assigned, completed}
use pi_bully.Task.Query.{latest_of, failed_of, task_of, owns_lease}
use pi_bully.Task.Store.{Store, mark_running_tx, perform, recover_expired, renew_lease_rpc}
use pi_bully.Task.Tx.{transaction}
use pi_bully.Task.Store.Advance.{IsSound}
use pi_bully.Task.Store.History.{start, then_perform, then_renew}
use pi_bully.Task.Query.Leases.{holder_of}
use pi_bully.Worker.Delivery.{deliver, IsRunBy, run_completes}
use pi_bully.Worker.Engine.{
  leader_addr, Assignment, Snapshot, Env, mark_running, report_success, run_task, renew_loop,
}
use pi_bully.Worker.Reports.{Runs, Renewals, run_task_calls, renew_loop_calls}

abbrev following : Snapshot
following = record {
  election = record { leader_id = 3; term = 4; phase = leading };
  members = (3, record { id = 3; grpc_addr = "node:3" }) ∷ [];
}

abbrev alone : Snapshot
alone = record following { election = record { leader_id = 0; term = 5; phase = idle } }

abbrev env : Env
env = record { before = following; after = following; marked = true; failure = some "exit 1" }

abbrev assignment : Assignment
assignment = record {
  task_id = "0197";
  executable_uri = "s3://bully/tasks/mock.py";
  input_uri = "";
  output_uri = "";
  args = [];
}

run_task_calls_example : Runs 2 env assignment (run_task 2 env assignment)
run_task_calls_example = run_task_calls 2 env assignment

renew_loop_calls_example :
    Renewals 2 "0197" (following ∷ alone ∷ []) (renew_loop 2 "0197" (following ∷ alone ∷ []))
renew_loop_calls_example = renew_loop_calls 2 "0197" (following ∷ alone ∷ [])

-- The run that succeeds, of task 1, which worker 2 has been assigned.
abbrev good_env : Env
good_env = record env { failure = none }

abbrev task_row : TaskRow
task_row = record {
  id = 1;
  executable = "s3://bully/tasks/mock.py";
  input_uri = none;
  output_uri = none;
  args = [];
  max_retries = 3;
  created_at = 10;
}

abbrev held_db : Db
held_db = record {
  tasks = task_row ∷ [];
  statuses =
      record { task_id = 1; status = assigned; assigned_to = some (pos 2); error = none } ∷ [];
  leases = record { task_id = 1; worker_id = pos 2; expires_at = 99 } ∷ [];
}

abbrev store : Store
store = record { lease_duration = 180_000_000_000 }

held_db-IsSound : IsSound held_db
unfolding latest_of failed_of holder_of
held_db-IsSound = record {
  rows = ground arith;
  table = record { keys = (tt, tt); words = (refl, tt) };
  orderly = ground arith;
}

-- The database when MarkRunning has been answered.
abbrev begun_db : Db
begun_db = (deliver (λ text. some 1) store 50 held_db (mark_running "node:3" "0197" 2)).0

-- Meanwhile the worker renews its lease, and a leader looks for leases that have expired.
abbrev later_db : Db
later_db =
    (perform store 70 (recover_expired (λ z. none)) (renew_lease_rpc store 60 1 2 begun_db []).0
      []).0

abbrev reported_db : Db
reported_db = (deliver (λ text. some 1) store 80 later_db (report_success "node:3" "0197" 2)).0

run_completes_example :
    (run_task 2 good_env assignment
      ≡ mark_running "node:3" "0197" 2 ∷ report_success "node:3" "0197" 2 ∷ [])
    × ((IsRunBy 1 2 later_db
          × (latest_of 1 reported_db.statuses ≡ some completed)
          × (owns_lease 1 (to_int64 2) reported_db.leases ≡ false))
        ⊎ ((¬ IsRunBy 1 2 later_db) × (reported_db ≡ later_db)))
unfolding leader_addr task_of owns_lease latest_of deliver perform transaction mark_running_tx
run_completes_example =
    run_completes (λ text. some 1) store 50 80 2 1 good_env assignment "node:3" "node:3" held_db
      later_db refl held_db-IsSound ((task_row, refl), refl, inl refl) refl refl refl refl
      (then_perform 70 (recover_expired (λ z. none)) [] (then_renew 60 1 2 [] start) (λ z w p. cc))
