-- ===== src/Worker/Server.antt =====
-- server/scheduler.go: the leader's answers to the workers. server/worker_server.go: a worker's answer to
-- the leader. How a text is read as a UUID
-- (`uuid.Parse`) is a parameter.
use pi_bully.Prelude.{ℕ, String, Bool, true, Option, none, some, List}
use pi_bully.Worker.Engine.{Assignment, Env, Rpc, run_task}
use pi_bully.Task.Model.{Db}
use pi_bully.Task.Tx.{Reply, Error, Result, ok, err}
use pi_bully.Task.Store
use pi_bully.Task.Store.{Store, Answer, Op, perform, renew_lease_rpc}

-- `req.Outcome`, with the number of an outcome that is neither.
pub data Outcome : Type 0 where
  success failure : Outcome
  other : ℕ → Outcome

-- The answer of a handler, or its status code.
pub data Status : Type 0 where
  answered : Status
  invalid_argument : Status
  internal : Error → Status

abbrev status_of : {A : Type 0} → Result A → Status
status_of (ok a) = answered
status_of (err e) = internal e

abbrev pub respond : {A : Type 0} → Db × Result A → Db × Status
respond (db, result) = (db, status_of result)

module _ (parse_uuid : String → Option ℕ) (store : Store) (now : ℕ) (db : Db)
    (replies : List Reply) where
  unfoldable pub report_result : String → ℕ → Outcome → String → Db × Status
  report_result task_id worker_id outcome msg = elim (parse_uuid task_id) [
    | none ↦ (db, invalid_argument)
    | some t ↦ elim outcome [
      | success ↦ respond (perform store now (Store.mark_completed t worker_id) db replies)
      | failure ↦ respond (perform store now (Store.mark_failed t worker_id msg) db replies)
      | other n ↦ (db, invalid_argument)
    ]
  ]

  unfoldable pub handle_renew_lease : String → ℕ → Db × Status
  handle_renew_lease task_id worker_id = elim (parse_uuid task_id) [
    | none ↦ (db, invalid_argument)
    | some t ↦ respond (renew_lease_rpc store now t worker_id db replies)
  ]

  unfoldable pub handle_mark_running : String → ℕ → Db × Status
  handle_mark_running task_id worker_id = elim (parse_uuid task_id) [
    | none ↦ (db, invalid_argument)
    | some t ↦ respond (perform store now (Store.mark_running t worker_id) db replies)
  ]

pub record AssignTaskRequest : Type 0 where
  pub task_id : String
  pub executable_uri : String
  pub input_uri : String
  pub output_uri : String
  pub args : List String

abbrev pub assignment_of : AssignTaskRequest → Assignment
assignment_of req = record {
  task_id = req.task_id;
  executable_uri = req.executable_uri;
  input_uri = req.input_uri;
  output_uri = req.output_uri;
  args = req.args;
}

-- `AssignTask`: the calls of the goroutine that it starts, and whether it accepts the task.
unfoldable pub assign_task : ℕ → Env → AssignTaskRequest → List Rpc × Bool
unfolding run_task
assign_task worker_id env req = (run_task worker_id env (assignment_of req), true)
