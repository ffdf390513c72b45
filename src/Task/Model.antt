-- ===== src/Task/Model.antt =====
-- task/model.go, task/task.go and the tables of migrations/000001_init.up.sql. A UUID is a number. An
-- instant is a number of microseconds.
use pi_bully.Prelude.{ℕ, String, Bool, Option, List, [], ◌∷◌, ◌||◌, false, ◌==◌, ℤ}

pub data TaskState : Type 0 where
  queued scheduling assigned running failed worker_lost completed : TaskState

abbrev pub state_code : TaskState → ℕ
state_code queued = 0
state_code scheduling = 1
state_code assigned = 2
state_code running = 3
state_code failed = 4
state_code worker_lost = 5
state_code completed = 6

abbrev pub same : TaskState → TaskState → Bool
same a b = state_code a == state_code b

-- `slices.Contains`
abbrev pub contains : List TaskState → TaskState → Bool
contains [] status = false
contains (s ∷ allowed) status = same s status || contains allowed status

-- A row of `task`.
pub record TaskRow : Type 0 where
  pub id : ℕ
  pub executable : String
  pub input_uri : Option String
  pub output_uri : Option String
  pub args : List String
  pub max_retries : ℕ
  pub created_at : ℕ

-- The struct `Task`.
pub record Task : Type 0 where
  pub id : ℕ
  pub executable : String
  pub input_uri : String
  pub output_uri : String
  pub args : List String
  pub max_retries : ℕ
  pub created_at : ℕ

-- A row of `task_status`.
pub record StatusRow : Type 0 where
  pub task_id : ℕ
  pub status : TaskState
  pub assigned_to : Option ℤ
  pub error : Option String

-- A row of `task_lease`.
pub record LeaseRow : Type 0 where
  pub task_id : ℕ
  pub worker_id : ℤ
  pub expires_at : ℕ

-- The struct `Lease`.
pub record Lease : Type 0 where
  pub task_id : ℕ
  pub worker_id : ℕ
  pub expires_at : ℕ

-- The rows of `task_status` stand newest first, in the order of `created_at DESC, id DESC`.
pub record Db : Type 0 where
  pub tasks : List TaskRow
  pub statuses : List StatusRow
  pub leases : List LeaseRow
