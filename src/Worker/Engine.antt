-- ===== src/Worker/Engine.antt =====
-- worker/engine.go: what a worker sends to the leader. What it does not decide comes from an
-- environment: whom it takes for the leader each time, whether its first call is answered, and how
-- the execution ends.
use pi_bully.Prelude.{ℕ, String, Bool, ◌||◌, Option, none, some, List, [], ◌∷◌, ◌==◌, if◌then◌else◌}
use pi_bully.Cluster.Members.{Member, Members, lookup}
use pi_bully.Election.State.{State, is_leader}

-- The fields of an assignment that the executor reads are passed on to it unread.
pub record Assignment : Type 0 where
  pub task_id : String
  pub executable_uri : String
  pub input_uri : String
  pub output_uri : String
  pub args : List String

-- What the node knows of the leader at one moment.
pub record Snapshot : Type 0 where
  pub election : State
  pub members : Members

abbrev address_of : Option Member → Option String
address_of none = none
address_of (some m) = some m.grpc_addr

-- `leaderAddr`
unfoldable pub leader_addr : ℕ → Snapshot → Option String
unfolding is_leader lookup
leader_addr worker_id s =
    let leader_id = s.election.leader_id in
    if leader_id == 0 || is_leader s.election worker_id
    then none
    else address_of (lookup leader_id s.members)

-- A call of the leader, with its address, the task and the worker.
pub data Rpc : Type 0 where
  mark_running : (addr task_id : String) → (worker_id : ℕ) → Rpc
  report_success : (addr task_id : String) → (worker_id : ℕ) → Rpc
  report_failure : (addr task_id : String) → (worker_id : ℕ) → (error : String) → Rpc
  renew_lease : (addr task_id : String) → (worker_id : ℕ) → Rpc

-- The leader as it is seen at the start and at the end of a run, whether MarkRunning is answered, and
-- the error with which the execution ends, if it fails.
pub record Env : Type 0 where
  pub before : Snapshot
  pub after : Snapshot
  pub marked : Bool
  pub failure : Option String

-- The report at the end.
unfoldable pub report : ℕ → Env → String → List Rpc
report worker_id env task_id = elim (leader_addr worker_id env.after) [
  | none ↦ []
  | some addr ↦ elim env.failure [
    | none ↦ report_success addr task_id worker_id ∷ []
    | some error ↦ report_failure addr task_id worker_id error ∷ []
  ]
]

-- `runTask`: the calls that it makes, in order, but for those of its renewals.
unfoldable pub run_task : ℕ → Env → Assignment → List Rpc
run_task worker_id env a = elim (leader_addr worker_id env.before) [
  | none ↦ []
  | some addr ↦
      mark_running addr a.task_id worker_id
      ∷ (if env.marked then report worker_id env a.task_id else [])
]

-- `renewLoop`: the calls that it makes, with the leader as it is seen at each tick.
unfoldable pub renew_loop : ℕ → String → List Snapshot → List Rpc
renew_loop worker_id task_id [] = []
renew_loop worker_id task_id (s ∷ ticks) =
    let rest = renew_loop worker_id task_id ticks in
    elim (leader_addr worker_id s) [
      | none ↦ rest
      | some addr ↦ renew_lease addr task_id worker_id ∷ rest
    ]
