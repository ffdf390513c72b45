-- ===== src/Worker/Reports.antt =====
-- worker/engine.go, server/scheduler.go: what a worker reports, and to whom.
use pi_bully.Prelude.{
  ℕ, ◌≡◌, ◌≢◌, inl, inr, String, true, false, none, some, List, [], ◌∷◌, arith, Option-cases,
  Bool-cases,
}
use pi_bully.Cluster.Members.{Member, lookup}
use pi_bully.Election.State.{is_leader}
use pi_bully.Worker.Engine.{
  Assignment, Snapshot, leader_addr, Rpc, mark_running, report_success, report_failure, renew_lease,
  Env, report, run_task, renew_loop,
}

-- The node follows another node, and this is that node's address.
abbrev pub Follows : ℕ → Snapshot → String → Type 0
Follows worker_id s addr =
    (s.election.leader_id ≢ 0)
    × (s.election.leader_id ≢ worker_id)
    × ((m : Member) × (lookup s.election.leader_id s.members ≡ some m) × (m.grpc_addr ≡ addr))

leader_addr-Follows :
    (worker_id : ℕ) (s : Snapshot) (addr : String)
    → leader_addr worker_id s ≡ some addr
    → Follows worker_id s addr
unfolding leader_addr is_leader
leader_addr-Follows worker_id s addr h = (
  ground arith,
  ground arith,
  elim (Option-cases (lookup s.election.leader_id s.members)) [
    | inl e ↦ absurd (ground arith)
    | inr (m, e) ↦ (m, e, ground arith)
  ],
)

-- There is no other node that it follows, or none with an address.
abbrev pub FollowsNobody : ℕ → Snapshot → Type 0
FollowsNobody worker_id s = (addr : String) → ¬ Follows worker_id s addr

leader_addr-FollowsNobody :
    (worker_id : ℕ) (s : Snapshot) → leader_addr worker_id s ≡ none → FollowsNobody worker_id s
unfolding leader_addr is_leader
leader_addr-FollowsNobody worker_id s h addr (known, other, (m, found, at)) = ground arith

-- The report of how the execution ended.
abbrev pub ending : ℕ → Env → String → String → Rpc
ending worker_id env task_id addr = elim env.failure [
  | none ↦ report_success addr task_id worker_id
  | some error ↦ report_failure addr task_id worker_id error
]

-- The runs of a task, by the calls that they make, in order.
pub data Runs (worker_id : ℕ) (env : Env) (a : Assignment) : List Rpc → Type 0 where
  not_begun : FollowsNobody worker_id env.before → Runs worker_id env a []
  not_marked :
      (addr : String)
      → Follows worker_id env.before addr
      → env.marked ≡ false
      → Runs worker_id env a (mark_running addr a.task_id worker_id ∷ [])
  not_reported :
      (addr : String)
      → Follows worker_id env.before addr
      → env.marked ≡ true
      → FollowsNobody worker_id env.after
      → Runs worker_id env a (mark_running addr a.task_id worker_id ∷ [])
  reported :
      (addr addr' : String)
      → Follows worker_id env.before addr
      → env.marked ≡ true
      → Follows worker_id env.after addr'
      → Runs worker_id env a
          (mark_running addr a.task_id worker_id ∷ ending worker_id env a.task_id addr' ∷ [])

module _ (worker_id : ℕ) (env : Env) (a : Assignment) (addr : String) where
  report-ending :
      leader_addr worker_id env.after ≡ some addr
      → report worker_id env a.task_id ≡ ending worker_id env a.task_id addr ∷ []
  unfolding report
  report-ending e = elim (Option-cases env.failure) [
    | inl f ↦ ground arith
    | inr (error, f) ↦ ground arith
  ]

  run_task-marked :
      leader_addr worker_id env.before ≡ some addr
      → env.marked ≡ true
      → run_task worker_id env a
        ≡ mark_running addr a.task_id worker_id ∷ report worker_id env a.task_id
  unfolding run_task
  run_task-marked e m = ground arith

  run_task-unmarked :
      leader_addr worker_id env.before ≡ some addr
      → env.marked ≡ false
      → run_task worker_id env a ≡ mark_running addr a.task_id worker_id ∷ []
  unfolding run_task
  run_task-unmarked e m = ground arith

report-nobody :
    (worker_id : ℕ) (env : Env) (task_id : String)
    → leader_addr worker_id env.after ≡ none
    → report worker_id env task_id ≡ []
unfolding report
report-nobody worker_id env task_id e = ground arith

marked-Runs :
    (worker_id : ℕ) (env : Env) (a : Assignment) (addr : String)
    → Follows worker_id env.before addr
    → env.marked ≡ true
    → Runs worker_id env a (mark_running addr a.task_id worker_id ∷ report worker_id env a.task_id)
marked-Runs worker_id env a addr follows marked =
    elim (Option-cases (leader_addr worker_id env.after)) [
      | inl e ↦
          rw (report-nobody worker_id env a.task_id e)
            (not_reported addr follows marked (leader_addr-FollowsNobody worker_id env.after e))
      | inr (addr', e) ↦
          rw (report-ending worker_id env a addr' e)
            (reported addr addr' follows marked (leader_addr-Follows worker_id env.after addr' e))
    ]

-- A run makes exactly these calls: none, if the worker follows nobody at its start; else first
-- MarkRunning, to the leader that it follows then; and after that, exactly if MarkRunning is answered
-- and the worker follows a leader at the end, one report, to the leader that it follows at the end. The
-- report says success if the execution did not fail, and else failure, with the error with which it
-- failed. A worker never follows itself.
pub run_task_calls :
    (worker_id : ℕ) (env : Env) (a : Assignment) → Runs worker_id env a (run_task worker_id env a)
unfolding run_task
run_task_calls worker_id env a = elim (Option-cases (leader_addr worker_id env.before)) [
  | inl e ↦ rw (e, run_task) (not_begun (leader_addr-FollowsNobody worker_id env.before e))
  | inr (addr, e) ↦
      let follows = leader_addr-Follows worker_id env.before addr e in
      elim (Bool-cases env.marked) [
        | inl marked ↦
            rw (run_task-marked worker_id env a addr e marked)
              (marked-Runs worker_id env a addr follows marked)
        | inr unmarked ↦
            rw (run_task-unmarked worker_id env a addr e unmarked)
              (not_marked addr follows unmarked)
      ]
]

-- The renewals at a sequence of ticks.
pub data Renewals (worker_id : ℕ) (task_id : String) : List Snapshot → List Rpc → Type 0 where
  no_ticks : Renewals worker_id task_id [] []
  passed :
      {s : Snapshot} {ticks : List Snapshot} {rpcs : List Rpc}
      → FollowsNobody worker_id s
      → Renewals worker_id task_id ticks rpcs
      → Renewals worker_id task_id (s ∷ ticks) rpcs
  renewed :
      {s : Snapshot} {ticks : List Snapshot} {rpcs : List Rpc} (addr : String)
      → Follows worker_id s addr
      → Renewals worker_id task_id ticks rpcs
      → Renewals worker_id task_id (s ∷ ticks) (renew_lease addr task_id worker_id ∷ rpcs)

-- The renewals are exactly these, in the order of the ticks: at each tick at which the worker follows
-- another node, one, for the task and the worker, to the leader that it follows at that tick; at any
-- other tick, none.
pub renew_loop_calls :
    (worker_id : ℕ) (task_id : String) (ticks : List Snapshot)
    → Renewals worker_id task_id ticks (renew_loop worker_id task_id ticks)
unfolding renew_loop
renew_loop_calls worker_id task_id [] = no_ticks
renew_loop_calls worker_id task_id (s ∷ ticks) =
    let later = renew_loop_calls worker_id task_id ticks in
    elim (Option-cases (leader_addr worker_id s)) [
      | inl e ↦ rw (e, renew_loop) (passed (leader_addr-FollowsNobody worker_id s e) later)
      | inr (addr, e) ↦
          rw (e, renew_loop) (renewed addr (leader_addr-Follows worker_id s addr e) later)
    ]
