-- ===== src/Worker/Delivery.antt =====
-- worker/engine.go, server/scheduler.go, task/store.go: a run of a task from end to end, with the calls
-- of others between its two calls. No call of the database fails in the handlers of these two.
use pi_bully.Prelude.{
  ℕ, ◌≡◌, refl, ◌∙◌, ap, String, true, false, Option, none, some, List, [], ◌∷◌, arith, to_int64, ℤ,
  Bool, ◌⊎◌, inl, inr, sym, subst,
}
use pi_bully.Task.Model.{Db, TaskRow, TaskState, LeaseRow, running, completed}
use pi_bully.Task.Lifecycle.{InFlight}
use pi_bully.Task.Query.{latest_of, task_of, owns_lease, delete_lease}
use pi_bully.Task.Tx.{ok, call, query, exec, transaction}
use pi_bully.Task.Store.{
  Store, Answer, done, perform, insert_status, latest_status, ensure_lease_owner,
  ensure_latest_status_in, exec_delete_lease, mark_running_tx, mark_completed_tx, add_status,
}
use pi_bully.Task.Store
use pi_bully.Task.Store.Effects.{without_lease, mark_completed_cases}
use pi_bully.Task.Store.Advance.{Advances, Advances-IsSound, IsSound}
use pi_bully.Task.Store.Sound.{perform-Advances}
use pi_bully.Task.Store.History.{History, history-Advances}
use pi_bully.Worker.Engine.{
  Assignment, Env, Rpc, mark_running, report_success, report_failure, renew_lease, leader_addr,
  run_task, report,
}
use pi_bully.Worker.Server.{
  Status, answered, success, failure, report_result, handle_renew_lease, handle_mark_running,
}

module _ (parse_uuid : String → Option ℕ) (store : Store) (now : ℕ) where
  -- The handler that a call reaches, with its answer.
  unfoldable pub deliver : Db → Rpc → Db × Status
  unfolding report_result handle_renew_lease handle_mark_running
  deliver db (mark_running addr task_id worker_id) =
      handle_mark_running parse_uuid store now db [] task_id worker_id
  deliver db (report_success addr task_id worker_id) =
      report_result parse_uuid store now db [] task_id worker_id success ""
  deliver db (report_failure addr task_id worker_id error) =
      report_result parse_uuid store now db [] task_id worker_id failure error
  deliver db (renew_lease addr task_id worker_id) =
      handle_renew_lease parse_uuid store now db [] task_id worker_id

abbrev pub is_answered : Status → Bool
is_answered answered = true
is_answered _ = false

-- The task is known, and the worker holds it.
abbrev pub IsHeld : ℕ → ℕ → Db → Type 0
IsHeld t w db =
    ((r : TaskRow) × (task_of t db.tasks ≡ some r))
    × (owns_lease t (to_int64 w) db.leases ≡ true)
    × InFlight (latest_of t db.statuses)

marked_running :
    (s : Store) (now t w : ℕ) (db : Db) (r : TaskRow)
    → task_of t db.tasks ≡ some r
    → owns_lease t (to_int64 w) db.leases ≡ true
    → InFlight (latest_of t db.statuses)
    → perform s now (Store.mark_running t w) db [] ≡ (add_status t running (some w) "" db, ok done)
unfolding perform transaction mark_running_tx ensure_lease_owner ensure_latest_status_in
    latest_status insert_status query exec call
marked_running s now t w db r known owned flight = ground arith

marked_completed :
    (s : Store) (now t w : ℕ) (db : Db) (r : TaskRow)
    → task_of t db.tasks ≡ some r
    → owns_lease t (to_int64 w) db.leases ≡ true
    → latest_of t db.statuses ≡ some running
    → (perform s now (Store.mark_completed t w) db []).0
      ≡ without_lease t w (add_status t completed (some w) "" db)
unfolding perform transaction mark_completed_tx ensure_lease_owner ensure_latest_status_in
    latest_status insert_status exec_delete_lease query exec call
marked_completed s now t w db r known owned state = ground arith

owns-delete :
    (t : ℕ) (w : ℤ) (rows : List LeaseRow) → owns_lease t w (delete_lease t w rows) ≡ false
unfolding owns_lease delete_lease
owns-delete t w [] = refl
owns-delete t w (l ∷ rows) = ground (arith, owns-delete t w rows)

latest-add :
    (t w : ℕ) (db : Db) (state : TaskState)
    → latest_of t (add_status t state (some w) "" db).statuses ≡ some state
unfolding latest_of
latest-add t w db state = ground arith

run_task-succeeds :
    (worker_id : ℕ) (env : Env) (a : Assignment) (addr addr' : String)
    → leader_addr worker_id env.before ≡ some addr
    → env.marked ≡ true
    → leader_addr worker_id env.after ≡ some addr'
    → env.failure ≡ none
    → run_task worker_id env a
      ≡ mark_running addr a.task_id worker_id ∷ report_success addr' a.task_id worker_id ∷ []
unfolding run_task report
run_task-succeeds worker_id env a addr addr' before marked after ends = ground arith

-- The worker still holds the task, which it has begun to run.
abbrev pub IsRunBy : ℕ → ℕ → Db → Type 0
IsRunBy t w db =
    (owns_lease t (to_int64 w) db.leases ≡ true) × (latest_of t db.statuses ≡ some running)

module _ (parse_uuid : String → Option ℕ) (store : Store) (now w t : ℕ) (db : Db)
    (addr task_id : String) (parsed : parse_uuid task_id ≡ some t) (r : TaskRow)
    (known : task_of t db.tasks ≡ some r) where
  deliver-mark_running :
      owns_lease t (to_int64 w) db.leases ≡ true
      → InFlight (latest_of t db.statuses)
      → deliver parse_uuid store now db (mark_running addr task_id w)
        ≡ (add_status t running (some w) "" db, answered)
  unfolding deliver
  deliver-mark_running owned flight =
      ground (arith, marked_running store now t w db r known owned flight)

  deliver-report_success :
      (deliver parse_uuid store now db (report_success addr task_id w)).0
      ≡ (perform store now (Store.mark_completed t w) db []).0
  unfolding deliver
  deliver-report_success = ground arith

  -- The report takes effect exactly if the worker still holds the task.
  report_success-cases :
      let after = (deliver parse_uuid store now db (report_success addr task_id w)).0 in
      (IsRunBy t w db
        × (latest_of t after.statuses ≡ some completed)
        × (owns_lease t (to_int64 w) after.leases ≡ false))
      ⊎ ((¬ IsRunBy t w db) × (after ≡ db))
  report_success-cases = elim (mark_completed_cases store now t w db) [
    | inl same ↦ inr (
      λ (owned, runs).
          let ends = marked_completed store now t w db r known owned runs in
          let differs : latest_of t db.statuses ≡ some completed =
            ap (λ d. latest_of t d.statuses) (sym same ∙ ends) ∙ latest-add t w db completed in
          cc,
      deliver-report_success ∙ same,
    )
    | inr (owned, runs, ends) ↦
        let whole = deliver-report_success ∙ ends in
        inl (
          (owned, runs),
          ap (λ d. latest_of t d.statuses) whole ∙ latest-add t w db completed,
          ap (λ d. owns_lease t (to_int64 w) d.leases) whole ∙ owns-delete t (to_int64 w) db.leases,
        )
  ]

-- A worker that holds a task, executes it without an error, and knows a leader before and after, makes
-- two calls, of which the first is answered, and the second reports success. Whatever calls of the
-- store's methods come in between, at whatever instants: when the report arrives and the worker still
-- holds the lease of the task, the latest status of which is RUNNING, the task ends completed and
-- without the worker's lease; otherwise, as after a recovery that has requeued the task, the report
-- changes nothing. The database was sound before, the calls in between are those of the scheduler, no
-- call of the database fails in the handlers of the two calls, and `marked` is the first one's answer.
pub run_completes :
    (parse_uuid : String → Option ℕ) (store : Store) (began ended worker_id t : ℕ) (env : Env)
    (a : Assignment) (addr addr' : String) (db mid : Db)
    → parse_uuid a.task_id ≡ some t
    → IsSound db
    → IsHeld t worker_id db
    → leader_addr worker_id env.before ≡ some addr
    → leader_addr worker_id env.after ≡ some addr'
    → env.failure ≡ none
    → let first = mark_running addr a.task_id worker_id in
      let second = report_success addr' a.task_id worker_id in
      let begun = deliver parse_uuid store began db first in
      let after = (deliver parse_uuid store ended mid second).0 in
      env.marked ≡ is_answered begun.1
      → History store begun.0 mid
      → (run_task worker_id env a ≡ first ∷ second ∷ [])
        × ((IsRunBy t worker_id mid
              × (latest_of t after.statuses ≡ some completed)
              × (owns_lease t (to_int64 worker_id) after.leases ≡ false))
            ⊎ ((¬ IsRunBy t worker_id mid) × (after ≡ mid)))
run_completes parse_uuid store began ended worker_id t env a addr addr' db mid parsed sound
      ((r, known), owned, flight) before after ends marked between =
    let w = worker_id in
    let begun =
      deliver-mark_running parse_uuid store began w t db addr a.task_id parsed r known owned
        flight in
    let is_marked : env.marked ≡ true = marked ∙ ap (λ x. is_answered x.1) begun in
    let one = perform-Advances store began db sound (Store.mark_running t w) [] tt in
    let called = marked_running store began t w db r known owned flight in
    let same : (perform store began (Store.mark_running t w) db []).0
        ≡ (deliver parse_uuid store began db (mark_running addr a.task_id w)).0 =
      ap (λ x. x.0) called ∙ sym (ap (λ x. x.0) begun) in
    let to_begun = subst (λ d. Advances db d) same one in
    let rest = history-Advances (Advances-IsSound to_begun sound) between in
    let still : task_of t mid.tasks ≡ some r =
      ap (λ rows. task_of t rows) (rest.tasks ∙ to_begun.tasks) ∙ known in
    (
      run_task-succeeds w env a addr addr' before is_marked after ends,
      report_success-cases parse_uuid store ended w t mid addr' a.task_id parsed r still,
    )
