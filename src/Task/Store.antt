-- ===== src/Task/Store.antt =====
-- task/store.go: the methods of `PostgresStore`. Each is a transaction over the database; the instant
-- `now` is that of its start, and `replies` says which calls of the database fail.
pub mod Atomic
pub mod Effects
pub mod Refine
pub mod Claim
pub mod Table
pub mod Advance
pub mod Marks
pub mod Loops
pub mod Scan
pub mod Rows
pub mod Ready
pub mod Sound
pub mod History
pub mod Recovered
use pi_bully.Prelude.{
  ℕ, ◌+◌, ◌*◌, ◌/◌, ◌^◌, String, Bool, true, false, not, Option, none, some, List, [], ◌∷◌, ◌++◌,
  map, ltb, leb, ◌==◌, if◌then◌else◌, select, length, ℤ, pos, negsuc, to_int64, of_int64, zero, suc,
}
use mathlib.Core.Option
use text.Mathlib.Text.{◌==◌ as str_eq}
use pi_bully.Cluster.Members.{Members, Member, lookup}
use pi_bully.Task.Model.{
  TaskState, queued, scheduling, assigned, running, failed, worker_lost, completed, contains,
  TaskRow, Task, StatusRow, LeaseRow, Lease, Db,
}
use pi_bully.Task.Query.{
  latest_of, failed_of, task_of, owns_lease, delete_lease, upsert_lease, renew_lease, claim_queued,
  select_expired_leases, select_stale_scheduling,
}
use pi_bully.Task.Tx.{
  Reply, Error, no_rows, no_task, not_leased, negative_limit, scan_failed, unavailable,
  invalid_status, Result, ok, err, Tx, pure, ◌>>=◌, ◌>>◌, fail, guard, call, read, modify, query,
  exec, Exit, commit, leave, transaction,
}

-- `leaseDuration`, in nanoseconds.
pub record Store : Type 0 where
  pub lease_duration : ℕ

-- `NOW() + $3 * INTERVAL '1 second'`, where $3 is the duration in whole seconds.
abbrev pub lease_end : Store → ℕ → ℕ
lease_end s now = now + s.lease_duration / 10 ^ 9 * 10 ^ 6

abbrev pub or_no_rows : {A : Type 0} → Option A → Tx A
or_no_rows none = fail no_rows
or_no_rows (some a) = pure a

-- `errMsg` as the column `error`, which is NULL for the empty text.
abbrev pub error_value : String → Option String
error_value msg = if str_eq msg "" then none else some msg

abbrev pub add_status : ℕ → TaskState → Option ℕ → String → Db → Db
add_status t state assigned_to msg db = record db {
  statuses =
      record {
        task_id = t;
        status = state;
        assigned_to = Option.map to_int64 assigned_to;
        error = error_value msg;
      }
      ∷ db.statuses;
}

abbrev pub is_task : ℕ → Db → Bool
is_task t db = elim (task_of t db.tasks) [ none ↦ false | some r ↦ true ]

-- `task_id` refers to a row of `task`.
unfoldable pub insert_status : ℕ → TaskState → Option ℕ → String → Tx (Unit {0})
unfolding call
insert_status t state assigned_to msg = do
  call
  known ← read (is_task t)
  guard known no_task
  modify (add_status t state assigned_to msg)

unfoldable pub latest_status : ℕ → Tx TaskState
unfolding query
latest_status t = do found ← query (λ db. latest_of t db.statuses); or_no_rows found

unfoldable pub ensure_lease_owner : ℕ → ℕ → Tx (Unit {0})
unfolding query
ensure_lease_owner t worker_id = do
  found ← query (λ db. owns_lease t (to_int64 worker_id) db.leases)
  guard found not_leased

unfoldable pub ensure_latest_status_in : ℕ → List TaskState → Tx (Unit {0})
unfolding latest_status
ensure_latest_status_in t allowed = do
  status ← latest_status t
  guard (contains allowed status) (invalid_status status)

unfoldable pub exec_delete_lease : ℕ → ℕ → Tx (Unit {0})
unfolding exec
exec_delete_lease t worker_id =
    exec (λ db. record db { leases = delete_lease t (to_int64 worker_id) db.leases })

unfoldable pub exec_upsert_lease : ℕ → ℕ → ℕ → Tx (Unit {0})
unfolding exec
exec_upsert_lease t worker_id expires_at =
    exec (λ db. record db { leases = upsert_lease t (to_int64 worker_id) expires_at db.leases })

unfoldable pub mark_assigned_tx : Store → ℕ → ℕ → ℕ → Tx (Exit (Unit {0}))
unfolding latest_status insert_status exec_upsert_lease
mark_assigned_tx s now t worker_id = do
  status ← latest_status t
  guard (contains (scheduling ∷ []) status) (invalid_status status)
  insert_status t assigned (some worker_id) ""
  exec_upsert_lease t worker_id (lease_end s now)
  pure (commit tt)

unfoldable pub mark_running_tx : ℕ → ℕ → Tx (Exit (Unit {0}))
unfolding ensure_lease_owner ensure_latest_status_in insert_status
mark_running_tx t worker_id = do
  ensure_lease_owner t worker_id
  ensure_latest_status_in t (assigned ∷ running ∷ [])
  insert_status t running (some worker_id) ""
  pure (commit tt)

unfoldable pub mark_completed_tx : ℕ → ℕ → Tx (Exit (Unit {0}))
unfolding ensure_lease_owner ensure_latest_status_in insert_status exec_delete_lease
mark_completed_tx t worker_id = do
  ensure_lease_owner t worker_id
  ensure_latest_status_in t (running ∷ [])
  insert_status t completed (some worker_id) ""
  exec_delete_lease t worker_id
  pure (commit tt)

-- count_failed.sql
unfoldable pub count_failed : ℕ → Tx (ℕ × ℕ)
unfolding query
count_failed t = do
  row ←
      query (λ db. Option.map (λ r. (failed_of t db.statuses, r.max_retries)) (task_of t db.tasks))
  or_no_rows row

-- Requeue if max retry count is not reached.
unfoldable pub requeue_if : Bool → ℕ → Tx (Unit {0})
unfolding insert_status
requeue_if true t = insert_status t queued none ""
requeue_if false t = pure tt

unfoldable pub mark_failed_tx : ℕ → ℕ → String → Tx (Exit (Unit {0}))
unfolding ensure_lease_owner ensure_latest_status_in insert_status exec_delete_lease count_failed
    requeue_if
mark_failed_tx t worker_id msg = do
  ensure_lease_owner t worker_id
  ensure_latest_status_in t (assigned ∷ running ∷ [])
  insert_status t failed (some worker_id) msg
  exec_delete_lease t worker_id
  counts ← count_failed t
  requeue_if (ltb counts.0 counts.1) t
  pure (commit tt)

unfoldable pub mark_worker_lost_tx : ℕ → ℕ → String → Tx (Exit (Unit {0}))
unfolding ensure_latest_status_in insert_status exec_delete_lease
mark_worker_lost_tx t worker_id msg = do
  ensure_latest_status_in t (assigned ∷ running ∷ [])
  insert_status t worker_lost (some worker_id) msg
  exec_delete_lease t worker_id
  insert_status t queued none ""
  pure (commit tt)

-- The loop over the leases that are given up, as both recoveries have it.
unfoldable pub lose_leases : String → List (ℕ × ℕ) → Tx (Unit {0})
unfolding insert_status exec_delete_lease
lose_leases msg [] = pure tt
lose_leases msg ((t, worker_id) ∷ rows) =
    insert_status t worker_lost (some worker_id) msg
    >> (exec_delete_lease t worker_id >> (insert_status t queued none "" >> lose_leases msg rows))

unfoldable pub requeue_all : List ℕ → Tx (Unit {0})
unfolding insert_status
requeue_all [] = pure tt
requeue_all (t ∷ ts) = insert_status t queued none "recovered stale scheduling" >> requeue_all ts

unfoldable pub mark_scheduling : ℕ → List Task → Tx (Unit {0})
unfolding insert_status
mark_scheduling scheduler_id [] = pure tt
mark_scheduling scheduler_id (t ∷ ts) =
    insert_status t.id scheduling (some scheduler_id) "" >> mark_scheduling scheduler_id ts

-- `rows.Scan` for each row; the first that cannot be read ends the loop with an error.
unfoldable pub scan_all {ℓ} : {A : Type ℓ} {B : Type 0} → (A → Option B) → List A → Option (List B)
scan_all scan [] = some []
scan_all scan (x ∷ xs) = Option.bind (scan x) (λ y. Option.map (λ ys. y ∷ ys) (scan_all scan xs))

abbrev pub or_scan_failed : {A : Type 0} → Option A → Tx A
or_scan_failed none = fail scan_failed
or_scan_failed (some a) = pure a

-- A row of `task`, read by a driver whose reading of a nullable text is `scan_text`.
abbrev pub scan_task : (Option String → Option String) → TaskRow → Option Task
scan_task scan_text r = Option.bind (scan_text r.input_uri) (λ input_uri.
    Option.map
      (λ output_uri. record {
        id = r.id;
        executable = r.executable;
        input_uri = input_uri;
        output_uri = output_uri;
        args = r.args;
        max_retries = r.max_retries;
        created_at = r.created_at;
      })
      (scan_text r.output_uri))

-- `LIMIT $1`, which the database refuses below 0.
abbrev pub claim_rows : ℤ → Tx (List TaskRow)
unfolding query
claim_rows (pos n) = query (λ db. claim_queued db n)
claim_rows (negsuc n) = fail negative_limit

abbrev pub claim_scanned : ℕ → List Task → Tx (Exit (List Task))
unfolding mark_scheduling
claim_scanned scheduler_id [] = pure (leave [])
claim_scanned scheduler_id (t ∷ ts) = do
  mark_scheduling scheduler_id (t ∷ ts)
  pure (commit (t ∷ ts))

unfoldable pub claim_queued_tx : (Option String → Option String) → ℕ → ℤ → Tx (Exit (List Task))
unfolding claim_rows claim_scanned scan_all
claim_queued_tx scan_text scheduler_id batch_size = do
  rows ← claim_rows batch_size
  tasks ← or_scan_failed (scan_all (scan_task scan_text) rows)
  claim_scanned scheduler_id tasks

abbrev pub recover_rows : String → List (ℕ × ℕ) → Tx (Exit ℕ)
unfolding lose_leases
recover_rows msg [] = pure (leave 0)
recover_rows msg (l ∷ rows) = do lose_leases msg (l ∷ rows); pure (commit (length (l ∷ rows)))

-- A row of a lease, read by a driver whose reading of a BIGINT into a uint64 is `scan_uint64`.
abbrev pub scan_lease : (ℤ → Option ℕ) → LeaseRow → Option (ℕ × ℕ)
scan_lease scan_uint64 l = Option.map (λ w. (l.task_id, w)) (scan_uint64 l.worker_id)

unfoldable pub recover_expired_leases_tx : (ℤ → Option ℕ) → ℕ → Tx (Exit ℕ)
unfolding query scan_all recover_rows
recover_expired_leases_tx scan_uint64 now = do
  rows ← query (λ db. select_expired_leases db now)
  leases ← or_scan_failed (scan_all (scan_lease scan_uint64) rows)
  recover_rows "lease expired" leases

-- The leases whose worker is not alive.
unfoldable pub dead_leases : Members → List LeaseRow → List (ℕ × ℕ)
dead_leases alive [] = []
dead_leases alive (l ∷ rows) =
    let rest = dead_leases alive rows in
    let worker_id = of_int64 l.worker_id in
    elim (lookup worker_id alive) [ none ↦ (l.task_id, worker_id) ∷ rest | some m ↦ rest ]

unfoldable pub recover_dead_worker_leases_tx : Members → Tx (Exit ℕ)
unfolding query recover_rows
recover_dead_worker_leases_tx alive = do
  rows ← query (λ db. db.leases)
  recover_rows "worker not alive during leader recovery" (dead_leases alive rows)

abbrev pub requeue_rows : List ℕ → Tx (Exit ℕ)
unfolding requeue_all
requeue_rows [] = pure (leave 0)
requeue_rows (t ∷ ts) = do requeue_all (t ∷ ts); pure (commit (length (t ∷ ts)))

unfoldable pub recover_stale_scheduling_tx : Tx (Exit ℕ)
unfolding query requeue_rows
recover_stale_scheduling_tx = do
  rows ← query select_stale_scheduling
  requeue_rows (map (λ r. r.id) rows)

-- RenewLease: one statement outside a transaction.
unfoldable pub renew_lease_rpc : Store → ℕ → ℕ → ℕ → Db → List Reply → Db × Result (Unit {0})
renew_lease_rpc s now t worker_id db replies =
    let w = to_int64 worker_id in
    let renewed = record db { leases = renew_lease t w (lease_end s now) db.leases } in
    let answer = if owns_lease t w db.leases then ok tt else err not_leased in
    elim replies [
      | [] ↦ (renewed, answer)
      | reply ∷ rest ↦ elim reply [
        | Reply.answered ↦ (renewed, answer)
        | Reply.failed ↦ (db, err unavailable)
        | Reply.lost ↦ (renewed, err unavailable)
      ]
    ]

-- ActiveLeases
unfoldable pub active_leases : Db → List Reply → Result (List Lease)
unfolding query
active_leases db replies = elim (query (λ d. d.leases) db replies) [
  | err e ↦ err e
  | ok (rows, db', rest) ↦ ok (
      map
        (λ l. record {
          task_id = l.task_id;
          worker_id = of_int64 l.worker_id;
          expires_at = l.expires_at;
        })
        rows)
]

-- The methods that change the database in a transaction, with their arguments.
pub data Op : Type 0 where
  claim : (Option String → Option String) → (scheduler_id : ℕ) → (batch_size : ℤ) → Op
  mark_assigned mark_running mark_completed : (task_id worker_id : ℕ) → Op
  mark_failed mark_worker_lost : (task_id worker_id : ℕ) → String → Op
  recover_expired : (ℤ → Option ℕ) → Op
  recover_dead : Members → Op
  recover_stale : Op

-- What a method answers.
pub data Answer : Type 0 where
  claimed : List Task → Answer
  recovered : ℕ → Answer
  done : Answer

abbrev pub answer_with : {A : Type 0} → (A → Answer) → Tx (Exit A) → Tx (Exit Answer)
answer_with f body db replies = elim (body db replies) [
  | err e ↦ err e
  | ok (exit, db', rest) ↦
      ok (elim exit [ commit a ↦ commit (f a) | leave a ↦ leave (f a) ], db', rest)
]

unfoldable pub body_of : Store → ℕ → Op → Tx (Exit Answer)
body_of s now (claim scan_text scheduler_id batch_size) =
    answer_with claimed (claim_queued_tx scan_text scheduler_id batch_size)
body_of s now (mark_assigned t w) = answer_with (λ _. done) (mark_assigned_tx s now t w)
body_of s now (mark_running t w) = answer_with (λ _. done) (mark_running_tx t w)
body_of s now (mark_completed t w) = answer_with (λ _. done) (mark_completed_tx t w)
body_of s now (mark_failed t w msg) = answer_with (λ _. done) (mark_failed_tx t w msg)
body_of s now (mark_worker_lost t w msg) = answer_with (λ _. done) (mark_worker_lost_tx t w msg)
body_of s now (recover_expired scan_uint64) =
    answer_with recovered (recover_expired_leases_tx scan_uint64 now)
body_of s now (recover_dead alive) = answer_with recovered (recover_dead_worker_leases_tx alive)
body_of s now recover_stale = answer_with recovered recover_stale_scheduling_tx

-- A method, as its caller sees it.
unfoldable pub perform : Store → ℕ → Op → Db → List Reply → Db × Result Answer
unfolding body_of
perform s now op = transaction (body_of s now op)
