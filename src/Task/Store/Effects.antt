-- ===== src/Task/Store/Effects.antt =====
-- task/store.go: what the methods on one task leave when no call fails.
use pi_bully.Prelude.{ℕ, suc, ◌≡◌, ◌⊎◌, ◌<◌, ◌≤◌, String, true, none, some, [], arith, to_int64}
use pi_bully.Task.Model.{
  queued, scheduling, assigned, running, failed, worker_lost, completed, Db, TaskRow,
}
use pi_bully.Task.Lifecycle.{InFlight}
use pi_bully.Task.Query.{latest_of, failed_of, task_of, owns_lease, delete_lease, upsert_lease}
use pi_bully.Task.Tx.{call, query, exec, transaction}
use pi_bully.Task.Store.{
  Store, mark_assigned, mark_running, mark_completed, mark_failed, mark_worker_lost, perform,
  insert_status, latest_status, ensure_lease_owner, ensure_latest_status_in, exec_delete_lease,
  exec_upsert_lease, mark_assigned_tx, mark_running_tx, mark_completed_tx, count_failed, requeue_if,
  mark_failed_tx, mark_worker_lost_tx, add_status, lease_end,
}

abbrev pub without_lease : ℕ → ℕ → Db → Db
without_lease t w db = record db { leases = delete_lease t (to_int64 w) db.leases }

abbrev pub with_lease : ℕ → ℕ → ℕ → Db → Db
with_lease t w expires_at db = record db {
  leases = upsert_lease t (to_int64 w) expires_at db.leases;
}

pub mark_completed_cases :
    (s : Store) (now t w : ℕ) (db : Db)
    → ((perform s now (mark_completed t w) db []).0 ≡ db)
      ⊎ ((owns_lease t (to_int64 w) db.leases ≡ true)
          × (latest_of t db.statuses ≡ some running)
          × ((perform s now (mark_completed t w) db []).0
              ≡ without_lease t w (add_status t completed (some w) "" db)))
unfolding perform transaction mark_completed_tx ensure_lease_owner ensure_latest_status_in
    latest_status insert_status exec_delete_lease query exec call
mark_completed_cases s now t w db = ground arith

pub mark_assigned_cases :
    (s : Store) (now t w : ℕ) (db : Db)
    → ((perform s now (mark_assigned t w) db []).0 ≡ db)
      ⊎ ((latest_of t db.statuses ≡ some scheduling)
          × ((perform s now (mark_assigned t w) db []).0
              ≡ with_lease t w (lease_end s now) (add_status t assigned (some w) "" db)))
unfolding perform transaction mark_assigned_tx latest_status insert_status exec_upsert_lease query
    exec call
mark_assigned_cases s now t w db = ground arith

pub mark_running_cases :
    (s : Store) (now t w : ℕ) (db : Db)
    → ((perform s now (mark_running t w) db []).0 ≡ db)
      ⊎ ((owns_lease t (to_int64 w) db.leases ≡ true)
          × InFlight (latest_of t db.statuses)
          × ((perform s now (mark_running t w) db []).0 ≡ add_status t running (some w) "" db))
unfolding perform transaction mark_running_tx ensure_lease_owner ensure_latest_status_in
    latest_status insert_status query exec call
mark_running_cases s now t w db = ground arith

pub mark_worker_lost_cases :
    (s : Store) (now t w : ℕ) (msg : String) (db : Db)
    → ((perform s now (mark_worker_lost t w msg) db []).0 ≡ db)
      ⊎ (InFlight (latest_of t db.statuses)
          × ((perform s now (mark_worker_lost t w msg) db []).0
              ≡ add_status t queued none ""
                  (without_lease t w (add_status t worker_lost (some w) msg db))))
unfolding perform transaction mark_worker_lost_tx ensure_latest_status_in latest_status
    insert_status exec_delete_lease query exec call
mark_worker_lost_cases s now t w msg db = ground arith

pub mark_failed_cases :
    (s : Store) (now t w : ℕ) (msg : String) (db : Db) (r : TaskRow)
    → task_of t db.tasks ≡ some r
    → ((perform s now (mark_failed t w msg) db []).0 ≡ db)
      ⊎ ((owns_lease t (to_int64 w) db.leases ≡ true)
          × InFlight (latest_of t db.statuses)
          × ((suc (failed_of t db.statuses) < r.max_retries)
                × ((perform s now (mark_failed t w msg) db []).0
                    ≡ add_status t queued none ""
                        (without_lease t w (add_status t failed (some w) msg db)))
              ⊎ (r.max_retries ≤ suc (failed_of t db.statuses))
                × ((perform s now (mark_failed t w msg) db []).0
                    ≡ without_lease t w (add_status t failed (some w) msg db))))
unfolding perform transaction mark_failed_tx requeue_if count_failed ensure_lease_owner
    ensure_latest_status_in latest_status insert_status exec_delete_lease query exec call failed_of
mark_failed_cases s now t w msg db r task = ground arith
