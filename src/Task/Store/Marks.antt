-- ===== src/Task/Store/Marks.antt =====
-- task/store.go: the methods on one task, as changes of the whole database.
use pi_bully.Prelude.{
  ℕ, ◌<◌, ◌≡◌, refl, ap, inl, inr, none, some, [], arith, to_int64, Option-cases, u64_mod,
  of_int64-to_int64,
}
use pi_bully.Task.Model.{Db, TaskRow}
use pi_bully.Task.Query.{task_of}
use pi_bully.Task.Tx.{call, query, exec, transaction}
use pi_bully.Task.Store.{
  Store, Op, mark_assigned, mark_running, mark_completed, mark_failed, mark_worker_lost, perform,
  insert_status, latest_status, ensure_lease_owner, ensure_latest_status_in, exec_delete_lease,
  exec_upsert_lease, mark_assigned_tx, mark_running_tx, mark_completed_tx, count_failed, requeue_if,
  mark_failed_tx, mark_worker_lost_tx, lease_end,
}
use pi_bully.Task.Store.Effects.{
  mark_completed_cases, mark_assigned_cases, mark_running_cases, mark_worker_lost_cases,
  mark_failed_cases,
}
use pi_bully.Task.Store.Refine.{IsMark, subject, mark-Steps}
use pi_bully.Task.Store.Table.{IsTable, Apart-IsKey, delete-IsTable, upsert-IsTable}
use pi_bully.Task.Store.Advance.{Advances, Advances-refl}

-- A task that the table does not know is refused.
mark_unknown :
    (s : Store) (now : ℕ) (op : Op) (db : Db)
    → IsMark db op
    → task_of (subject op) db.tasks ≡ none
    → (perform s now op db []).0 ≡ db
unfolding perform transaction call query exec insert_status latest_status ensure_lease_owner
    ensure_latest_status_in exec_delete_lease exec_upsert_lease mark_assigned_tx mark_running_tx
    mark_completed_tx count_failed requeue_if mark_failed_tx mark_worker_lost_tx
mark_unknown s now (mark_assigned t w) db m u = ground arith
mark_unknown s now (mark_running t w) db m u = ground arith
mark_unknown s now (mark_completed t w) db m u = ground arith
mark_unknown s now (mark_failed t w msg) db m u = ground arith
mark_unknown s now (mark_worker_lost t w msg) db m u = ground arith
mark_unknown s now (Op.claim f w n) db m u = absurd m
mark_unknown s now (Op.recover_expired f) db m u = absurd m
mark_unknown s now (Op.recover_dead alive) db m u = absurd m
mark_unknown s now Op.recover_stale db m u = absurd m

-- The tables that a method on one task leaves.
abbrev Keeps : Db → Db → Type 0
Keeps db after = (after.tasks ≡ db.tasks) × (IsTable db.leases → IsTable after.leases)

-- The workers that it names are numbers of Go's uint64.
abbrev pub IsWide : Op → Type 0
IsWide (mark_assigned t w) = w < u64_mod
IsWide _ = Unit {0}

mark-Keeps :
    (s : Store) (now : ℕ) (op : Op) (db : Db) (r : TaskRow)
    → IsMark db op
    → IsWide op
    → task_of (subject op) db.tasks ≡ some r
    → Keeps db (perform s now op db []).0
mark-Keeps s now (mark_assigned t w) db r m wide task = elim (mark_assigned_cases s now t w db) [
  | inl e ↦ rw e (refl, λ h. h)
  | inr (status, e) ↦ rw e (
    refl,
    λ h.
        upsert-IsTable t (to_int64 w) (lease_end s now) db.leases
          (ap to_int64 (of_int64-to_int64 w wide)) h,
  )
]
mark-Keeps s now (mark_running t w) db r m wide task = elim (mark_running_cases s now t w db) [
  | inl e ↦ rw e (refl, λ h. h)
  | inr (owns, status, e) ↦ rw e (refl, λ h. h)
]
mark-Keeps s now (mark_completed t w) db r m wide task = elim (mark_completed_cases s now t w db) [
  | inl e ↦ rw e (refl, λ h. h)
  | inr (owns, status, e) ↦ rw e (refl, delete-IsTable t (to_int64 w) db.leases)
]
mark-Keeps s now (mark_failed t w msg) db r m wide task =
    elim (mark_failed_cases s now t w msg db r task) [
      | inl e ↦ rw e (refl, λ h. h)
      | inr (owns, status, inl (room, e)) ↦ rw e (refl, delete-IsTable t (to_int64 w) db.leases)
      | inr (owns, status, inr (spent, e)) ↦ rw e (refl, delete-IsTable t (to_int64 w) db.leases)
    ]
mark-Keeps s now (mark_worker_lost t w msg) db r m wide task =
    elim (mark_worker_lost_cases s now t w msg db) [
      | inl e ↦ rw e (refl, λ h. h)
      | inr (status, e) ↦ rw e (refl, delete-IsTable t (to_int64 w) db.leases)
    ]
mark-Keeps s now (Op.claim f w n) db r m wide task = absurd m
mark-Keeps s now (Op.recover_expired f) db r m wide task = absurd m
mark-Keeps s now (Op.recover_dead alive) db r m wide task = absurd m
mark-Keeps s now Op.recover_stale db r m wide task = absurd m

pub mark-Advances :
    (s : Store) (now : ℕ) (op : Op) (db : Db)
    → IsMark db op
    → IsWide op
    → IsTable db.leases
    → Advances db (perform s now op db []).0
mark-Advances s now op db m wide h = elim (Option-cases (task_of (subject op) db.tasks)) [
  | inl p ↦ rw (mark_unknown s now op db m p) (Advances-refl db)
  | inr (r, p) ↦
      let keeps = mark-Keeps s now op db r m wide p in
      record {
        tasks = keeps.0;
        table = keeps.1;
        steps = λ t q e. mark-Steps s now op db r m p t q (Apart-IsKey t db.leases h.keys) e;
      }
]
