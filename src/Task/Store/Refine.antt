-- ===== src/Task/Store/Refine.antt =====
-- task/store.go: the methods on one task, against the life of a task in docs/design.md.
use native.Mathlib.Decide.{ℕ_discrete}
use pi_bully.Prelude.{
  ℕ, suc, ◌≡◌, refl, ◌≢◌, ◌⊎◌, inl, inr, String, Option, none, some, List, [], ◌∷◌, arith, to_int64,
  subst, sym, ◌∙◌, ap,
}
use pi_bully.Task.Model.{
  TaskState, queued, scheduling, assigned, running, failed, worker_lost, completed, Db, TaskRow,
}
use pi_bully.Task.Query.{latest_of, failed_of, task_of}
use pi_bully.Task.Query.Leases.{
  holder_of, IsKey, owns_lease-holder_of, holder_of-delete_self, holder_of-delete_ne,
  holder_of-upsert,
}
use pi_bully.Task.Lifecycle.{
  View, trail_of, Step, Steps, here, next, assign, run, complete, requeue, give_up, lose, IsOrderly,
  Steps-IsOrderly, Steps-completed,
}
use pi_bully.Task.Tx.{Reply}
use pi_bully.Task.Store.{
  Store, Op, mark_assigned, mark_running, mark_completed, mark_failed, mark_worker_lost, perform,
  add_status, lease_end,
}
use pi_bully.Task.Store.Atomic.{perform_atomic}
use pi_bully.Task.Store.Effects.{
  with_lease, without_lease, mark_completed_cases, mark_assigned_cases, mark_running_cases,
  mark_worker_lost_cases, mark_failed_cases,
}

-- What the database holds of a task.
abbrev pub view : ℕ → Db → View
view t db = record {
  status = latest_of t db.statuses;
  holder = holder_of t db.leases;
  failures = failed_of t db.statuses;
  trail = trail_of t db.statuses;
}

view-running :
    (t w : ℕ) (db : Db)
    → view t (add_status t running (some w) "" db)
      ≡ record (view t db) { status = some running; trail = running ∷ trail_of t db.statuses }
unfolding latest_of failed_of trail_of
view-running t w db = ground arith

view-assigned :
    (t w expires_at : ℕ) (db : Db)
    → view t (with_lease t w expires_at (add_status t assigned (some w) "" db))
      ≡ record (view t db) {
        status = some assigned;
        holder = some (to_int64 w);
        trail = assigned ∷ trail_of t db.statuses;
      }
unfolding latest_of failed_of trail_of
view-assigned t w expires_at db =
    ground (arith, holder_of-upsert t t (to_int64 w) expires_at db.leases)

pub view-claimed :
    (t w : ℕ) (db : Db)
    → view t (add_status t scheduling (some w) "" db)
      ≡ record (view t db) { status = some scheduling; trail = scheduling ∷ trail_of t db.statuses }
unfolding latest_of failed_of trail_of
view-claimed t w db = ground arith

pub view-unscheduled :
    (t : ℕ) (msg : String) (db : Db)
    → view t (add_status t queued none msg db)
      ≡ record (view t db) { status = some queued; trail = queued ∷ trail_of t db.statuses }
unfolding latest_of failed_of trail_of
view-unscheduled t msg db = ground arith

module _ (t w : ℕ) (db : Db) (key : IsKey t db.leases)
    (held : holder_of t db.leases ≡ some (to_int64 w)) where
  view-completed :
      view t (without_lease t w (add_status t completed (some w) "" db)) ≡ record (view t db) {
        status = some completed;
        holder = none;
        trail = completed ∷ trail_of t db.statuses;
      }
  unfolding latest_of failed_of trail_of
  view-completed = ground (arith, holder_of-delete_self t (to_int64 w) db.leases key held)

  view-failed :
      (msg : String)
      → view t (without_lease t w (add_status t failed (some w) msg db)) ≡ record {
        status = some failed;
        holder = none;
        failures = suc (failed_of t db.statuses);
        trail = failed ∷ trail_of t db.statuses;
      }
  unfolding latest_of failed_of trail_of
  view-failed msg = ground (arith, holder_of-delete_self t (to_int64 w) db.leases key held)

  view-requeued :
      (msg : String)
      → view t
          (add_status t queued none "" (without_lease t w (add_status t failed (some w) msg db)))
        ≡ record {
          status = some queued;
          holder = none;
          failures = suc (failed_of t db.statuses);
          trail = queued ∷ failed ∷ trail_of t db.statuses;
        }
  unfolding latest_of failed_of trail_of
  view-requeued msg = ground (arith, holder_of-delete_self t (to_int64 w) db.leases key held)

  pub view-lost :
      (msg : String)
      → view t (
          add_status t queued none ""
            (without_lease t w (add_status t worker_lost (some w) msg db)))
        ≡ record (view t db) {
          status = some queued;
          holder = none;
          trail = queued ∷ worker_lost ∷ trail_of t db.statuses;
        }
  unfolding latest_of failed_of trail_of
  view-lost msg = ground (arith, holder_of-delete_self t (to_int64 w) db.leases key held)

-- A change of another task's rows.
pub view-add_other :
    (t d : ℕ) (state : TaskState) (w : Option ℕ) (msg : String) (db : Db)
    → d ≢ t
    → view t (add_status d state w msg db) ≡ view t db
unfolding latest_of failed_of trail_of
view-add_other t d state w msg db n = ground arith

view-with_other :
    (t d w expires_at : ℕ) (db : Db) → d ≢ t → view t (with_lease d w expires_at db) ≡ view t db
view-with_other t d w expires_at db n =
    ground (arith, holder_of-upsert t d (to_int64 w) expires_at db.leases)

view-without_other : (t d w : ℕ) (db : Db) → d ≢ t → view t (without_lease d w db) ≡ view t db
view-without_other t d w db n = ground (arith, holder_of-delete_ne t d (to_int64 w) db.leases n)

pub view-dropped :
    (t d w : ℕ) (state : TaskState) (msg : String) (db : Db)
    → d ≢ t
    → view t (without_lease d w (add_status d state (some w) msg db)) ≡ view t db
view-dropped t d w state msg db n =
    view-without_other t d w (add_status d state (some w) msg db) n
    ∙ view-add_other t d state (some w) msg db n

-- The view after is the view before, or follows by one step.
abbrev Moves : ℕ → View → View → Type 0
Moves max v u = (u ≡ v) ⊎ ((x : View) × Step max v x × (u ≡ x))

Moves-Steps : {max : ℕ} {v u : View} → Moves max v u → Steps max v u
Moves-Steps {max} {v} (inl e) = subst (λ x. Steps max v x) (sym e) here
Moves-Steps {max} {v} (inr (x, st, e)) = subst (λ y. Steps max v y) (sym e) (next here st)

-- A method on one task that is called as the scheduler calls it: it gives up a worker's lease only
-- where that worker holds it.
abbrev pub IsMark : Db → Op → Type 0
IsMark db (mark_assigned t w) = Unit {0}
IsMark db (mark_running t w) = Unit {0}
IsMark db (mark_completed t w) = Unit {0}
IsMark db (mark_failed t w msg) = Unit {0}
IsMark db (mark_worker_lost t w msg) = holder_of t db.leases ≡ some (to_int64 w)
IsMark db _ = ⊥

-- The task that the method names.
abbrev pub subject : Op → ℕ
subject (mark_assigned t w) = t
subject (mark_running t w) = t
subject (mark_completed t w) = t
subject (mark_failed t w msg) = t
subject (mark_worker_lost t w msg) = t
subject _ = 0

-- What the method does to the task that it names.
mark-Moves :
    (s : Store) (now : ℕ) (op : Op) (db : Db) (r : TaskRow)
    → IsMark db op
    → IsKey (subject op) db.leases
    → task_of (subject op) db.tasks ≡ some r
    → Moves r.max_retries (view (subject op) db) (view (subject op) (perform s now op db []).0)
mark-Moves s now (mark_assigned t w) db r m key task = elim (mark_assigned_cases s now t w db) [
  | inl e ↦ inl (rw e)
  | inr (status, e) ↦
      rw e (inr (_, assign (to_int64 w) status, view-assigned t w (lease_end s now) db))
]
mark-Moves s now (mark_running t w) db r m key task = elim (mark_running_cases s now t w db) [
  | inl e ↦ inl (rw e)
  | inr (owns, status, e) ↦
      let held = owns_lease-holder_of t (to_int64 w) db.leases key owns in
      rw e (inr (_, run (to_int64 w) status held, view-running t w db))
]
mark-Moves s now (mark_completed t w) db r m key task = elim (mark_completed_cases s now t w db) [
  | inl e ↦ inl (rw e)
  | inr (owns, status, e) ↦
      let held = owns_lease-holder_of t (to_int64 w) db.leases key owns in
      rw e (inr (_, complete (to_int64 w) status held, view-completed t w db key held))
]
mark-Moves s now (mark_failed t w msg) db r m key task =
    elim (mark_failed_cases s now t w msg db r task) [
      | inl e ↦ inl (rw e)
      | inr (owns, status, outcome) ↦
          let held = owns_lease-holder_of t (to_int64 w) db.leases key owns in
          elim outcome [
            | inl (room, e) ↦
                rw e (
                  inr (_, requeue (to_int64 w) status held room, view-requeued t w db key held msg))
            | inr (spent, e) ↦
                rw e
                  (inr (_, give_up (to_int64 w) status held spent, view-failed t w db key held msg))
          ]
    ]
mark-Moves s now (mark_worker_lost t w msg) db r held key task =
    elim (mark_worker_lost_cases s now t w msg db) [
      | inl e ↦ inl (rw e)
      | inr (status, e) ↦
          rw e (inr (_, lose (to_int64 w) status held, view-lost t w db key held msg))
    ]
mark-Moves s now (Op.claim f w n) db r m key task = absurd m
mark-Moves s now (Op.recover_expired f) db r m key task = absurd m
mark-Moves s now (Op.recover_dead alive) db r m key task = absurd m
mark-Moves s now Op.recover_stale db r m key task = absurd m

-- What it does to any other task.
mark-view_other :
    (s : Store) (now : ℕ) (op : Op) (db : Db) (r : TaskRow) (d : ℕ)
    → IsMark db op
    → task_of (subject op) db.tasks ≡ some r
    → subject op ≢ d
    → view d (perform s now op db []).0 ≡ view d db
mark-view_other s now (mark_assigned t w) db r d m task n =
    elim (mark_assigned_cases s now t w db) [
      | inl e ↦ rw e
      | inr (status, e) ↦ rw e (
          view-with_other d t w (lease_end s now) (add_status t assigned (some w) "" db) n
          ∙ view-add_other d t assigned (some w) "" db n)
    ]
mark-view_other s now (mark_running t w) db r d m task n = elim (mark_running_cases s now t w db) [
  | inl e ↦ rw e
  | inr (owns, status, e) ↦ rw e (view-add_other d t running (some w) "" db n)
]
mark-view_other s now (mark_completed t w) db r d m task n =
    elim (mark_completed_cases s now t w db) [
      | inl e ↦ rw e
      | inr (owns, status, e) ↦ rw e (view-dropped d t w completed "" db n)
    ]
mark-view_other s now (mark_failed t w msg) db r d m task n =
    elim (mark_failed_cases s now t w msg db r task) [
      | inl e ↦ rw e
      | inr (owns, status, outcome) ↦ elim outcome [
        | inl (room, e) ↦ rw e (
            view-add_other d t queued none ""
              (without_lease t w (add_status t failed (some w) msg db)) n
            ∙ view-dropped d t w failed msg db n)
        | inr (spent, e) ↦ rw e (view-dropped d t w failed msg db n)
      ]
    ]
mark-view_other s now (mark_worker_lost t w msg) db r d m task n =
    elim (mark_worker_lost_cases s now t w msg db) [
      | inl e ↦ rw e
      | inr (status, e) ↦ rw e (
          view-add_other d t queued none ""
            (without_lease t w (add_status t worker_lost (some w) msg db)) n
          ∙ view-dropped d t w worker_lost msg db n)
    ]
mark-view_other s now (Op.claim f w n') db r d m task n = absurd m
mark-view_other s now (Op.recover_expired f) db r d m task n = absurd m
mark-view_other s now (Op.recover_dead alive) db r d m task n = absurd m
mark-view_other s now Op.recover_stale db r d m task n = absurd m

module _ (s : Store) (now : ℕ) (op : Op) (db : Db) (r : TaskRow) (mark : IsMark db op)
    (task : task_of (subject op) db.tasks ≡ some r) where
  mark-Steps_self :
      (d : ℕ) (q : TaskRow)
      → subject op ≡ d
      → IsKey d db.leases
      → task_of d db.tasks ≡ some q
      → Steps q.max_retries (view d db) (view d (perform s now op db []).0)
  mark-Steps_self d q p key row =
      let same_row : q ≡ r = cc (row, ap (λ x. task_of x db.tasks) p, task) in
      subst (λ x. Steps x.max_retries (view d db) (view d (perform s now op db []).0))
        (sym same_row)
        (subst (λ x. Steps r.max_retries (view x db) (view x (perform s now op db []).0)) p
          (Moves-Steps
            (mark-Moves s now op db r mark (subst (λ x. IsKey x db.leases) (sym p) key) task)))

  pub mark-Steps :
      (d : ℕ) (q : TaskRow)
      → IsKey d db.leases
      → task_of d db.tasks ≡ some q
      → Steps q.max_retries (view d db) (view d (perform s now op db []).0)
  mark-Steps d q key row = elim (ℕ_discrete (subject op) d) [
    | yes p ↦ mark-Steps_self d q p key row
    | no n ↦
        subst (λ x. Steps q.max_retries (view d db) x)
          (sym (mark-view_other s now op db r d mark task n)) here
  ]

  -- A method on one task moves every task along the documented life of a task, whichever calls of the
  -- database fail: the task that the method names makes one step or none, and no other task moves.
  -- Each task has one lease at most, and a worker's lease is given up only where that worker holds it.
  pub mark_refines :
      (replies : List Reply) (d : ℕ) (q : TaskRow)
      → IsKey d db.leases
      → task_of d db.tasks ≡ some q
      → Steps q.max_retries (view d db) (view d (perform s now op db replies).0)
        × (subject op ≢ d → view d (perform s now op db replies).0 ≡ view d db)
  mark_refines replies d q key row = elim ((perform_atomic s now op db replies).0) [
    | inl e ↦ rw e (here, λ n. refl)
    | inr e ↦ rw e (mark-Steps d q key row, mark-view_other s now op db r d mark task)
  ]

  -- A method on one task keeps every task orderly, whichever calls of the database fail: a worker
  -- holds the task's lease exactly while the task is assigned or running, its failures do not exceed
  -- its retry limit, and they leave room while an attempt is under way. Each task has one lease at
  -- most, and a worker's lease is given up only where that worker holds it.
  pub mark_keeps_IsOrderly :
      (replies : List Reply) (d : ℕ) (q : TaskRow)
      → IsKey d db.leases
      → task_of d db.tasks ≡ some q
      → IsOrderly q.max_retries (view d db)
      → IsOrderly q.max_retries (view d (perform s now op db replies).0)
  mark_keeps_IsOrderly replies d q key row = Steps-IsOrderly (mark_refines replies d q key row).0

  -- A completed task stays completed, with no lease and with its count of failures, whatever method
  -- on one task is called and whichever calls of the database fail.
  pub mark_keeps_completed :
      (replies : List Reply) (d : ℕ) (q : TaskRow)
      → IsKey d db.leases
      → task_of d db.tasks ≡ some q
      → latest_of d db.statuses ≡ some completed
      → view d (perform s now op db replies).0 ≡ view d db
  mark_keeps_completed replies d q key row = Steps-completed (mark_refines replies d q key row).0
