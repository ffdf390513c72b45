-- ===== src/Task/Store/Loops.antt =====
-- task/store.go: the loops of `ClaimQueued` and of the recoveries, as changes of the whole database.
use pi_bully.Prelude.{
  ℕ, ◌<◌, ◌≡◌, refl, sym, subst, ap, ◌∙◌, ◌≢◌, ◌⊎◌, String, none, some, Option, List, [], ◌∷◌,
  arith, to_int64, Apart, All,
}
use pi_bully.Task.Model.{queued, scheduling, worker_lost, Task, Db, TaskRow}
use pi_bully.Task.Query.{task_of, latest_of, failed_of}
use pi_bully.Task.Query.Leases.{holder_of}
use pi_bully.Task.Lifecycle.{Step, claim, lose, unschedule, InFlight}
use pi_bully.Task.Tx.{Result, ok, err, no_task, call, exec, Reply}
use pi_bully.Task.Store.{
  insert_status, exec_delete_lease, lose_leases, requeue_all, mark_scheduling, add_status,
}
use pi_bully.Task.Store.Effects.{without_lease}
use pi_bully.Task.Store.Refine.{
  view, view-lost, view-add_other, view-dropped, view-claimed, view-unscheduled,
}
use pi_bully.Task.Store.Table.{IsTable, Apart-IsKey, delete-IsTable}
use pi_bully.Task.Store.Advance.{Advances, each, each-Advances}

-- One round of each loop.
abbrev pub lose_one : String → ℕ × ℕ → Db → Db
lose_one msg l db =
    add_status l.0 queued none ""
      (without_lease l.0 l.1 (add_status l.0 worker_lost (some l.1) msg db))

abbrev pub requeue_one : ℕ → Db → Db
requeue_one t db = add_status t queued none "recovered stale scheduling" db

abbrev pub claim_one : ℕ → Task → Db → Db
claim_one scheduler_id t db = add_status t.id scheduling (some scheduler_id) "" db

-- What a loop comes to, when no call fails.
abbrev pub loop_end : Option Db → Result (Unit {0} × Db × List Reply)
loop_end none = err no_task
loop_end (some db) = ok (tt, db, [])

pub lose_leases-each :
    (msg : String) (rows : List (ℕ × ℕ)) (db : Db)
    → lose_leases msg rows db [] ≡ loop_end (each (λ l. l.0) (lose_one msg) rows db)
unfolding lose_leases insert_status exec_delete_lease call exec each
lose_leases-each msg [] db = refl
lose_leases-each msg (l ∷ rows) db = ground (arith, lose_leases-each msg rows (lose_one msg l db))

pub requeue_all-each :
    (ts : List ℕ) (db : Db) → requeue_all ts db [] ≡ loop_end (each (λ t. t) requeue_one ts db)
unfolding requeue_all insert_status call each
requeue_all-each [] db = refl
requeue_all-each (t ∷ ts) db = ground (arith, requeue_all-each ts (requeue_one t db))

pub mark_scheduling-each :
    (w : ℕ) (ts : List Task) (db : Db)
    → mark_scheduling w ts db [] ≡ loop_end (each (λ (t : Task). t.id) (claim_one w) ts db)
unfolding mark_scheduling insert_status call each
mark_scheduling-each w [] db = refl
mark_scheduling-each w (t ∷ ts) db = ground (arith, mark_scheduling-each w ts (claim_one w t db))

-- A lease that may be given up, a task whose scheduling is stale, and a task that may be claimed.
abbrev pub IsHeld : Db → ℕ × ℕ → Type 0
IsHeld db l =
    (holder_of l.0 db.leases ≡ some (to_int64 l.1))
    × ((q : TaskRow) → task_of l.0 db.tasks ≡ some q → InFlight (latest_of l.0 db.statuses))

abbrev pub IsStale : Db → ℕ → Type 0
IsStale db t = (latest_of t db.statuses ≡ some scheduling) × (holder_of t db.leases ≡ none)

abbrev pub IsClaimable : Db → Task → Type 0
IsClaimable db t =
    ((latest_of t.id db.statuses ≡ some queued) ⊎ (latest_of t.id db.statuses ≡ some worker_lost))
    × ((q : TaskRow) → task_of t.id db.tasks ≡ some q → failed_of t.id db.statuses < q.max_retries)

lose_one-view :
    (msg : String) (l : ℕ × ℕ) (t : ℕ) (db : Db) → l.0 ≢ t → view t (lose_one msg l db) ≡ view t db
lose_one-view msg l t db n =
    view-add_other t l.0 queued none ""
      (without_lease l.0 l.1 (add_status l.0 worker_lost (some l.1) msg db)) n
    ∙ view-dropped t l.0 l.1 worker_lost msg db n

pub lose-Advances :
    (msg : String) (rows : List (ℕ × ℕ)) (db after : Db)
    → IsTable db.leases
    → Apart (λ (l : ℕ × ℕ). l.0) rows
    → All (IsHeld db) rows
    → each (λ l. l.0) (lose_one msg) rows db ≡ some after
    → Advances db after
lose-Advances msg =
    each-Advances (λ (l : ℕ × ℕ). l.0) (lose_one msg) IsHeld (λ l db. refl)
      (λ l db h. delete-IsTable l.0 (to_int64 l.1) db.leases h)
      (λ l db q h row held.
        subst (λ v. Step q.max_retries (view l.0 db) v)
          (sym (view-lost l.0 l.1 db (Apart-IsKey l.0 db.leases h.keys) held.0 msg))
          (lose (to_int64 l.1) (held.1 q row) held.0))
      (lose_one-view msg)
      (λ x y db n held.
        let same = lose_one-view msg x y.0 db n in
        (
          ap (λ v. v.holder) same ∙ held.0,
          λ q row. subst (λ v. InFlight v.status) (sym same) (held.1 q row),
        ))

pub requeue-Advances :
    (ts : List ℕ) (db after : Db)
    → IsTable db.leases
    → Apart (λ (t : ℕ). t) ts
    → All (IsStale db) ts
    → each (λ t. t) requeue_one ts db ≡ some after
    → Advances db after
requeue-Advances =
    each-Advances (λ (t : ℕ). t) requeue_one IsStale (λ t db. refl) (λ t db h. h)
      (λ t db q h row stale.
        subst (λ v. Step q.max_retries (view t db) v)
          (sym (view-unscheduled t "recovered stale scheduling" db)) (unschedule stale.0 stale.1))
      (λ x t db n. view-add_other t x queued none "recovered stale scheduling" db n)
      (λ x y db n stale.
        let same = view-add_other y x queued none "recovered stale scheduling" db n in
        (ap (λ v. v.status) same ∙ stale.0, stale.1))

pub claim-Advances :
    (w : ℕ) (ts : List Task) (db after : Db)
    → IsTable db.leases
    → Apart (λ (t : Task). t.id) ts
    → All (IsClaimable db) ts
    → each (λ (t : Task). t.id) (claim_one w) ts db ≡ some after
    → Advances db after
claim-Advances w =
    each-Advances (λ (t : Task). t.id) (claim_one w) IsClaimable (λ t db. refl) (λ t db h. h)
      (λ t db q h row ready.
        subst (λ v. Step q.max_retries (view t.id db) v) (sym (view-claimed t.id w db))
          (claim ready.0 (ready.1 q row)))
      (λ x t db n. view-add_other t x.id scheduling (some w) "" db n)
      (λ x y db n ready.
        let same = view-add_other y.id x.id scheduling (some w) "" db n in
        (
          subst (λ v. (v.status ≡ some queued) ⊎ (v.status ≡ some worker_lost)) (sym same) ready.0,
          λ q row. subst (λ v. v.failures < q.max_retries) (sym same) (ready.1 q row),
        ))
