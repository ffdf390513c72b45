-- ===== src/Task/Store/History.antt =====
-- task/store.go: the database over any sequence of calls of the store's methods.
use pi_bully.Prelude.{
  ℕ, ◌≡◌, refl, some, List, [], ◌∷◌, arith, ℤ, to_int64, All, ap, sym, subst, ◌≢◌, Bool,
  if◌then◌else◌, ◌==◌, ◌&&◌, int_eq,
}
use pi_bully.Task.Model.{completed, Db, TaskRow, LeaseRow}
use pi_bully.Task.Query.{task_of, latest_of, renew_lease}
use pi_bully.Task.Query.Leases.{holder_of}
use pi_bully.Task.Lifecycle.{Steps, here, Steps-completed}
use pi_bully.Task.Tx.{Reply}
use pi_bully.Task.Store.{Store, Op, perform, renew_lease_rpc, lease_end}
use pi_bully.Task.Store.Refine.{view}
use pi_bully.Task.Store.Table.{IsTable}
use pi_bully.Task.Store.Advance.{Advances, Advances-refl, Advances-trans, Advances-IsSound, IsSound}
use pi_bully.Task.Store.Sound.{IsCall, perform-Advances}

-- The database after calls of the methods, at any instants, whichever calls of the database fail.
pub data History (s : Store) (db : Db) : Db → Type 0 where
  start : History s db db
  then_perform :
      {mid : Db} (now : ℕ) (op : Op) (replies : List Reply)
      → History s db mid
      → IsCall mid op
      → History s db (perform s now op mid replies).0
  then_renew :
      {mid : Db} (now t w : ℕ) (replies : List Reply)
      → History s db mid
      → History s db (renew_lease_rpc s now t w mid replies).0

holder_of-renew :
    (t d : ℕ) (w : ℤ) (expires_at : ℕ) (rows : List LeaseRow)
    → holder_of t (renew_lease d w expires_at rows) ≡ holder_of t rows
unfolding renew_lease holder_of
holder_of-renew t d w expires_at [] = refl
holder_of-renew t d w expires_at (l ∷ rows) = ground (arith, holder_of-renew t d w expires_at rows)

Absent-renew :
    (t d : ℕ) (w : ℤ) (expires_at : ℕ) (rows : List LeaseRow)
    → All (λ l. l.task_id ≢ t) rows
    → All (λ l. l.task_id ≢ t) (renew_lease d w expires_at rows)
unfolding renew_lease
Absent-renew t d w expires_at [] h = h
Absent-renew t d w expires_at (l ∷ rows) h = ground (arith, Absent-renew t d w expires_at rows h.1)

renewed_key :
    (b : Bool) (l : LeaseRow) (expires_at : ℕ)
    → l.task_id ≡ (if b then record l { expires_at = expires_at } else l).task_id
renewed_key b l expires_at = ground arith

renew-IsTable :
    (d : ℕ) (w : ℤ) (expires_at : ℕ) (rows : List LeaseRow)
    → IsTable rows
    → IsTable (renew_lease d w expires_at rows)
unfolding renew_lease
renew-IsTable d w expires_at [] h = h
renew-IsTable d w expires_at (l ∷ rows) h =
    let rest = renew-IsTable d w expires_at rows (record { keys = h.keys.1; words = h.words.1 }) in
    record {
      keys = (
        subst (λ n. All (λ y. y.task_id ≢ n) (renew_lease d w expires_at rows))
            (renewed_key (l.task_id == d && int_eq l.worker_id w) l expires_at)
            (Absent-renew l.task_id d w expires_at rows h.keys.0),
        rest.keys,
      );
      words = ground (arith, h.words.0, rest.words);
    }

renewed-Advances :
    (s : Store) (now t w : ℕ) (db : Db)
    → Advances db (record db { leases = renew_lease t (to_int64 w) (lease_end s now) db.leases })
renewed-Advances s now t w db = record {
  tasks = refl;
  table = renew-IsTable t (to_int64 w) (lease_end s now) db.leases;
  steps = λ d q e.
      subst (λ v. Steps q.max_retries (view d db) v)
        (ap (λ h. record (view d db) { holder = h })
          (sym (holder_of-renew d t (to_int64 w) (lease_end s now) db.leases)))
        here;
}

renew-Advances :
    (s : Store) (now t w : ℕ) (db : Db) (replies : List Reply)
    → Advances db (renew_lease_rpc s now t w db replies).0
unfolding renew_lease_rpc
renew-Advances s now t w db [] = renewed-Advances s now t w db
renew-Advances s now t w db (Reply.answered ∷ rest) = renewed-Advances s now t w db
renew-Advances s now t w db (Reply.failed ∷ rest) = Advances-refl db
renew-Advances s now t w db (Reply.lost ∷ rest) = renewed-Advances s now t w db

pub history-Advances :
    {s : Store} {db after : Db} → IsSound db → History s db after → Advances db after
history-Advances {db = db} sound start = Advances-refl db
history-Advances {s} sound (then_perform {mid} now op replies h m) =
    let before = history-Advances sound h in
    Advances-trans before (perform-Advances s now mid (Advances-IsSound before sound) op replies m)
history-Advances {s} sound (then_renew {mid} now t w replies h) =
    Advances-trans (history-Advances sound h) (renew-Advances s now t w mid replies)

-- However the store's methods are called, and whichever calls of the database fail, a sound database
-- stays sound: each task has one row and one lease at most, each lease names a worker by the int64 of
-- a uint64, a worker holds a task's lease exactly while the task is assigned or running, and a task's
-- failures do not exceed its limit and leave room while an attempt is under way. The calls are those
-- of the scheduler: a worker is reported lost only for a task whose lease it holds, workers are named
-- by uint64s, and the driver reads a number that is not negative as itself.
pub history-IsSound : {s : Store} {db after : Db} → History s db after → IsSound db → IsSound after
history-IsSound h sound = Advances-IsSound (history-Advances sound h) sound

-- A completed task stays completed, with its count of failures, its history and without a lease, over
-- any sequence of calls of the store's methods as the scheduler makes them, from a sound database and
-- whichever calls of the database fail: a worker is reported lost only for a task whose lease it holds,
-- workers are named by uint64s, and the driver reads a number that is not negative as itself.
pub history_completed :
    {s : Store} {db after : Db} (t : ℕ) (q : TaskRow)
    → History s db after
    → IsSound db
    → task_of t db.tasks ≡ some q
    → latest_of t db.statuses ≡ some completed
    → view t after ≡ view t db
history_completed t q h sound row c = Steps-completed ((history-Advances sound h).steps t q row) c
