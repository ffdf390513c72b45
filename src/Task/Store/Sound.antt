-- ===== src/Task/Store/Sound.antt =====
-- task/store.go: every method, as a change of the whole database, and every sequence of calls.
use pi_bully.Prelude.{
  ℕ, ◌≡◌, refl, sym, subst, inl, inr, String, none, some, Option, List, [], ◌∷◌, map, arith, length,
  ℤ, pos, negsuc, to_int64, Apart, All,
}
use pi_bully.Task.Model.{Task, Db, TaskRow}
use pi_bully.Task.Query.{task_of, claim_queued, select_expired_leases, select_stale_scheduling}
use pi_bully.Task.Query.Leases.{holder_of}
use pi_bully.Task.Lifecycle.{Steps}
use pi_bully.Task.Tx.{Reply, Tx, ◌>>=◌, ◌>>◌, pure, commit, query, call, transaction}
use pi_bully.Task.Store.{
  Store, Op, Answer, or_scan_failed, claim, mark_assigned, mark_running, mark_completed,
  mark_failed, mark_worker_lost, recover_expired, recover_dead, recover_stale, claimed, recovered,
  perform, body_of, answer_with, recover_rows, requeue_rows, claim_scanned, claim_queued_tx,
  recover_expired_leases_tx, recover_dead_worker_leases_tx, recover_stale_scheduling_tx, scan_all,
  scan_task, scan_lease, dead_leases, lose_leases, requeue_all, mark_scheduling,
}
use pi_bully.Task.Store.Atomic.{perform_atomic}
use pi_bully.Task.Store.Refine.{view}
use pi_bully.Task.Store.Advance.{Advances, Advances-refl, IsSound}
use pi_bully.Task.Store.Marks.{IsWide, mark-Advances}
use pi_bully.Task.Store.Loops.{
  loop_end, IsHeld, IsStale, IsClaimable, lose_leases-each, requeue_all-each, mark_scheduling-each,
  lose-Advances, requeue-Advances, claim-Advances,
}
use pi_bully.Task.Store.Rows.{dead-IsHeld, dead-Apart, expired-IsHeld, expired-Apart}
use pi_bully.Task.Store.Ready.{
  claim-IsClaimable, claim-Apart, select_stale_scheduling-IsStale, stale-Apart,
}

-- A transaction that commits what a loop leaves, when no call fails.
abbrev kept : Db → Option Db → Db
kept db none = db
kept db (some after) = after

loop-end :
    {A : Type 0} (f : A → Answer) (a : A) (loop : Tx (Unit {0})) (db : Db) (o : Option Db)
    → loop db [] ≡ loop_end o
    → (transaction (answer_with f (loop >> pure (commit a))) db []).0 ≡ kept db o
unfolding transaction call
loop-end f a loop db none e = ground arith
loop-end f a loop db (some after) e = ground arith

kept-Advances :
    (db : Db) (o : Option Db)
    → ((after : Db) → o ≡ some after → Advances db after)
    → Advances db (kept db o)
kept-Advances db none h = Advances-refl db
kept-Advances db (some after) h = h after refl

recover_rows-Advances :
    (msg : String) (rows : List (ℕ × ℕ)) (db : Db)
    → IsSound db
    → Apart (λ (l : ℕ × ℕ). l.0) rows
    → All (IsHeld db) rows
    → Advances db (transaction (answer_with recovered (recover_rows msg rows)) db []).0
unfolding transaction call recover_rows
recover_rows-Advances msg [] db s n held = Advances-refl db
recover_rows-Advances msg (l ∷ rows) db s n held =
    subst (λ d. Advances db d)
      (sym (
        loop-end recovered (length (l ∷ rows)) (lose_leases msg (l ∷ rows)) db _
          (lose_leases-each msg (l ∷ rows) db)))
      (kept-Advances db _ λ after p. lose-Advances msg (l ∷ rows) db after s.table n held p)

requeue_rows-Advances :
    (ts : List ℕ) (db : Db)
    → IsSound db
    → Apart (λ (t : ℕ). t) ts
    → All (IsStale db) ts
    → Advances db (transaction (answer_with recovered (requeue_rows ts)) db []).0
unfolding transaction call requeue_rows
requeue_rows-Advances [] db s n stale = Advances-refl db
requeue_rows-Advances (t ∷ ts) db s n stale =
    subst (λ d. Advances db d)
      (sym (
        loop-end recovered (length (t ∷ ts)) (requeue_all (t ∷ ts)) db _
          (requeue_all-each (t ∷ ts) db)))
      (kept-Advances db _ λ after p. requeue-Advances (t ∷ ts) db after s.table n stale p)

claim_scanned-Advances :
    (w : ℕ) (ts : List Task) (db : Db)
    → IsSound db
    → Apart (λ (t : Task). t.id) ts
    → All (IsClaimable db) ts
    → Advances db (transaction (answer_with claimed (claim_scanned w ts)) db []).0
unfolding transaction call claim_scanned
claim_scanned-Advances w [] db s n ready = Advances-refl db
claim_scanned-Advances w (t ∷ ts) db s n ready =
    subst (λ d. Advances db d)
      (sym (
        loop-end claimed (t ∷ ts) (mark_scheduling w (t ∷ ts)) db _
          (mark_scheduling-each w (t ∷ ts) db)))
      (kept-Advances db _ λ after p. claim-Advances w (t ∷ ts) db after s.table n ready p)

-- A call as the scheduler makes it: the method gives up a worker's lease only where that worker holds
-- it, it names a worker by a uint64, and the driver reads a number that is not negative as itself.
abbrev pub IsCall : Db → Op → Type 0
IsCall db (mark_worker_lost t w msg) = holder_of t db.leases ≡ some (to_int64 w)
IsCall db (recover_expired scan_uint64) = (z : ℤ) (w : ℕ) → scan_uint64 z ≡ some w → z ≡ pos w
IsCall db op = IsWide op

module _ (s : Store) (now : ℕ) (db : Db) (sound : IsSound db) where
  claim_read :
      (scan_text : Option String → Option String) (w n : ℕ) (o : Option (List Task))
      → scan_all (scan_task scan_text) (claim_queued db n) ≡ o
      → Advances db
          (transaction (answer_with claimed (or_scan_failed o >>= claim_scanned w)) db []).0
  unfolding transaction call
  claim_read scan_text w n none p = Advances-refl db
  claim_read scan_text w n (some ts) p =
      claim_scanned-Advances w ts db sound (claim-Apart db sound scan_text n ts p)
        (claim-IsClaimable db sound scan_text n ts p)

  claim-perform :
      (scan_text : Option String → Option String) (w : ℕ) (n : ℤ)
      → Advances db (perform s now (claim scan_text w n) db []).0
  unfolding perform body_of transaction call query claim_queued_tx
  claim-perform scan_text w (negsuc n) = Advances-refl db
  claim-perform scan_text w (pos n) = claim_read scan_text w n _ refl

  expired_read :
      (scan_uint64 : ℤ → Option ℕ) (o : Option (List (ℕ × ℕ)))
      → ((z : ℤ) (w : ℕ) → scan_uint64 z ≡ some w → z ≡ pos w)
      → scan_all (scan_lease scan_uint64) (select_expired_leases db now) ≡ o
      → Advances db
          (transaction
            (answer_with recovered (or_scan_failed o >>= recover_rows "lease expired"))
            db
            []).0
  unfolding transaction call
  expired_read scan_uint64 none driver p = Advances-refl db
  expired_read scan_uint64 (some rows) driver p =
      recover_rows-Advances "lease expired" rows db sound
        (expired-Apart db sound scan_uint64 driver now rows p)
        (expired-IsHeld db sound scan_uint64 driver now rows p)

  expired-perform :
      (scan_uint64 : ℤ → Option ℕ)
      → ((z : ℤ) (w : ℕ) → scan_uint64 z ≡ some w → z ≡ pos w)
      → Advances db (perform s now (recover_expired scan_uint64) db []).0
  unfolding perform body_of transaction call query recover_expired_leases_tx
  expired-perform scan_uint64 driver = expired_read scan_uint64 _ driver refl

  -- When no call of the database fails.
  whole-Advances : (op : Op) → IsCall db op → Advances db (perform s now op db []).0
  unfolding perform body_of transaction call query recover_dead_worker_leases_tx
      recover_stale_scheduling_tx
  whole-Advances (claim scan_text w n) m = claim-perform scan_text w n
  whole-Advances (mark_assigned t w) m = mark-Advances s now (mark_assigned t w) db tt m sound.table
  whole-Advances (mark_running t w) m = mark-Advances s now (mark_running t w) db tt m sound.table
  whole-Advances (mark_completed t w) m =
      mark-Advances s now (mark_completed t w) db tt m sound.table
  whole-Advances (mark_failed t w msg) m =
      mark-Advances s now (mark_failed t w msg) db tt m sound.table
  whole-Advances (mark_worker_lost t w msg) m =
      mark-Advances s now (mark_worker_lost t w msg) db m tt sound.table
  whole-Advances (recover_expired scan_uint64) driver = expired-perform scan_uint64 driver
  whole-Advances (recover_dead alive) m =
      recover_rows-Advances "worker not alive during leader recovery" (dead_leases alive db.leases)
        db sound (dead-Apart db sound alive) (dead-IsHeld db sound alive)
  whole-Advances recover_stale m =
      requeue_rows-Advances (map (λ r. r.id) (select_stale_scheduling db)) db sound
        (stale-Apart db sound) (select_stale_scheduling-IsStale db sound)

  pub perform-Advances :
      (op : Op) (replies : List Reply) → IsCall db op → Advances db (perform s now op db replies).0
  perform-Advances op replies m = elim ((perform_atomic s now op db replies).0) [
    | inl e ↦ rw e (Advances-refl db)
    | inr e ↦ rw e (whole-Advances op m)
  ]

-- Every method that changes the database in a transaction (each one but RenewLease, which moves no task)
-- moves every task along the documented life of a task, whichever calls of the database fail: from a
-- sound database, in which each task has one row and one lease at most and is orderly, each task that
-- the database knows makes steps of its life only, and the rows that the method adds to the task's
-- history are the statuses of these steps, so that a task whose worker is lost goes through WORKER_LOST
-- back to QUEUED, and one that is tried again through FAILED. A worker is reported lost only for a task
-- whose lease it holds, the worker that a task is assigned to is a uint64, and the driver reads a number
-- that is not negative as itself.
pub perform_refines :
    (s : Store) (now : ℕ) (op : Op) (db : Db) (replies : List Reply) (t : ℕ) (q : TaskRow)
    → IsSound db
    → IsCall db op
    → task_of t db.tasks ≡ some q
    → Steps q.max_retries (view t db) (view t (perform s now op db replies).0)
perform_refines s now op db replies t q sound m =
    (perform-Advances s now db sound op replies m).steps t q
