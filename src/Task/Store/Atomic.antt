-- ===== src/Task/Store/Atomic.antt =====
-- task/store.go: a transaction whose calls may fail at any point.
use pi_bully.Prelude.{
  ℕ, ◌≡◌, ◌⊎◌, String, Bool, true, false, Option, none, some, List, [], ◌∷◌, map, ltb, ℤ, pos,
  negsuc,
}
use pi_bully.Task.Query.{select_expired_leases, select_stale_scheduling}
use pi_bully.Task.Model.{
  TaskState, queued, scheduling, assigned, running, failed, worker_lost, completed, contains, Task,
  Db,
}
use pi_bully.Task.Tx.{
  Reply, ok, Tx, ◌>>◌, guard, call, read, query, Exit, commit, leave, no_rows, no_task, scan_failed,
  not_leased, negative_limit, invalid_status,
}
use pi_bully.Task.Tx.Steady.{
  Steady, fails, agrees, IsSteady, IsSteady-pure, IsSteady-fail, IsSteady-guard, IsSteady-call,
  IsSteady-read, IsSteady-modify, IsSteady-bind, IsSteady-then, IsSteady-query, IsSteady-exec,
  steady_transaction,
}
use pi_bully.Task.Store.{
  Store, Answer, Op, claim, mark_assigned, mark_running, mark_completed, mark_failed,
  mark_worker_lost, recover_expired, recover_dead, recover_stale, body_of, perform, answer_with,
  insert_status, latest_status, ensure_lease_owner, ensure_latest_status_in, exec_delete_lease,
  exec_upsert_lease, mark_assigned_tx, mark_running_tx, mark_completed_tx, count_failed, requeue_if,
  mark_failed_tx, mark_worker_lost_tx, lose_leases, requeue_all, mark_scheduling, or_no_rows,
  or_scan_failed, is_task, add_status, claim_rows, claim_scanned, claim_queued_tx, recover_rows,
  recover_expired_leases_tx, recover_dead_worker_leases_tx, requeue_rows,
  recover_stale_scheduling_tx, claimed, recovered, scan_all, scan_task, scan_lease, dead_leases,
  lease_end,
}

insert_status-IsSteady :
    (t : ℕ) (state : TaskState) (assigned_to : Option ℕ) (msg : String)
    → IsSteady (insert_status t state assigned_to msg)
unfolding insert_status
insert_status-IsSteady t state assigned_to msg = IsSteady-then call _ IsSteady-call (
    IsSteady-bind (read (is_task t)) _ (IsSteady-read (is_task t)) λ known.
      IsSteady-then (guard known no_task) _ (IsSteady-guard known no_task)
        (IsSteady-modify (add_status t state assigned_to msg)))

or_no_rows-IsSteady : {A : Type 0} (o : Option A) → IsSteady (or_no_rows o)
or_no_rows-IsSteady none = IsSteady-fail no_rows
or_no_rows-IsSteady (some a) = IsSteady-pure a

or_scan_failed-IsSteady : {A : Type 0} (o : Option A) → IsSteady (or_scan_failed o)
or_scan_failed-IsSteady none = IsSteady-fail scan_failed
or_scan_failed-IsSteady (some a) = IsSteady-pure a

latest_status-IsSteady : (t : ℕ) → IsSteady (latest_status t)
unfolding latest_status
latest_status-IsSteady t = IsSteady-bind _ _ (IsSteady-query _) λ found. or_no_rows-IsSteady found

ensure_lease_owner-IsSteady : (t w : ℕ) → IsSteady (ensure_lease_owner t w)
unfolding ensure_lease_owner
ensure_lease_owner-IsSteady t w =
    IsSteady-bind _ _ (IsSteady-query _) λ found. IsSteady-guard found not_leased

ensure_latest_status_in-IsSteady :
    (t : ℕ) (allowed : List TaskState) → IsSteady (ensure_latest_status_in t allowed)
unfolding ensure_latest_status_in
ensure_latest_status_in-IsSteady t allowed =
    IsSteady-bind (latest_status t) _ (latest_status-IsSteady t)
      λ status. IsSteady-guard (contains allowed status) (invalid_status status)

exec_delete_lease-IsSteady : (t w : ℕ) → IsSteady (exec_delete_lease t w)
unfolding exec_delete_lease
exec_delete_lease-IsSteady t w = IsSteady-exec _

exec_upsert_lease-IsSteady : (t w expires_at : ℕ) → IsSteady (exec_upsert_lease t w expires_at)
unfolding exec_upsert_lease
exec_upsert_lease-IsSteady t w expires_at = IsSteady-exec _

count_failed-IsSteady : (t : ℕ) → IsSteady (count_failed t)
unfolding count_failed
count_failed-IsSteady t = IsSteady-bind _ _ (IsSteady-query _) λ row. or_no_rows-IsSteady row

mark_assigned_tx-IsSteady : (s : Store) (now t w : ℕ) → IsSteady (mark_assigned_tx s now t w)
unfolding mark_assigned_tx
mark_assigned_tx-IsSteady s now t w =
    IsSteady-bind (latest_status t) _ (latest_status-IsSteady t) λ status.
      IsSteady-then (guard (contains (scheduling ∷ []) status) (invalid_status status)) _
        (IsSteady-guard _ _)
        (IsSteady-then _ _ (insert_status-IsSteady t assigned (some w) "") (
          IsSteady-then _ _ (exec_upsert_lease-IsSteady t w (lease_end s now))
            (IsSteady-pure (commit tt))))

-- The two guards with which the reports of a worker begin.
reported-IsSteady :
    {A : Type 0} (t w : ℕ) (allowed : List TaskState) (rest : Tx A)
    → IsSteady rest
    → IsSteady (ensure_lease_owner t w >> (ensure_latest_status_in t allowed >> rest))
reported-IsSteady t w allowed rest s =
    IsSteady-then (ensure_lease_owner t w) _ (ensure_lease_owner-IsSteady t w) (
      IsSteady-then (ensure_latest_status_in t allowed) rest
        (ensure_latest_status_in-IsSteady t allowed) s)

mark_running_tx-IsSteady : (t w : ℕ) → IsSteady (mark_running_tx t w)
unfolding mark_running_tx
mark_running_tx-IsSteady t w =
    reported-IsSteady t w (assigned ∷ running ∷ []) _
      (IsSteady-then _ _ (insert_status-IsSteady t running (some w) "") (IsSteady-pure (commit tt)))

mark_completed_tx-IsSteady : (t w : ℕ) → IsSteady (mark_completed_tx t w)
unfolding mark_completed_tx
mark_completed_tx-IsSteady t w = reported-IsSteady t w (running ∷ []) _ (
    IsSteady-then _ _ (insert_status-IsSteady t completed (some w) "")
      (IsSteady-then _ _ (exec_delete_lease-IsSteady t w) (IsSteady-pure (commit tt))))

requeue_if-IsSteady : (b : Bool) (t : ℕ) → IsSteady (requeue_if b t)
unfolding requeue_if
requeue_if-IsSteady true t = insert_status-IsSteady t queued none ""
requeue_if-IsSteady false t = IsSteady-pure tt

mark_failed_tx-IsSteady : (t w : ℕ) (msg : String) → IsSteady (mark_failed_tx t w msg)
unfolding mark_failed_tx
mark_failed_tx-IsSteady t w msg = reported-IsSteady t w (assigned ∷ running ∷ []) _ (
    IsSteady-then _ _ (insert_status-IsSteady t failed (some w) msg) (
      IsSteady-then _ _ (exec_delete_lease-IsSteady t w) (
        IsSteady-bind (count_failed t) _ (count_failed-IsSteady t) λ counts.
          IsSteady-then _ _ (requeue_if-IsSteady (ltb counts.0 counts.1) t)
            (IsSteady-pure (commit tt)))))

mark_worker_lost_tx-IsSteady : (t w : ℕ) (msg : String) → IsSteady (mark_worker_lost_tx t w msg)
unfolding mark_worker_lost_tx
mark_worker_lost_tx-IsSteady t w msg =
    IsSteady-then _ _ (ensure_latest_status_in-IsSteady t (assigned ∷ running ∷ [])) (
      IsSteady-then _ _ (insert_status-IsSteady t worker_lost (some w) msg) (
        IsSteady-then _ _ (exec_delete_lease-IsSteady t w) (
          IsSteady-then _ _ (insert_status-IsSteady t queued none "") (IsSteady-pure (commit tt)))))

lose_leases-IsSteady : (msg : String) (rows : List (ℕ × ℕ)) → IsSteady (lose_leases msg rows)
unfolding lose_leases
lose_leases-IsSteady msg [] = IsSteady-pure tt
lose_leases-IsSteady msg ((t, w) ∷ rows) =
    IsSteady-then _ _ (insert_status-IsSteady t worker_lost (some w) msg) (
      IsSteady-then _ _ (exec_delete_lease-IsSteady t w) (
        IsSteady-then _ _ (insert_status-IsSteady t queued none "")
          (lose_leases-IsSteady msg rows)))

requeue_all-IsSteady : (ts : List ℕ) → IsSteady (requeue_all ts)
unfolding requeue_all
requeue_all-IsSteady [] = IsSteady-pure tt
requeue_all-IsSteady (t ∷ ts) =
    IsSteady-then _ _ (insert_status-IsSteady t queued none "recovered stale scheduling")
      (requeue_all-IsSteady ts)

mark_scheduling-IsSteady : (w : ℕ) (ts : List Task) → IsSteady (mark_scheduling w ts)
unfolding mark_scheduling
mark_scheduling-IsSteady w [] = IsSteady-pure tt
mark_scheduling-IsSteady w (t ∷ ts) =
    IsSteady-then _ _ (insert_status-IsSteady t.id scheduling (some w) "")
      (mark_scheduling-IsSteady w ts)

claim_rows-IsSteady : (n : ℤ) → IsSteady (claim_rows n)
unfolding claim_rows
claim_rows-IsSteady (pos n) = IsSteady-query _
claim_rows-IsSteady (negsuc n) = IsSteady-fail negative_limit

claim_scanned-IsSteady : (w : ℕ) (ts : List Task) → IsSteady (claim_scanned w ts)
unfolding claim_scanned
claim_scanned-IsSteady w [] = IsSteady-pure (leave [])
claim_scanned-IsSteady w (t ∷ ts) =
    IsSteady-then _ _ (mark_scheduling-IsSteady w (t ∷ ts)) (IsSteady-pure (commit (t ∷ ts)))

recover_rows-IsSteady : (msg : String) (rows : List (ℕ × ℕ)) → IsSteady (recover_rows msg rows)
unfolding recover_rows
recover_rows-IsSteady msg [] = IsSteady-pure (leave 0)
recover_rows-IsSteady msg (l ∷ rows) =
    IsSteady-then _ _ (lose_leases-IsSteady msg (l ∷ rows)) (IsSteady-pure (commit _))

requeue_rows-IsSteady : (ts : List ℕ) → IsSteady (requeue_rows ts)
unfolding requeue_rows
requeue_rows-IsSteady [] = IsSteady-pure (leave 0)
requeue_rows-IsSteady (t ∷ ts) =
    IsSteady-then _ _ (requeue_all-IsSteady (t ∷ ts)) (IsSteady-pure (commit _))

abbrev exit_with : {A : Type 0} → (A → Answer) → Exit A → Exit Answer
exit_with f (commit a) = commit (f a)
exit_with f (leave a) = leave (f a)

answer_with-IsSteady :
    {A : Type 0} (f : A → Answer) (body : Tx (Exit A))
    → IsSteady body
    → IsSteady (answer_with f body)
answer_with-IsSteady {A} f body s db replies = go (s db replies)
  where
    go : Steady body db replies → Steady (answer_with f body) db replies
    go (fails e p) = fails e (rw (p, answer_with))
    go (agrees exit db' rest p q) =
        agrees (exit_with f exit) db' rest (rw (p, answer_with)) (rw (q, answer_with))

body_of-IsSteady : (s : Store) (now : ℕ) (op : Op) → IsSteady (body_of s now op)
unfolding body_of claim_queued_tx recover_expired_leases_tx recover_dead_worker_leases_tx
    recover_stale_scheduling_tx
body_of-IsSteady s now (claim scan_text w n) = answer_with-IsSteady claimed _ (
    IsSteady-bind _ _ (claim_rows-IsSteady n) λ rows.
      IsSteady-bind (or_scan_failed (scan_all (scan_task scan_text) rows)) _
        (or_scan_failed-IsSteady _) (claim_scanned-IsSteady w))
body_of-IsSteady s now (mark_assigned t w) =
    answer_with-IsSteady _ _ (mark_assigned_tx-IsSteady s now t w)
body_of-IsSteady s now (mark_running t w) = answer_with-IsSteady _ _ (mark_running_tx-IsSteady t w)
body_of-IsSteady s now (mark_completed t w) =
    answer_with-IsSteady _ _ (mark_completed_tx-IsSteady t w)
body_of-IsSteady s now (mark_failed t w msg) =
    answer_with-IsSteady _ _ (mark_failed_tx-IsSteady t w msg)
body_of-IsSteady s now (mark_worker_lost t w msg) =
    answer_with-IsSteady _ _ (mark_worker_lost_tx-IsSteady t w msg)
body_of-IsSteady s now (recover_expired scan_uint64) = answer_with-IsSteady recovered _ (
    IsSteady-bind (query (λ db. select_expired_leases db now)) _ (IsSteady-query _) λ rows.
      IsSteady-bind (or_scan_failed (scan_all (scan_lease scan_uint64) rows)) _
        (or_scan_failed-IsSteady _) (recover_rows-IsSteady "lease expired"))
body_of-IsSteady s now (recover_dead alive) = answer_with-IsSteady recovered _ (
    IsSteady-bind (query (λ db. db.leases)) _ (IsSteady-query _) λ rows.
      recover_rows-IsSteady "worker not alive during leader recovery" (dead_leases alive rows))
body_of-IsSteady s now recover_stale = answer_with-IsSteady recovered _ (
    IsSteady-bind (query select_stale_scheduling) _ (IsSteady-query _)
      λ rows. requeue_rows-IsSteady (map (λ r. r.id) rows))

-- Whichever calls of the database fail, and wherever in the method: the method leaves the database
-- either as it was or as it leaves it when no call fails, and if it answers without an error it has
-- done, and answers, what it does when no call fails.
pub perform_atomic :
    (s : Store) (now : ℕ) (op : Op) (db : Db) (replies : List Reply)
    → (((perform s now op db replies).0 ≡ db)
        ⊎ ((perform s now op db replies).0 ≡ (perform s now op db []).0))
      × ((a : Answer)
          → (perform s now op db replies).1 ≡ ok a
          → perform s now op db replies ≡ perform s now op db [])
unfolding perform
perform_atomic s now op db replies =
    steady_transaction (body_of s now op) db replies (body_of-IsSteady s now op)
