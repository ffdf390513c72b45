-- ===== src/Task/Store/Ready.antt =====
-- task/store.go: the tasks that `ClaimQueued` claims and those that `RecoverStaleScheduling` requeues.
use mathlib.Core.Option
use pi_bully.Prelude.{
  Bool, ℕ, ◌<◌, ◌≡◌, refl, sym, subst, ◌⊎◌, String, true, none, some, Option, List, [], ◌∷◌, map,
  arith, select, Apart, All, All-map, All-select, All-order_by, Apart-select, Apart-order_by,
}
use pi_bully.Task.Model.{queued, worker_lost, Task, Db, TaskRow, LeaseRow}
use pi_bully.Task.Query.{
  is_stale, task_of, latest_of, failed_of, lease_of, claimable, claim_queued, older,
  select_stale_scheduling,
}
use pi_bully.Task.Query.Leases.{holder_of}
use pi_bully.Task.Store.{scan_all, scan_task}
use pi_bully.Task.Store.Scan.{
  scan_all-All, scan_all-Apart, All-mapped, Apart-mapped, All-limit, Apart-limit, All-both,
}
use pi_bully.Task.Store.Table.{All-task_of}
use pi_bully.Task.Store.Advance.{IsSound}
use pi_bully.Task.Store.Loops.{IsStale, IsClaimable}

holder_of-lease_of :
    (t : ℕ) (rows : List LeaseRow) → lease_of t rows ≡ none → holder_of t rows ≡ none
unfolding lease_of holder_of
holder_of-lease_of t [] h = refl
holder_of-lease_of t (l ∷ rows) h = ground (arith, holder_of-lease_of t rows)

-- The rows that pass a test pass it.
All-selected {ℓ} : {A : Type ℓ} (p : A → Bool) (xs : List A) → All (λ x. p x ≡ true) (select p xs)
All-selected p [] = tt
All-selected p (x ∷ xs) = ground (arith, All-selected p xs)

claimable-IsClaimable :
    (db : Db) (r : TaskRow)
    → claimable db r ≡ true
    → ((latest_of r.id db.statuses ≡ some queued) ⊎ (latest_of r.id db.statuses ≡ some worker_lost))
      × (failed_of r.id db.statuses < r.max_retries)
unfolding claimable
claimable-IsClaimable db r h = ground arith

pub scan_task_key :
    (scan_text : Option String → Option String) (r : TaskRow) (t : Task)
    → scan_task scan_text r ≡ some t
    → t.id ≡ r.id
unfolding Option.bind
scan_task_key scan_text r t e = ground arith

-- The row has a number of its own, and passes the test of the query.
abbrev IsFound : Db → TaskRow → Type 0
IsFound db r = (task_of r.id db.tasks ≡ some r) × (claimable db r ≡ true)

scanned-IsClaimable :
    (scan_text : Option String → Option String) (db : Db) (r : TaskRow) (t : Task)
    → scan_task scan_text r ≡ some t
    → IsFound db r
    → IsClaimable db t
scanned-IsClaimable scan_text db r t e found =
    let key : r.id ≡ t.id = sym (scan_task_key scan_text r t e) in
    let ready = claimable-IsClaimable db r found.1 in
    let here : ((latest_of r.id db.statuses ≡ some queued)
          ⊎ (latest_of r.id db.statuses ≡ some worker_lost))
        × ((q : TaskRow)
            → task_of r.id db.tasks ≡ some q
            → failed_of r.id db.statuses < q.max_retries) =
      (
        ready.0,
        λ q row.
            let same : r ≡ q = cc (row, found.0) in
            subst (λ x. failed_of r.id db.statuses < x.max_retries) same ready.1,
      ) in
    subst
      (λ n.
        ((latest_of n db.statuses ≡ some queued) ⊎ (latest_of n db.statuses ≡ some worker_lost))
        × ((q : TaskRow) → task_of n db.tasks ≡ some q → failed_of n db.statuses < q.max_retries))
      key here

is_stale-IsStale : (db : Db) (r : TaskRow) → is_stale db r ≡ true → IsStale db r.id
unfolding is_stale
is_stale-IsStale db r h = ground (arith, holder_of-lease_of r.id db.leases)

module _ (db : Db) (sound : IsSound db) where
  tasks-IsFound : All (IsFound db) (select (claimable db) db.tasks)
  tasks-IsFound =
      All-both (λ r. task_of r.id db.tasks ≡ some r) (λ r. claimable db r ≡ true) _
        (All-select (λ r. task_of r.id db.tasks ≡ some r) (claimable db) db.tasks
          (All-task_of db.tasks sound.rows))
        (All-selected (claimable db) db.tasks)

  module _ (scan_text : Option String → Option String) (n : ℕ) (ts : List Task)
      (read : scan_all (scan_task scan_text) (claim_queued db n) ≡ some ts) where
    pub claim-IsClaimable : All (IsClaimable db) ts
    unfolding claim_queued
    claim-IsClaimable =
        scan_all-All (IsFound db) (IsClaimable db) (scan_task scan_text)
          (scanned-IsClaimable scan_text db) _ ts read
          (All-limit _ n _ (All-order_by _ older _ tasks-IsFound))

    pub claim-Apart : Apart (λ (t : Task). t.id) ts
    unfolding claim_queued
    claim-Apart =
        scan_all-Apart (λ (r : TaskRow). r.id) (λ (t : Task). t.id) (scan_task scan_text)
          (scan_task_key scan_text) _ ts read
          (Apart-limit _ n _ (Apart-order_by _ older _ (Apart-select _ _ db.tasks sound.rows)))

  pub select_stale_scheduling-IsStale :
      All (IsStale db) (map (λ r. r.id) (select_stale_scheduling db))
  unfolding select_stale_scheduling
  select_stale_scheduling-IsStale =
      All-mapped (IsStale db) (λ (r : TaskRow). r.id) _
        (All-map _ (λ (r : TaskRow). IsStale db r.id) (is_stale-IsStale db) _
          (All-selected _ db.tasks))

  pub stale-Apart : Apart (λ (t : ℕ). t) (map (λ r. r.id) (select_stale_scheduling db))
  unfolding select_stale_scheduling
  stale-Apart = Apart-mapped (λ (r : TaskRow). r.id) _ (Apart-select _ _ db.tasks sound.rows)
