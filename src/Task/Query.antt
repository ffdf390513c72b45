-- ===== src/Task/Query.antt =====
-- task/sql/: the queries, as functions of the database.
pub mod Leases
use pi_bully.Prelude.{
  ℕ, ◌+◌, ◌*◌, Bool, true, false, not, ◌&&◌, ◌||◌, Option, none, some, List, [], ◌∷◌, ◌++◌, ltb,
  leb, ◌==◌, if◌then◌else◌, select, ℤ, int_eq, zero, suc, order_by,
}
use pi_bully.Task.Model.{
  TaskState, queued, scheduling, failed, worker_lost, same, TaskRow, StatusRow, LeaseRow, Db,
}

-- latest_status.sql, over the rows of `task_status`
unfoldable pub latest_of : ℕ → List StatusRow → Option TaskState
latest_of t [] = none
latest_of t (r ∷ rows) = if r.task_id == t then some r.status else latest_of t rows

-- COUNT(*) of the rows with status 'FAILED'
unfoldable pub failed_of : ℕ → List StatusRow → ℕ
failed_of t [] = 0
failed_of t (r ∷ rows) =
    let n = failed_of t rows in if r.task_id == t && same r.status failed then suc n else n

unfoldable pub task_of : ℕ → List TaskRow → Option TaskRow
task_of t [] = none
task_of t (r ∷ rows) = if r.id == t then some r else task_of t rows

unfoldable pub lease_of : ℕ → List LeaseRow → Option LeaseRow
lease_of t [] = none
lease_of t (l ∷ rows) = if l.task_id == t then some l else lease_of t rows

-- check_lease_owner.sql
unfoldable pub owns_lease : ℕ → ℤ → List LeaseRow → Bool
owns_lease t w [] = false
owns_lease t w (l ∷ rows) = l.task_id == t && int_eq l.worker_id w || owns_lease t w rows

-- delete_lease.sql
unfoldable pub delete_lease : ℕ → ℤ → List LeaseRow → List LeaseRow
delete_lease t w [] = []
delete_lease t w (l ∷ rows) =
    if l.task_id == t && int_eq l.worker_id w
    then delete_lease t w rows
    else l ∷ delete_lease t w rows

-- upsert_lease.sql: `task_id` is the primary key
unfoldable pub upsert_lease : ℕ → ℤ → ℕ → List LeaseRow → List LeaseRow
upsert_lease t w expires_at [] = record { task_id = t; worker_id = w; expires_at = expires_at } ∷ []
upsert_lease t w expires_at (l ∷ rows) =
    if l.task_id == t
    then record l { worker_id = w; expires_at = expires_at } ∷ rows
    else l ∷ upsert_lease t w expires_at rows

-- renew_lease.sql
unfoldable pub renew_lease : ℕ → ℤ → ℕ → List LeaseRow → List LeaseRow
renew_lease t w expires_at [] = []
renew_lease t w expires_at (l ∷ rows) =
    (if l.task_id == t && int_eq l.worker_id w then record l { expires_at = expires_at } else l)
    ∷ renew_lease t w expires_at rows

-- ORDER BY t.created_at ASC, t.id ASC
abbrev pub older : TaskRow → TaskRow → Bool
older a b = ltb a.created_at b.created_at || a.created_at == b.created_at && ltb a.id b.id

-- ORDER BY expires_at ASC, task_id ASC
abbrev pub expires_first : LeaseRow → LeaseRow → Bool
expires_first a b =
    ltb a.expires_at b.expires_at || a.expires_at == b.expires_at && ltb a.task_id b.task_id

abbrev pub is_claimable_state : Option TaskState → Bool
is_claimable_state (some queued) = true
is_claimable_state (some worker_lost) = true
is_claimable_state _ = false

-- The WHERE clause of claim_queued.sql.
unfoldable pub claimable : Db → TaskRow → Bool
claimable db t =
    is_claimable_state (latest_of t.id db.statuses)
    && ltb (failed_of t.id db.statuses) t.max_retries

unfoldable pub limit {ℓ} : {A : Type ℓ} → ℕ → List A → List A
limit zero xs = []
limit (suc n) [] = []
limit (suc n) (x ∷ xs) = x ∷ limit n xs

-- claim_queued.sql
unfoldable pub claim_queued : Db → ℕ → List TaskRow
unfolding claimable order_by limit
claim_queued db n = limit n (order_by older (select (claimable db) db.tasks))

-- select_expired_leases.sql
unfoldable pub select_expired_leases : Db → ℕ → List LeaseRow
unfolding order_by
select_expired_leases db now = order_by expires_first (select (λ l. ltb l.expires_at now) db.leases)

abbrev is_scheduling : Option TaskState → Bool
is_scheduling (some scheduling) = true
is_scheduling _ = false

abbrev is_none : Option LeaseRow → Bool
is_none none = true
is_none (some l) = false

-- The WHERE clause of select_stale_scheduling.sql.
unfoldable pub is_stale : Db → TaskRow → Bool
is_stale db t = is_scheduling (latest_of t.id db.statuses) && is_none (lease_of t.id db.leases)

-- select_stale_scheduling.sql
unfoldable pub select_stale_scheduling : Db → List TaskRow
unfolding is_stale
select_stale_scheduling db = select (is_stale db) db.tasks
