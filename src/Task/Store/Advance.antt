-- ===== src/Task/Store/Advance.antt =====
-- task/store.go: a change of the whole database that moves every task along its life.
use pi_bully.Prelude.{
  ℕ, ◌≡◌, refl, sym, ◌∙◌, subst, ◌≢◌, inl, inr, true, if◌then◌else◌, Option, none, some, List, [],
  ◌∷◌, arith, ap, All, All-map, Apart, Option-cases, Bool-cases,
}
use native.Mathlib.Decide.{ℕ_discrete}
use pi_bully.Task.Model.{Db, TaskRow}
use pi_bully.Task.Query.{task_of}
use pi_bully.Task.Lifecycle.{Step, Steps, here, next, Steps-append, IsOrderly, Steps-IsOrderly}
use pi_bully.Task.Store.{is_task}
use pi_bully.Task.Store.Refine.{view}
use pi_bully.Task.Store.Table.{IsTable, All-task_of, task_of-All}

-- Every task that the table knows takes steps of its life.
abbrev pub AllSteps : Db → Db → Type 0
AllSteps db after =
    (t : ℕ) (q : TaskRow)
    → task_of t db.tasks ≡ some q
    → Steps q.max_retries (view t db) (view t after)

pub record Advances (db after : Db) : Type 0 where
  pub tasks : after.tasks ≡ db.tasks
  pub table : IsTable db.leases → IsTable after.leases
  pub steps : AllSteps db after

-- What holds of the database between two calls.
pub record IsSound (db : Db) : Type 0 where
  pub rows : Apart (λ (r : TaskRow). r.id) db.tasks
  pub table : IsTable db.leases
  pub orderly : All (λ r. IsOrderly r.max_retries (view r.id db)) db.tasks

pub task_of-IsOrderly :
    {db : Db}
    → IsSound db
    → (t : ℕ) (q : TaskRow) → task_of t db.tasks ≡ some q
    → IsOrderly q.max_retries (view t db)
task_of-IsOrderly {db} s t q e =
    let found =
      task_of-All (λ r. IsOrderly r.max_retries (view r.id db)) t q db.tasks e s.orderly in
    subst (λ x. IsOrderly q.max_retries (view x db)) found.1 found.0

pub Advances-refl : (db : Db) → Advances db db
Advances-refl db = record { tasks = refl; table = λ h. h; steps = λ t q e. here }

pub Advances-trans : {a b c : Db} → Advances a b → Advances b c → Advances a c
Advances-trans p r = record {
  tasks = r.tasks ∙ p.tasks;
  table = λ h. r.table (p.table h);
  steps =
      λ t q e. Steps-append (p.steps t q e) (r.steps t q (ap (λ rows. task_of t rows) p.tasks ∙ e));
}

pub Advances-IsSound : {db after : Db} → Advances db after → IsSound db → IsSound after
Advances-IsSound {db} {after} p s = record {
  rows = subst (λ rows. Apart (λ (r : TaskRow). r.id) rows) (sym p.tasks) s.rows;
  table = p.table s.table;
  orderly =
      subst (λ rows. All (λ r. IsOrderly r.max_retries (view r.id after)) rows) (sym p.tasks)
        (All-map _ (λ r. IsOrderly r.max_retries (view r.id after))
          (λ r e. Steps-IsOrderly (p.steps r.id r e) (task_of-IsOrderly s r.id r e)) db.tasks
          (All-task_of db.tasks s.rows));
}

-- A change of one task's rows.
pub step_of :
    (d : ℕ) (db after : Db) (q : TaskRow)
    → task_of d db.tasks ≡ some q
    → Step q.max_retries (view d db) (view d after)
    → ((t : ℕ) → d ≢ t → view t after ≡ view t db)
    → AllSteps db after
step_of d db after q row st other t r e = elim (ℕ_discrete d t) [
  | yes p ↦
      let same : q ≡ r = cc (row, e, ap (λ x. task_of x db.tasks) p) in
      subst (λ x. Steps r.max_retries (view x db) (view x after)) p
        (next here (subst (λ x. Step x.max_retries (view d db) (view d after)) same st))
  | no n ↦ subst (λ x. Steps r.max_retries (view t db) x) (sym (other t n)) here
]

-- A loop over rows with different tasks, which refuses a task that the table does not know.
unfoldable pub each : {X : Type 0} → (X → ℕ) → (X → Db → Db) → List X → Db → Option Db
each task change [] db = some db
each task change (x ∷ xs) db =
    if is_task (task x) db then each task change xs (change x db) else none

module _ {X : Type 0} (task : X → ℕ) (change : X → Db → Db) (Ready : Db → X → Type 0)
    (tasks : (x : X) (db : Db) → (change x db).tasks ≡ db.tasks)
    (table : (x : X) (db : Db) → IsTable db.leases → IsTable (change x db).leases)
    (moves : (x : X) (db : Db) (q : TaskRow)
      → IsTable db.leases
      → task_of (task x) db.tasks ≡ some q
      → Ready db x
      → Step q.max_retries (view (task x) db) (view (task x) (change x db)))
    (other : (x : X) (t : ℕ) (db : Db) → task x ≢ t → view t (change x db) ≡ view t db)
    (ready : (x y : X) (db : Db) → task x ≢ task y → Ready db y → Ready (change x db) y) where
  change-Advances :
      (x : X) (db : Db)
      → IsTable db.leases
      → is_task (task x) db ≡ true
      → Ready db x
      → Advances db (change x db)
  change-Advances x db h known r = elim (Option-cases (task_of (task x) db.tasks)) [
    | inl p ↦ absurd (ground arith)
    | inr (q, p) ↦ record {
      tasks = tasks x db;
      table = table x db;
      steps = step_of (task x) db (change x db) q p (moves x db q h p r) (λ t n. other x t db n);
    }
  ]

  All-change :
      (x : X) (xs : List X) (db : Db)
      → All (λ y. task y ≢ task x) xs
      → All (Ready db) xs
      → All (Ready (change x db)) xs
  All-change x [] db n r = r
  All-change x (y ∷ ys) db n r = (ready x y db (λ e. n.0 (sym e)) r.0, All-change x ys db n.1 r.1)

  pub each-Advances :
      (xs : List X) (db after : Db)
      → IsTable db.leases
      → Apart task xs
      → All (Ready db) xs
      → each task change xs db ≡ some after
      → Advances db after
  unfolding each
  each-Advances [] db after h n r e = subst (λ d. Advances db d) (ground arith) (Advances-refl db)
  each-Advances (x ∷ xs) db after h n r e = elim (Bool-cases (is_task (task x) db)) [
    | inl p ↦
        let later : each task change xs (change x db) ≡ some after = ground arith in
        let first = change-Advances x db h p r.0 in
        Advances-trans first (
          each-Advances xs (change x db) after (first.table h) n.1 (All-change x xs db n.0 r.1)
            later)
    | inr p ↦ absurd (ground arith)
  ]
