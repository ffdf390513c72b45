-- ===== src/Task/Lifecycle.antt =====
-- The life of one task as docs/design.md tells it, over what the scheduler can see of the task: its
-- latest status, the worker that holds its lease, and how often it has failed; and over its history, the
-- statuses that it has had, the latest one first.
use pi_bully.Prelude.{
  ℕ, suc, ◌≤◌, ◌<◌, ◌≡◌, refl, ◌≢◌, ◌⊎◌, Option, none, some, arith, ℤ, ap, ◌∙◌, List, [], ◌∷◌, ◌==◌,
  if◌then◌else◌,
}
use pi_bully.Task.Model.{
  TaskState, queued, scheduling, assigned, running, failed, worker_lost, completed, StatusRow,
}

pub record View : Type 0 where
  pub status : Option TaskState
  pub holder : Option ℤ
  pub failures : ℕ
  pub trail : List TaskState

-- The statuses of one task among the rows, the latest one first.
unfoldable pub trail_of : ℕ → List StatusRow → List TaskState
trail_of t [] = []
trail_of t (r ∷ rows) =
    let rest = trail_of t rows in if r.task_id == t then r.status ∷ rest else rest

-- A worker has the task.
abbrev pub InFlight : Option TaskState → Type 0
InFlight status = (status ≡ some assigned) ⊎ (status ≡ some running)

-- The steps of a task that may fail `max` times.
pub data Step (max : ℕ) (v : View) : View → Type 0 where
  claim :
      (v.status ≡ some queued) ⊎ (v.status ≡ some worker_lost)
      → v.failures < max
      → Step max v (record v { status = some scheduling; trail = scheduling ∷ v.trail })
  assign :
      (w : ℤ)
      → v.status ≡ some scheduling
      → Step max v
          (record v { status = some assigned; holder = some w; trail = assigned ∷ v.trail })
  run :
      (w : ℤ)
      → InFlight v.status
      → v.holder ≡ some w
      → Step max v (record v { status = some running; trail = running ∷ v.trail })
  complete :
      (w : ℤ)
      → v.status ≡ some running
      → v.holder ≡ some w
      → Step max v
          (record v { status = some completed; holder = none; trail = completed ∷ v.trail })
  requeue :
      (w : ℤ)
      → InFlight v.status
      → v.holder ≡ some w
      → suc v.failures < max
      → Step max v (record {
        status = some queued;
        holder = none;
        failures = suc v.failures;
        trail = queued ∷ failed ∷ v.trail;
      })
  give_up :
      (w : ℤ)
      → InFlight v.status
      → v.holder ≡ some w
      → max ≤ suc v.failures
      → Step max v (record {
        status = some failed;
        holder = none;
        failures = suc v.failures;
        trail = failed ∷ v.trail;
      })
  lose :
      (w : ℤ)
      → InFlight v.status
      → v.holder ≡ some w
      → Step max v
          (record v { status = some queued; holder = none; trail = queued ∷ worker_lost ∷ v.trail })
  unschedule :
      v.status ≡ some scheduling
      → v.holder ≡ none
      → Step max v (record v { status = some queued; trail = queued ∷ v.trail })

pub data Steps (max : ℕ) (v : View) : View → Type 0 where
  here : Steps max v v
  next : {u t : View} → Steps max v u → Step max u t → Steps max v t

pub Steps-append : {max : ℕ} {v u t : View} → Steps max v u → Steps max u t → Steps max v t
Steps-append p here = p
Steps-append p (next r st) = next (Steps-append p r) st

-- What holds of a task between two calls: a worker holds its lease exactly while it is assigned or
-- running, and its failures leave room for the attempt that is under way.
pub record IsOrderly (max : ℕ) (v : View) : Type 0 where
  pub held : v.holder ≢ none → InFlight v.status
  pub flying : InFlight v.status → v.holder ≢ none
  pub budget : v.failures ≤ max
  pub room : (v.status ≡ some scheduling) ⊎ InFlight v.status → v.failures < max

pub Step-IsOrderly : {max : ℕ} {v u : View} → Step max v u → IsOrderly max v → IsOrderly max u
Step-IsOrderly (claim s b) o = ground arith
Step-IsOrderly (assign w s) o = ground arith
Step-IsOrderly (run w s h) o = ground arith
Step-IsOrderly (complete w s h) o = ground arith
Step-IsOrderly (requeue w s h b) o = ground arith
Step-IsOrderly (give_up w s h b) o = ground arith
Step-IsOrderly (lose w s h) o = ground arith
Step-IsOrderly (unschedule s h) o = ground arith

pub Steps-IsOrderly : {max : ℕ} {v u : View} → Steps max v u → IsOrderly max v → IsOrderly max u
Steps-IsOrderly here o = o
Steps-IsOrderly (next r st) o = Step-IsOrderly st (Steps-IsOrderly r o)

-- A completed task stays as it is.
completed_stuck : {max : ℕ} {v u : View} → Step max v u → v.status ≡ some completed → ⊥
completed_stuck (claim s b) c = ground arith
completed_stuck (assign w s) c = ground arith
completed_stuck (run w s h) c = ground arith
completed_stuck (complete w s h) c = ground arith
completed_stuck (requeue w s h b) c = ground arith
completed_stuck (give_up w s h b) c = ground arith
completed_stuck (lose w s h) c = ground arith
completed_stuck (unschedule s h) c = ground arith

pub Steps-completed : {max : ℕ} {v u : View} → Steps max v u → v.status ≡ some completed → u ≡ v
Steps-completed here c = refl
Steps-completed (next r st) c =
    let e = Steps-completed r c in absurd (completed_stuck st (ap (λ x. x.status) e ∙ c))
