-- ===== src/Scheduler/Engine/Free.antt =====
-- scheduler/engine.go: the workers that `freeWorkers` leaves.
use pi_bully.Prelude.{
  ℕ, ◌≡◌, refl, ◌∙◌, sym, ap, Bool, false, ◌||◌, none, List, [], ◌∷◌, ◌==◌, if◌then◌else◌, arith,
}
use pi_bully.Cluster.Members.{Members, lookup, delete, lookup-delete}
use pi_bully.Task.Model.{Lease}
use pi_bully.Task.Tx.{ok}
use pi_bully.Task.Store.{active_leases}
use pi_bully.Scheduler.Engine.{Env, World, without_holders, free_workers}

-- One of the leases is this worker's.
abbrev pub holds_lease : ℕ → List Lease → Bool
holds_lease id [] = false
holds_lease id (l ∷ leases) = (l.worker_id == id) || holds_lease id leases

lookup-without_holders :
    (id : ℕ) (leases : List Lease) (free : Members)
    → lookup id (without_holders leases free)
      ≡ (if holds_lease id leases then none else lookup id free)
unfolding without_holders
lookup-without_holders id [] free = refl
lookup-without_holders id (l ∷ leases) free = ground (
  arith,
  lookup-without_holders id leases (delete l.worker_id free),
  lookup-delete id l.worker_id free,
)

-- When the leases can be read, the answer is the workers without those that hold one of them.
pub free_workers_lem :
    (env : Env) (alive : Members) (w : World) (leases : List Lease) (free : Members) (id : ℕ)
    → active_leases w.db (env.replies w.calls) ≡ ok leases
    → (free_workers env alive w).1 ≡ ok free
    → lookup id free ≡ (if holds_lease id leases then none else lookup id alive)
unfolding free_workers lookup
free_workers_lem env [] w leases free id h e = ground arith
free_workers_lem env (m ∷ alive) w leases free id h e =
    let same : ok (without_holders leases (m ∷ alive)) ≡ ok free = ground arith in
    let equal : without_holders leases (m ∷ alive) ≡ free = cc in
    ap (lookup id) (sym equal) ∙ lookup-without_holders id leases (m ∷ alive)
