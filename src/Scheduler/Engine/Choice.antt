-- ===== src/Scheduler/Engine/Choice.antt =====
-- scheduler/engine.go: the workers among which a tick chooses.
use pi_bully.Prelude.{
  ℕ, ◌≤◌, ◌≡◌, ◌≢◌, refl, inl, inr, ◌∙◌, ap, subst, false, some, List, [], ◌∷◌, length, arith,
  Distinct, Absent, Bool-cases, ◌==◌,
}
use pi_bully.Cluster.Members.{
  Member, Members, keys, lookup, delete, IsKeyed, delete-IsKeyed, delete-Distinct,
}
use pi_bully.Task.Model.{Lease}
use pi_bully.Task.Tx.{Result, ok, err}
use pi_bully.Task.Store.{active_leases}
use pi_bully.Scheduler.Engine.{Env, World, alive_workers, without_holders, free_workers}
use pi_bully.Scheduler.Engine.Free.{holds_lease, free_workers_lem}

-- A map of members, with no more entries than a number.
abbrev pub IsMap : ℕ → Members → Type 0
IsMap n ms = IsKeyed ms × Distinct (keys ms) × (length ms ≤ n)

delete-length : (id : ℕ) (ms : Members) → length (delete id ms) ≤ length ms
unfolding delete
delete-length id [] = omega arith
delete-length id ((j, m) ∷ ms) = ground (arith, delete-length id ms)

without_holders-IsMap :
    (leases : List Lease) (ms : Members) (n : ℕ) → IsMap n ms → IsMap n (without_holders leases ms)
unfolding without_holders
without_holders-IsMap [] ms n h = h
without_holders-IsMap (l ∷ leases) ms n (k, d, b) =
    without_holders-IsMap leases (delete l.worker_id ms) n (
      delete-IsKeyed l.worker_id ms k,
      delete-Distinct l.worker_id ms d,
      omega (arith, delete-length l.worker_id ms),
    )

alive_workers-Absent :
    (self_id a : ℕ) (ms : Members) → Absent a (keys ms) → Absent a (keys (alive_workers self_id ms))
unfolding alive_workers
alive_workers-Absent self_id a [] h = tt
alive_workers-Absent self_id a ((j, m) ∷ ms) h =
    ground (arith, alive_workers-Absent self_id a ms h.1)

pub alive_workers-IsMap :
    (self_id : ℕ) (ms : Members)
    → IsKeyed ms
    → Distinct (keys ms)
    → IsMap (length ms) (alive_workers self_id ms)
unfolding alive_workers
alive_workers-IsMap self_id [] k d = (tt, tt, omega arith)
alive_workers-IsMap self_id ((j, m) ∷ ms) k d =
    let (k', d', b) = alive_workers-IsMap self_id ms k.1 d.1 in
    elim (Bool-cases (j == self_id)) [
      | inl e ↦ rw (e, alive_workers) (k', d', omega arith)
      | inr e ↦
          rw (e, alive_workers)
            ((k.0, k'), (alive_workers-Absent self_id j ms d.0, d'), omega arith)
    ]

-- A worker that counts as alive is another node than the scheduler's, and a member.
lookup-alive_workers :
    (self_id id : ℕ) (ms : Members) (m : Member)
    → lookup id (alive_workers self_id ms) ≡ some m
    → (id ≢ self_id) × (lookup id ms ≡ some m)
unfolding lookup alive_workers
lookup-alive_workers self_id id [] m h = absurd (cc h)
lookup-alive_workers self_id id ((j, n) ∷ ms) m h = elim (Bool-cases (j == self_id)) [
  | inl e ↦
      let (p, q) = lookup-alive_workers self_id id ms m (rw (e, alive_workers) at h) in
      (p, ground arith)
  | inr e ↦ elim (Bool-cases (j == id)) [
    | inl f ↦ (λ p. ground arith, ground arith)
    | inr f ↦ let (p, q) = lookup-alive_workers self_id id ms m (ground arith) in (p, ground arith)
  ]
]

pub free_workers-IsMap :
    (env : Env) (alive : Members) (w : World) (n : ℕ) (free : Members)
    → IsMap n alive
    → (free_workers env alive w).1 ≡ ok free
    → IsMap n free
unfolding free_workers
free_workers-IsMap env [] w n free h e =
    let same : [] ≡ free = ground arith in subst (IsMap n) same h
free_workers-IsMap env (m ∷ alive) w n free h e = go (active_leases w.db (env.replies w.calls)) refl
  where
    go : (r : Result (List Lease)) → active_leases w.db (env.replies w.calls) ≡ r → IsMap n free
    go (err x) p = absurd (ground arith)
    go (ok leases) p =
        let same : without_holders leases (m ∷ alive) ≡ free = ground arith in
        subst (IsMap n) same (without_holders-IsMap leases (m ∷ alive) n h)

-- The leases that are read in a world; none if they cannot be read.
abbrev pub leases_in : Env → World → List Lease
leases_in env w = elim (active_leases w.db (env.replies w.calls)) [
  | ok leases ↦ leases
  | err x ↦ []
]

-- What is known of a free worker, where the leases are read in this world.
abbrev pub IsFree : Env → ℕ → Members → World → ℕ → Type 0
IsFree env self_id members w id =
    (id ≢ self_id)
    × ((m : Member) × (lookup id members ≡ some m))
    × (holds_lease id (leases_in env w) ≡ false)

free_workers-known :
    (env : Env) (alive : Members) (w : World) (free : Members) (id : ℕ) (m : Member)
    → (free_workers env alive w).1 ≡ ok free
    → lookup id free ≡ some m
    → (lookup id alive ≡ some m) × (holds_lease id (leases_in env w) ≡ false)
unfolding free_workers lookup
free_workers-known env [] w free id m e known = absurd (ground arith)
free_workers-known env (n ∷ alive) w free id m e known =
    go (active_leases w.db (env.replies w.calls)) refl
  where
    go :
        (r : Result (List Lease))
        → active_leases w.db (env.replies w.calls) ≡ r
        → (lookup id (n ∷ alive) ≡ some m) × (holds_lease id (leases_in env w) ≡ false)
    go (err x) p = absurd (ground arith)
    go (ok leases) p =
        let lem = free_workers_lem env (n ∷ alive) w leases free id p e in
        elim (Bool-cases (holds_lease id leases)) [
          | inl q ↦ absurd (ground arith)
          | inr q ↦
              let read : leases_in env w ≡ leases = ground arith in
              (ground arith, ap (λ l. holds_lease id l) read ∙ q)
        ]

pub free_workers-IsFree :
    (env : Env) (self_id : ℕ) (members : Members) (w : World) (free : Members) (id : ℕ) (m : Member)
    → (free_workers env (alive_workers self_id members) w).1 ≡ ok free
    → lookup id free ≡ some m
    → IsFree env self_id members w id
free_workers-IsFree env self_id members w free id m e known =
    let (there, free_of) =
      free_workers-known env (alive_workers self_id members) w free id m e known in
    let (other, member) = lookup-alive_workers self_id id members m there in
    (other, (m, member), free_of)
