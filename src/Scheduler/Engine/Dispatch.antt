-- ===== src/Scheduler/Engine/Dispatch.antt =====
-- scheduler/engine.go: to whom one run of `dispatchClaimedTasks` sends the claimed tasks.
use pi_bully.Prelude.{
  ℕ, suc, ◌+◌, ◌%◌, ◌<◌, ◌≤◌, ◌≡◌, ◌⊎◌, refl, inl, inr, ◌∙◌, sym, ap, some, List, [], ◌∷◌, length,
  get_elem?, ltb, u64_mod, arith, All, Distinct, Absent, Distinct-order_by, Distinct-get_elem?,
  Bool-cases,
}
use pi_bully.Cluster.Members.{Member, Members, keys, lookup, IsKeyed}
use pi_bully.Task.Model.{Task}
use pi_bully.Task.Store.{Store, mark_assigned}
use pi_bully.Scheduler.Strategy.{sorted_ids, pick}
use pi_bully.Scheduler.Strategy.Fair.{pick_lem, same_turn}
use pi_bully.Scheduler.Engine.{Env, World, call_store, is_ok, dispatch_one, dispatch_claimed_tasks}

-- The workers of a list of assignments.
abbrev pub worker_ids : List (ℕ × ℕ) → List ℕ
worker_ids [] = []
worker_ids (a ∷ sent) = a.1 ∷ worker_ids sent

-- What one dispatch adds to the assignments: nothing, or the one of this task to this worker.
pub dispatch_one-sent :
    (env : Env) (store : Store) (t : Task) (m : Member) (w : World)
    → ((dispatch_one env store t m w).sent ≡ w.sent)
      ⊎ ((dispatch_one env store t m w).sent ≡ (t.id, m.id) ∷ w.sent)
unfolding dispatch_one call_store
dispatch_one-sent env store t m w =
    elim (Bool-cases (is_ok (call_store env store (mark_assigned t.id m.id) w).1)) [
      | inl marked ↦ elim (Bool-cases (env.accepts t.id m.id)) [
        | inl accepted ↦ inr (ground arith)
        | inr refused ↦ inr (ground arith)
      ]
      | inr failed ↦ inl (ground arith)
    ]

module _ (ms : Members) (start : ℕ) where
  -- The worker whose turn it was at a counter between two values.
  abbrev HadTurn : ℕ → ℕ → Type 0
  HadTurn c id =
      (j : ℕ) × (start ≤ j)
      × (j < c)
      × (get_elem? (sorted_ids ms) (j % length ms) ≡ some id)
      × ((m : Member) × (lookup id ms ≡ some m))

  HadTurn-later : (c : ℕ) (ids : List ℕ) → All (HadTurn c) ids → All (HadTurn (suc c)) ids
  HadTurn-later c [] h = tt
  HadTurn-later c (id ∷ ids) ((j, low, high, turn, known), rest) =
      ((j, low, omega arith, turn, known), HadTurn-later c ids rest)

  -- Within one round nobody has a second turn.
  HadTurn-Absent :
      (c id : ℕ) (ids : List ℕ)
      → Distinct (keys ms)
      → c < start + length ms
      → get_elem? (sorted_ids ms) (c % length ms) ≡ some id
      → All (HadTurn c) ids
      → Absent id ids
  unfolding sorted_ids
  HadTurn-Absent c id [] d h e all = tt
  HadTurn-Absent c id (x ∷ ids) d h e ((j, low, high, turn, known), rest) = (
    λ same. same_turn j c (length ms) high (omega arith) (
        Distinct-get_elem? (sorted_ids ms) (j % length ms) (c % length ms) x
          (Distinct-order_by ltb (keys ms) d) turn (e ∙ ap some (sym same))),
    HadTurn-Absent c id ids d h e rest,
  )

pub dispatch-cons :
    (env : Env) (store : Store) (t : Task) (tasks : List Task) (ms : Members) (c c' : ℕ)
    (m : Member) (w : World)
    → pick c ms ≡ (c', some m)
    → dispatch_claimed_tasks env store (t ∷ tasks) ms c w
      ≡ dispatch_claimed_tasks env store tasks ms c' (dispatch_one env store t m w)
unfolding dispatch_claimed_tasks
dispatch-cons env store t tasks ms c c' m w e =
    let counter : (pick c ms).0 ≡ c' = ap (λ r. r.0) e in
    let picked : (pick c ms).1 ≡ some m = ap (λ r. r.1) e in
    rw (picked, dispatch_claimed_tasks)
      (ap (λ n. dispatch_claimed_tasks env store tasks ms n (dispatch_one env store t m w)) counter)

module _ (env : Env) (store : Store) (ms : Members) (start : ℕ) where
  -- Everybody who was sent a task had one turn.
  abbrev InTurn : ℕ → World → Type 0
  InTurn c w = All (HadTurn ms start c) (worker_ids w.sent) × Distinct (worker_ids w.sent)

  dispatch_one-InTurn :
      (t : Task) (m : Member) (c : ℕ) (w : World)
      → Distinct (keys ms)
      → start ≤ c
      → c < start + length ms
      → get_elem? (sorted_ids ms) (c % length ms) ≡ some m.id
      → lookup m.id ms ≡ some m
      → InTurn c w
      → InTurn (suc c) (dispatch_one env store t m w)
  dispatch_one-InTurn t m c w d low high turn known (all, distinct) =
      let later = HadTurn-later ms start c (worker_ids w.sent) all in
      elim (dispatch_one-sent env store t m w) [
        | inl e ↦ rw e (later, distinct)
        | inr e ↦ rw e (
          ((c, low, omega arith, turn, (m, known)), later),
          (HadTurn-Absent ms start c m.id (worker_ids w.sent) d high turn all, distinct),
        )
      ]

  dispatch-InTurn :
      (tasks : List Task) (c : ℕ) (w : World)
      → IsKeyed ms
      → Distinct (keys ms)
      → start ≤ c
      → c + length tasks ≤ start + length ms
      → c + length tasks < u64_mod
      → InTurn c w
      → ((dispatch_claimed_tasks env store tasks ms c w).0 ≡ c + length tasks)
        × InTurn (c + length tasks) (dispatch_claimed_tasks env store tasks ms c w).1
  unfolding dispatch_claimed_tasks
  dispatch-InTurn [] c w k d low round bound inv =
      let same : c + 0 ≡ c = omega arith in rw same (refl, inv)
  dispatch-InTurn (t ∷ tasks) c w k d low round bound inv =
      let (m, picked, turn, known) = pick_lem c ms k (omega arith) in
      let here = dispatch_one-InTurn t m c w d low (omega arith) turn known inv in
      let rest =
        dispatch-InTurn tasks (suc c) (dispatch_one env store t m w) k d (omega arith) (omega arith)
          (omega arith) here in
      let next : (c + 1) % u64_mod ≡ suc c = grind arith in
      let total : c + suc (length tasks) ≡ suc c + length tasks = omega arith in
      rw (dispatch-cons env store t tasks ms c ((c + 1) % u64_mod) m w picked, next, total) rest

-- A run that starts with nothing sent, over no more tasks than workers (a map from identifiers to
-- members with those identifiers) and with a counter that does not wrap in it, sends no worker two
-- tasks, sends tasks to these workers only, and leaves the counter higher by the number of tasks.
pub dispatch-Distinct :
    (env : Env) (store : Store) (tasks : List Task) (ms : Members) (c : ℕ) (w : World)
    → IsKeyed ms
    → Distinct (keys ms)
    → length tasks ≤ length ms
    → c + length tasks < u64_mod
    → w.sent ≡ []
    → ((dispatch_claimed_tasks env store tasks ms c w).0 ≡ c + length tasks)
      × Distinct (worker_ids (dispatch_claimed_tasks env store tasks ms c w).1.sent)
      × All
          (λ id. (m : Member) × (lookup id ms ≡ some m))
          (worker_ids (dispatch_claimed_tasks env store tasks ms c w).1.sent)
dispatch-Distinct env store tasks ms c w k d short bound fresh =
    let (counter, (all, distinct)) =
      dispatch-InTurn env store ms c tasks c w k d (omega arith) (omega arith) bound
        (rw fresh (tt, tt)) in
    (
      counter,
      distinct,
      are_members (worker_ids (dispatch_claimed_tasks env store tasks ms c w).1.sent) all,
    )
  where
    are_members :
        (ids : List ℕ)
        → All (HadTurn ms c (c + length tasks)) ids
        → All (λ id. (m : Member) × (lookup id ms ≡ some m)) ids
    are_members [] h = tt
    are_members (id ∷ ids) ((j, low, high, turn, known), rest) = (known, are_members ids rest)
