-- ===== src/Task/Store/Recovered.antt =====
-- task/store.go: what `RecoverDeadWorkerLeases` leaves.
use pi_bully.Prelude.{
  ℕ, ◌≡◌, refl, ◌⊎◌, inl, inr, some, none, Option, List, [], ◌∷◌, arith, ℤ, to_int64, of_int64, All,
  Any, ap, sym, subst, ◌∙◌, String, length, int_eq_refl, Option-cases, Bool-cases, ◌==◌, All-map,
}
use pi_bully.Cluster.Members.{Members, Member, lookup}
use pi_bully.Task.Model.{Db, TaskRow, LeaseRow}
use pi_bully.Task.Query.{task_of, latest_of, delete_lease}
use pi_bully.Task.Query.Leases.{holder_of}
use pi_bully.Task.Lifecycle.{InFlight, IsOrderly, Steps-IsOrderly}
use pi_bully.Task.Tx.{Reply, ok, Tx, ◌>>◌, pure, commit, query, call, transaction}
use pi_bully.Task.Store.{
  Store, Op, Answer, recovered, recover_dead, perform, body_of, answer_with, recover_rows,
  dead_leases, lose_leases, recover_dead_worker_leases_tx,
}
use pi_bully.Task.Store.Atomic.{perform_atomic}
use pi_bully.Task.Store.Refine.{view}
use pi_bully.Task.Store.Table.{IsWord}
use pi_bully.Task.Store.Advance.{IsSound, task_of-IsOrderly, each}
use pi_bully.Task.Store.Loops.{loop_end, lose_one, lose_leases-each}
use pi_bully.Task.Store.Sound.{perform-Advances}

module _ (P : LeaseRow → Type 0) where
  -- The lease is given up by one of the rows, or has the property.
  abbrev Covered : List (ℕ × ℕ) → LeaseRow → Type 0
  Covered rows l = P l ⊎ Any (λ d. (d.0 ≡ l.task_id) × (to_int64 d.1 ≡ l.worker_id)) rows

  Covered-delete :
      (d : ℕ × ℕ) (rows : List (ℕ × ℕ)) (leases : List LeaseRow)
      → All (Covered (d ∷ rows)) leases
      → All (Covered rows) (delete_lease d.0 (to_int64 d.1) leases)
  unfolding delete_lease
  Covered-delete d rows [] h = tt
  Covered-delete d rows (l ∷ leases) h =
      ground (arith, Covered-delete d rows leases h.1, int_eq_refl l.worker_id, h.0)

  uncovered : (l : LeaseRow) → Covered [] l → P l
  uncovered l (inl p) = p
  uncovered l (inr x) = absurd x

  Covered-each :
      (msg : String) (rows : List (ℕ × ℕ)) (db after : Db)
      → All (Covered rows) db.leases
      → each (λ (l : ℕ × ℕ). l.0) (lose_one msg) rows db ≡ some after
      → All P after.leases
  unfolding each
  Covered-each msg [] db after h e =
      let same : db ≡ after = ground arith in
      subst (λ d. All P d.leases) same (All-map (Covered []) P uncovered db.leases h)
  Covered-each msg (d ∷ rows) db after h e =
      Covered-each msg rows (lose_one msg d db) after (Covered-delete d rows db.leases h)
        (ground arith)

  All-holder :
      (t : ℕ) (z : ℤ) (leases : List LeaseRow)
      → holder_of t leases ≡ some z
      → All P leases
      → (l : LeaseRow) × P l × (l.worker_id ≡ z)
  unfolding holder_of
  All-holder t z [] e h = absurd (ground arith)
  All-holder t z (l ∷ leases) e h = elim (Bool-cases (l.task_id == t)) [
    | inl p ↦ (l, h.0, ground arith)
    | inr p ↦ All-holder t z leases (ground arith) h.1
  ]

-- The worker of the lease is alive.
abbrev IsAlive : Members → LeaseRow → Type 0
IsAlive alive l = (m : Member) × (lookup (of_int64 l.worker_id) alive ≡ some m)

Covered-later :
    (P : LeaseRow → Type 0) (d : ℕ × ℕ) (rows : List (ℕ × ℕ)) (leases : List LeaseRow)
    → All (Covered P rows) leases
    → All (Covered P (d ∷ rows)) leases
Covered-later P d rows leases h =
    All-map (Covered P rows) (Covered P (d ∷ rows)) (λ l c. ground arith) leases h

dead_leases-dead :
    (alive : Members) (l : LeaseRow) (leases : List LeaseRow)
    → lookup (of_int64 l.worker_id) alive ≡ none
    → dead_leases alive (l ∷ leases) ≡ (l.task_id, of_int64 l.worker_id) ∷ dead_leases alive leases
unfolding dead_leases
dead_leases-dead alive l leases p = ground arith

dead_leases-alive :
    (alive : Members) (l : LeaseRow) (leases : List LeaseRow) (m : Member)
    → lookup (of_int64 l.worker_id) alive ≡ some m
    → dead_leases alive (l ∷ leases) ≡ dead_leases alive leases
unfolding dead_leases
dead_leases-alive alive l leases m p = ground arith

dead-Covered :
    (alive : Members) (leases : List LeaseRow)
    → All (λ l. IsWord l.worker_id) leases
    → All (Covered (IsAlive alive) (dead_leases alive leases)) leases
dead-Covered alive [] h = tt
dead-Covered alive (l ∷ leases) h = elim (Option-cases (lookup (of_int64 l.worker_id) alive)) [
  | inl p ↦
      subst (λ rows. All (Covered (IsAlive alive) rows) (l ∷ leases))
        (sym (dead_leases-dead alive l leases p))
        (
          inr (inl (refl, h.0)),
          Covered-later (IsAlive alive) (l.task_id, of_int64 l.worker_id) (dead_leases alive leases)
              leases (dead-Covered alive leases h.1),
        )
  | inr (m, p) ↦
      subst (λ rows. All (Covered (IsAlive alive) rows) (l ∷ leases))
        (sym (dead_leases-alive alive l leases m p)) (inl (m, p), dead-Covered alive leases h.1)
]

-- A loop that is committed has come to its end.
loop_answer :
    {A : Type 0} (f : A → Answer) (a : A) (loop : Tx (Unit {0})) (db : Db) (o : Option Db)
    (answer : Answer)
    → loop db [] ≡ loop_end o
    → (transaction (answer_with f (loop >> pure (commit a))) db []).1 ≡ ok answer
    → o ≡ some (transaction (answer_with f (loop >> pure (commit a))) db []).0
unfolding transaction call
loop_answer f a loop db none answer e h = ground arith
loop_answer f a loop db (some after) answer e h = ground arith

recover_rows_answer :
    (P : LeaseRow → Type 0) (msg : String) (rows : List (ℕ × ℕ)) (db : Db) (answer : Answer)
    → All (Covered P rows) db.leases
    → (transaction (answer_with recovered (recover_rows msg rows)) db []).1 ≡ ok answer
    → All P (transaction (answer_with recovered (recover_rows msg rows)) db []).0.leases
unfolding transaction call recover_rows
recover_rows_answer P msg [] db answer h e = All-map (Covered P []) P (uncovered P) db.leases h
recover_rows_answer P msg (l ∷ rows) db answer h e = Covered-each P msg (l ∷ rows) db _ h (
    loop_answer recovered (length (l ∷ rows)) (lose_leases msg (l ∷ rows)) db _ answer
      (lose_leases-each msg (l ∷ rows) db) e)

recover_dead-IsAlive :
    (s : Store) (now : ℕ) (alive : Members) (db : Db) (answer : Answer)
    → IsSound db
    → (perform s now (recover_dead alive) db []).1 ≡ ok answer
    → All (IsAlive alive) (perform s now (recover_dead alive) db []).0.leases
unfolding perform body_of transaction call query recover_dead_worker_leases_tx
recover_dead-IsAlive s now alive db answer sound e =
    recover_rows_answer (IsAlive alive) "worker not alive during leader recovery"
      (dead_leases alive db.leases) db answer (dead-Covered alive db.leases sound.table.words) e

InFlight-holder :
    (max : ℕ) (t : ℕ) (db : Db)
    → IsOrderly max (view t db)
    → InFlight (latest_of t db.statuses)
    → (z : ℤ) × (holder_of t db.leases ≡ some z)
InFlight-holder max t db o f = elim (Option-cases (holder_of t db.leases)) [
  | inl p ↦ absurd (o.flying f p)
  | inr x ↦ x
]

-- After the recovery with which a new leader begins, when it answers without an error, every task that
-- is assigned or running has a lease, and the worker that holds it is one of the members that are
-- alive. The database was sound before.
pub recover_dead_lem :
    (s : Store) (now : ℕ) (alive : Members) (db : Db) (replies : List Reply) (answer : Answer)
    (t : ℕ) (q : TaskRow)
    → IsSound db
    → (perform s now (recover_dead alive) db replies).1 ≡ ok answer
    → task_of t db.tasks ≡ some q
    → InFlight (latest_of t (perform s now (recover_dead alive) db replies).0.statuses)
    → (z : ℤ) × (m : Member) × (holder_of t (perform s now (recover_dead alive) db replies).0.leases
        ≡ some z)
      × (lookup (of_int64 z) alive ≡ some m)
recover_dead_lem s now alive db replies answer t q sound e row flying =
    let op : Op = recover_dead alive in
    let whole = (perform_atomic s now op db replies).1 answer e in
    let after = (perform s now op db replies).0 in
    let change = perform-Advances s now db sound op replies tt in
    let orderly = Steps-IsOrderly (change.steps t q row) (task_of-IsOrderly sound t q row) in
    let held = InFlight-holder q.max_retries t after orderly flying in
    let answered = ap (λ r. r.1) (sym whole) ∙ e in
    let alive_all : All (IsAlive alive) after.leases =
      subst (λ r. All (IsAlive alive) r.0.leases) (sym whole)
        (recover_dead-IsAlive s now alive db answer sound answered) in
    let found = All-holder (IsAlive alive) t held.0 after.leases held.1 alive_all in
    (
      held.0,
      found.1.0,
      held.1,
      subst (λ z. lookup (of_int64 z) alive ≡ some found.1.0) found.2 found.1.1,
    )
