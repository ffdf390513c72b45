-- ===== src/Scheduler/Engine/Progress.antt =====
-- scheduler/engine.go: a tick makes progress when the database answers.
use mathlib.Core.Option
use pi_bully.Prelude.{
  ℕ, ◌≡◌, ◌≢◌, refl, sym, ap, ◌∙◌, true, some, Option, List, [], ◌∷◌, arith, All, Bool-cases,
  String, inl, inr, pos,
}
use pi_bully.Task.Model.{Task, Db, scheduling}
use pi_bully.Task.Query.{latest_of, claim_queued}
use pi_bully.Task.Tx.{ok, Tx, ◌>>◌, ◌>>=◌, pure, commit, transaction, call, query, exec}
use pi_bully.Task.Store.{
  Store, Answer, claim, claimed, done, mark_assigned, perform, body_of, answer_with,
  claim_queued_tx, claim_scanned, mark_scheduling, or_scan_failed, scan_all, scan_task, is_task,
  mark_assigned_tx, latest_status, insert_status, exec_upsert_lease,
}
use pi_bully.Task.Store.Refine.{view, view-add_other, view-claimed}
use pi_bully.Task.Store.Advance.{each}
use pi_bully.Task.Store.Loops.{loop_end, claim_one, mark_scheduling-each}

-- A transaction that commits what a loop leaves answers its value.
loop_whole :
    {A : Type 0} (f : A → Answer) (a : A) (loop : Tx (Unit {0})) (db after : Db)
    → loop db [] ≡ loop_end (some after)
    → transaction (answer_with f (loop >> pure (commit a))) db [] ≡ (after, ok (f a))
unfolding transaction call
loop_whole f a loop db after e = ground arith

pub claim_whole :
    (s : Store) (now : ℕ) (scan_text : Option String → Option String) (w n : ℕ) (db after : Db)
    (t : Task) (ts : List Task)
    → scan_all (scan_task scan_text) (claim_queued db n) ≡ some (t ∷ ts)
    → each (λ (x : Task). x.id) (claim_one w) (t ∷ ts) db ≡ some after
    → perform s now (claim scan_text w (pos n)) db [] ≡ (after, ok (claimed (t ∷ ts)))
unfolding perform body_of transaction call query claim_queued_tx
claim_whole s now scan_text w n db after t ts read ends =
    ap (λ o. transaction (answer_with claimed (or_scan_failed o >>= claim_scanned w)) db []) read
    ∙ loop_whole claimed (t ∷ ts) (mark_scheduling w (t ∷ ts)) db after
        (mark_scheduling-each w (t ∷ ts) db ∙ ap loop_end ends)

-- The claim of known tasks comes to its end.
pub each_known :
    (w : ℕ) (ts : List Task) (db : Db)
    → All (λ t. is_task t.id db ≡ true) ts
    → (after : Db) × (each (λ (x : Task). x.id) (claim_one w) ts db ≡ some after)
      × (after.tasks ≡ db.tasks)
unfolding each
each_known w [] db h = (db, refl, refl)
each_known w (t ∷ ts) db h =
    let (after, ends, same) = each_known w ts (claim_one w t db) h.1 in (after, ground arith, same)

each_other :
    (w d : ℕ) (ts : List Task) (db after : Db)
    → All (λ t. t.id ≢ d) ts
    → each (λ (x : Task). x.id) (claim_one w) ts db ≡ some after
    → view d after ≡ view d db
unfolding each
each_other w d [] db after h e = let same : db ≡ after = ground arith in ap (view d) (sym same)
each_other w d (t ∷ ts) db after h e = elim (Bool-cases (is_task t.id db)) [
  | inl p ↦
      let later : each (λ (x : Task). x.id) (claim_one w) ts (claim_one w t db) ≡ some after =
        ground arith in
      each_other w d ts (claim_one w t db) after h.1 later
      ∙ view-add_other d t.id scheduling (some w) "" db h.0
  | inr p ↦ absurd (ground arith)
]

pub each_first :
    (w : ℕ) (t : Task) (ts : List Task) (db after : Db)
    → All (λ x. x.id ≢ t.id) ts
    → each (λ (x : Task). x.id) (claim_one w) (t ∷ ts) db ≡ some after
    → latest_of t.id after.statuses ≡ some scheduling
unfolding each
each_first w t ts db after n e = elim (Bool-cases (is_task t.id db)) [
  | inl p ↦
      let later : each (λ (x : Task). x.id) (claim_one w) ts (claim_one w t db) ≡ some after =
        ground arith in
      ap (λ v. v.status)
        (each_other w t.id ts (claim_one w t db) after n later ∙ view-claimed t.id w db)
  | inr p ↦ absurd (ground arith)
]

-- An assignment of a task that is being scheduled is answered.
pub assign_whole :
    (s : Store) (now t w : ℕ) (db : Db)
    → latest_of t db.statuses ≡ some scheduling
    → is_task t db ≡ true
    → (perform s now (mark_assigned t w) db []).1 ≡ ok done
unfolding perform transaction mark_assigned_tx latest_status insert_status exec_upsert_lease query
    exec call
assign_whole s now t w db status known = ground arith

pub scan_all_total :
    {A B : Type 0} (scan : A → Option B) (xs : List A)
    → ((x : A) → (y : B) × (scan x ≡ some y))
    → (ys : List B) × (scan_all scan xs ≡ some ys)
unfolding scan_all Option.bind
scan_all_total scan [] h = ([], refl)
scan_all_total scan (x ∷ xs) h =
    let (y, p) = h x in let (ys, q) = scan_all_total scan xs h in (y ∷ ys, ground arith)
