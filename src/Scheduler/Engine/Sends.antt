-- ===== src/Scheduler/Engine/Sends.antt =====
-- scheduler/engine.go: a leader's tick sends the oldest task that waits.
use mathlib.Core.Option
use pi_bully.Prelude.{
  ℕ, suc, ◌+◌, ◌%◌, ◌<◌, ◌≡◌, refl, sym, ap, ◌∙◌, subst, true, some, none, Option, List, [], ◌∷◌,
  length, arith, All, Any, Bool-cases, String, inl, inr, pos, order_by, select, All-select,
  All-order_by, u64_mod,
}
use pi_bully.Cluster.Members.{Member, Members, IsKeyed}
use pi_bully.Task.Model.{Task, TaskRow, Db, scheduling}
use pi_bully.Task.Query.{task_of, latest_of, claim_queued, claimable, older, limit}
use pi_bully.Task.Tx.{ok}
use pi_bully.Task.Store.{
  Store, claim, claimed, mark_assigned, perform, scan_all, scan_task, is_task,
}
use pi_bully.Task.Store.Table.{All-task_of}
use pi_bully.Task.Store.Scan.{scan_all-All, All-limit}
use pi_bully.Task.Store.Advance.{IsSound}
use pi_bully.Task.Store.Ready.{claim-Apart, scan_task_key}
use pi_bully.Scheduler.Strategy.{pick}
use pi_bully.Scheduler.Strategy.Fair.{pick_lem}
use pi_bully.Scheduler.Engine.{Env, World, call_store, is_ok, dispatch_one, dispatch_claimed_tasks}
use pi_bully.Scheduler.Engine.Dispatch.{dispatch_one-sent, dispatch-cons}
use pi_bully.Scheduler.Engine.Progress.{
  claim_whole, each_known, each_first, assign_whole, scan_all_total,
}

-- The driver reads every nullable text.
abbrev pub ReadsTexts : (Option String → Option String) → Type 0
ReadsTexts scan_text = (x : Option String) → (y : String) × (scan_text x ≡ some y)

-- The tasks that may be claimed, oldest first.
abbrev pub waiting_tasks : Db → List TaskRow
waiting_tasks db = order_by older (select (claimable db) db.tasks)

scan_task_total :
    (scan_text : Option String → Option String) (r : TaskRow)
    → ReadsTexts scan_text
    → (t : Task) × (scan_task scan_text r ≡ some t)
unfolding Option.bind
scan_task_total scan_text r reads =
    let (i, p) = reads r.input_uri in
    let (o, q) = reads r.output_uri in
    (
      record {
        id = r.id;
        executable = r.executable;
        input_uri = i;
        output_uri = o;
        args = r.args;
        max_retries = r.max_retries;
        created_at = r.created_at;
      },
      ground arith,
    )

module _ (db : Db) (sound : IsSound db) (scan_text : Option String → Option String)
    (reads : ReadsTexts scan_text) where
  waiting_known :
      (n : ℕ) (ts : List Task)
      → scan_all (scan_task scan_text) (claim_queued db n) ≡ some ts
      → All (λ t. is_task t.id db ≡ true) ts
  unfolding claim_queued
  waiting_known n ts read =
      scan_all-All (λ r. task_of r.id db.tasks ≡ some r) (λ t. is_task t.id db ≡ true)
        (scan_task scan_text)
        (λ r t e known.
          let key = scan_task_key scan_text r t e in
          subst (λ id. is_task id db ≡ true) (sym key) (ground arith))
        _ ts read
        (All-limit _ n _ (
          All-order_by _ older _
            (All-select _ (claimable db) db.tasks (All-task_of db.tasks sound.rows))))

  first_read :
      (n : ℕ) (r : TaskRow) (rest : List TaskRow)
      → waiting_tasks db ≡ r ∷ rest
      → (t : Task) × (ts : List Task) × (scan_task scan_text r ≡ some t)
        × (scan_all (scan_task scan_text) (claim_queued db (suc n)) ≡ some (t ∷ ts))
  unfolding claim_queued limit scan_all Option.bind
  first_read n r rest e =
      let (t, p) = scan_task_total scan_text r reads in
      let (ts, q) =
        scan_all_total (scan_task scan_text) (limit n rest)
          (λ x. scan_task_total scan_text x reads) in
      let whole : scan_all (scan_task scan_text) (r ∷ limit n rest) ≡ some (t ∷ ts) =
        ground arith in
      (t, ts, p, ap (λ rows. scan_all (scan_task scan_text) (limit (suc n) rows)) e ∙ whole)

  -- The first of the tasks that a claim answers is the oldest, and is being scheduled.
  pub claim_first :
      (s : Store) (now w n : ℕ) (r : TaskRow) (rest : List TaskRow)
      → waiting_tasks db ≡ r ∷ rest
      → (t : Task) × (ts : List Task) × (after : Db) × (perform s now
            (claim scan_text w (pos (suc n)))
            db
            []
          ≡ (after, ok (claimed (t ∷ ts))))
        × (t.id ≡ r.id)
        × (latest_of t.id after.statuses ≡ some scheduling)
        × (is_task t.id after ≡ true)
  claim_first s now w n r rest e =
      let (t, ts, p, read) = first_read n r rest e in
      let known = waiting_known (suc n) (t ∷ ts) read in
      let (after, ends, same) = each_known w (t ∷ ts) db known in
      let apart = claim-Apart db sound scan_text (suc n) (t ∷ ts) read in
      (
        t,
        ts,
        after,
        claim_whole s now scan_text w (suc n) db after t ts read ends,
        scan_task_key scan_text r t p,
        each_first w t ts db after apart.0 ends,
        ground arith,
      )

dispatch_one-sends :
    (env : Env) (store : Store) (t : Task) (m : Member) (w : World)
    → is_ok (call_store env store (mark_assigned t.id m.id) w).1 ≡ true
    → (dispatch_one env store t m w).sent ≡ (t.id, m.id) ∷ w.sent
unfolding dispatch_one call_store
dispatch_one-sends env store t m w marked = elim (Bool-cases (env.accepts t.id m.id)) [
  | inl accepted ↦ ground arith
  | inr refused ↦ ground arith
]

module _ (env : Env) (store : Store) (P : ℕ × ℕ → Type 0) where
  dispatch_one-keeps :
      (t : Task) (m : Member) (w : World) → Any P w.sent → Any P (dispatch_one env store t m w).sent
  dispatch_one-keeps t m w h = elim (dispatch_one-sent env store t m w) [
    | inl e ↦ rw e h
    | inr e ↦ rw e (inr h)
  ]

  dispatch-keeps :
      (ts : List Task) (ms : Members) (c : ℕ) (w : World)
      → Any P w.sent
      → Any P (dispatch_claimed_tasks env store ts ms c w).1.sent
  unfolding dispatch_claimed_tasks
  dispatch-keeps [] ms c w h = h
  dispatch-keeps (t ∷ ts) ms c w h = go (pick c ms).1 refl (λ m.
      dispatch-keeps ts ms (pick c ms).0 (dispatch_one env store t m w)
        (dispatch_one-keeps t m w h))
    where
      go :
          (picked : Option Member)
          → (pick c ms).1 ≡ picked
          → ((m : Member)
              → Any P
                  (dispatch_claimed_tasks env store ts ms
                    (pick c ms).0
                    (dispatch_one env store t m w)).1.sent)
          → Any P (dispatch_claimed_tasks env store (t ∷ ts) ms c w).1.sent
      go none p later = rw (p, dispatch_claimed_tasks) h
      go (some m) p later = rw (p, dispatch_claimed_tasks) (later m)

call_assign :
    (env : Env) (store : Store) (t w : ℕ) (world : World)
    → env.replies world.calls ≡ []
    → latest_of t world.db.statuses ≡ some scheduling
    → is_task t world.db ≡ true
    → is_ok (call_store env store (mark_assigned t w) world).1 ≡ true
unfolding call_store
call_assign env store t w world answers status known =
    let whole = assign_whole store (env.now world.calls) t w world.db status known in
    ap is_ok (
      ap (λ rs. (perform store (env.now world.calls) (mark_assigned t w) world.db rs).1) answers
      ∙ whole)

pub dispatch_first :
    (env : Env) (store : Store) (t : Task) (ts : List Task) (ms : Members) (c : ℕ) (w : World)
    → env.replies w.calls ≡ []
    → IsKeyed ms
    → 0 < length ms
    → latest_of t.id w.db.statuses ≡ some scheduling
    → is_task t.id w.db ≡ true
    → (id : ℕ) × Any (λ a. a ≡ (t.id, id)) (dispatch_claimed_tasks env store (t ∷ ts) ms c w).1.sent
dispatch_first env store t ts ms c w answers keyed some_free status known =
    let (m, picked, turn, member) = pick_lem c ms keyed some_free in
    let sent =
      dispatch_one-sends env store t m w (call_assign env store t.id m.id w answers status known) in
    let first : Any (λ a. a ≡ (t.id, m.id)) (dispatch_one env store t m w).sent =
      subst (Any (λ a. a ≡ (t.id, m.id))) (sym sent) (inl refl) in
    (
      m.id,
      rw (dispatch-cons env store t ts ms c ((c + 1) % u64_mod) m w picked) (
          dispatch-keeps env store (λ a. a ≡ (t.id, m.id)) ts ms ((c + 1) % u64_mod)
            (dispatch_one env store t m w) first),
    )
