-- ===== src/Worker/Executor/Effects.antt =====
-- worker/task_executor.go: what an execution leaves in the storage and in the file system.
use pi_bully.Prelude.{
  ◌≡◌, refl, ◌≢◌, ◌⊎◌, inl, inr, Bool, true, false, Option, none, some, ◌∙◌, ap, arith,
  if◌then◌else◌, Bool-cases, Option-cases, ◌&&◌,
}
use pi_bully.Text.{Text, codes}
use pi_bully.Storage.{World}
use pi_bully.Worker.Engine.{Assignment}
use pi_bully.Worker.Executor.Objects.{IsOther, IsUntouched, run_script-objects, publish-other}
use pi_bully.Worker.Executor.{
  Env, TaskExecutor, Error, create_work_dir, ◌then◌, output_path, is_under, remove_all, make_dir,
  publish, run_script, execute_in, execute,
}

-- A step that answers no error after one that answers none, or an error of the first.
then-cases :
    (r : World × Option Error) (f : World → World × Option Error)
    → ((r.1 ≡ none) × ((r then f) ≡ f r.0)) ⊎ ((r then f).0 ≡ r.0) × ((r then f).1 ≢ none)
then-cases (w, none) f = inl (refl, refl)
then-cases (w, some e) f = inr (refl, λ p. cc)

execute_in-other :
    (env : Env) (e : TaskExecutor) (dir : Text) (a : Assignment) (b k : Text) (w : World)
    → IsOther e a b k
    → IsUntouched env b k
    → (execute_in env e dir a w).0.objects b k ≡ w.objects b k
unfolding execute_in
execute_in-other env e dir a b k w other untouched =
    elim (Option-cases (output_path dir (codes a.output_uri))) [
      | inl p ↦ rw (p, execute_in)
      | inr (output, p) ↦
          let ran = run_script env e dir output a w in
          let same = run_script-objects env e dir output a b k w untouched in
          elim (then-cases ran (publish env e (codes a.output_uri) output)) [
            | inl (o, q) ↦
                rw (p, execute_in, q)
                  (publish-other env e (codes a.output_uri) output b k ran.0 other ∙ same)
            | inr (q, n) ↦ rw (p, execute_in, q) same
          ]
    ]

execute-execute_in :
    (env : Env) (e : TaskExecutor) (a : Assignment) (w : World) (dir : Text)
    → env.work_dir ≡ some dir
    → execute env e a w ≡ (
      remove_all env.removes dir (execute_in env e dir a (make_dir dir w)).0,
      (execute_in env e dir a (make_dir dir w)).1,
    )
unfolding execute
execute-execute_in env e a w dir p = rw (p, execute) refl

remove_all-none :
    (removes : Text → Bool) (dir path : Text) (w : World)
    → is_under dir path ≡ true
    → removes path ≡ true
    → (remove_all removes dir w).files path ≡ none
unfolding remove_all
remove_all-none removes dir path w h r = rw (h, r)

execute-no_dir :
    (env : Env) (e : TaskExecutor) (a : Assignment) (w : World)
    → env.work_dir ≡ none
    → execute env e a w ≡ (w, some create_work_dir)
unfolding execute
execute-no_dir env e a w p = rw (p, execute) refl

remove_all-objects :
    (removes : Text → Bool) (dir b k : Text) (w : World)
    → (remove_all removes dir w).objects b k ≡ w.objects b k
unfolding remove_all
remove_all-objects removes dir b k w = refl

-- The path lies in the work directory of this execution.
abbrev pub in_work_dir : Env → Text → Bool
in_work_dir env path = elim env.work_dir [ none ↦ false | some dir ↦ is_under dir path ]

-- Whatever fails, an execution changes at most the object that the task's output URI names, apart from
-- those that its script changes by itself, and leaves no file in its work directory but those that
-- `os.RemoveAll` fails to remove.
pub execute_confined :
    (env : Env) (e : TaskExecutor) (a : Assignment) (w : World) (b k path : Text)
    → IsOther e a b k
    → IsUntouched env b k
    → ((execute env e a w).0.objects b k ≡ w.objects b k)
      × ((if in_work_dir env path && env.removes path
            then (execute env e a w).0.files path
            else none)
          ≡ none)
execute_confined env e a w b k path other untouched = elim (Option-cases env.work_dir) [
  | inl p ↦ (ap (λ r. r.0.objects b k) (execute-no_dir env e a w p), ground arith)
  | inr (dir, p) ↦
      let whole = execute-execute_in env e a w dir p in
      let inner = (execute_in env e dir a (make_dir dir w)).0 in
      (
        ap (λ r. r.0.objects b k) whole
            ∙ (remove_all-objects env.removes dir b k inner
                ∙ execute_in-other env e dir a b k (make_dir dir w) other untouched),
        elim (Bool-cases (in_work_dir env path && env.removes path)) [
          | inl inside ↦
              let under : is_under dir path ≡ true = ground arith in
              let removed : env.removes path ≡ true = ground arith in
              rw inside (
                ap (λ r. r.0.files path) whole
                ∙ remove_all-none env.removes dir path inner under removed)
          | inr outside ↦ rw outside refl
        ],
      )
]
