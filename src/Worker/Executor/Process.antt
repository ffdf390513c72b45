-- ===== src/Worker/Executor/Process.antt =====
-- worker/task_executor.go: the steps up to the end of the process, where none of them answers an error.
use pi_bully.Prelude.{◌≡◌, refl, Option, none, some, ◌∙◌, ap, sym}
use pi_bully.Text.{Text, codes}
use pi_bully.Storage
use pi_bully.Storage.{World, download}
use pi_bully.Worker.Engine.{Assignment}
use pi_bully.Worker.Executor.{
  Env, TaskExecutor, Error, ◌then◌, run_script, wrap, Command, run_command, command, fetch_input,
  script_path, Run, succeeded, crashed, run_error, download_executable,
}

wrap-ok :
    (f : Storage.Error → Error) (r : World × Option Storage.Error)
    → (wrap f r).1 ≡ none
    → r ≡ ((wrap f r).0, none)
wrap-ok f (w, none) h = refl
wrap-ok f (w, some e) h = cc

then-ok :
    (r : World × Option Error) (f : World → World × Option Error)
    → (r then f).1 ≡ none
    → (r.1 ≡ none) × ((r then f) ≡ f r.0)
then-ok (w, none) f h = (refl, refl)
then-ok (w, some e) f h = cc

pair-none : (r : World × Option Error) → r.1 ≡ none → r ≡ (r.0, none)
pair-none (w, none) h = refl
pair-none (w, some e) h = cc

-- How the process ended, and what it left.
run_command-ok :
    (env : Env) (cmd : Command) (w : World)
    → (run_command env cmd w).1 ≡ none
    → env.run cmd w ≡ ((run_command env cmd w).0, succeeded)
unfolding run_command
run_command-ok env cmd w h = go (env.run cmd w) h
  where
    go : (r : World × Run) → run_error r.1 ≡ none → r ≡ (r.0, succeeded)
    go (u, succeeded) p = refl
    go (u, crashed stderr stdout) p = cc

-- The steps of a run of the script that answers no error: the script and the input have been
-- downloaded, and the process has then ended without an error.
pub record Ran (env : Env) (e : TaskExecutor) (dir output : Text) (a : Assignment) (w after : World)
    : Type 0 where
  pub with_script : World
  pub with_input : World
  pub script :
      download env.executable_calls e.storage (codes a.executable_uri) (script_path dir) w
      ≡ (with_script, none)
  pub input : fetch_input env e dir (codes a.input_uri) with_script ≡ (with_input, none)
  pub process : env.run (command env e dir output a) with_input ≡ (after, succeeded)

pub run_script-Ran :
    (env : Env) (e : TaskExecutor) (dir output : Text) (a : Assignment) (w : World)
    → (run_script env e dir output a w).1 ≡ none
    → Ran env e dir output a w (run_script env e dir output a w).0
unfolding run_script
run_script-Ran env e dir output a w h =
    let got =
      download env.executable_calls e.storage (codes a.executable_uri) (script_path dir) w in
    let fetched : World × Option Error = wrap download_executable got in
    let fetch = fetch_input env e dir (codes a.input_uri) in
    let cmd = command env e dir output a in
    let last = then-ok (fetched then fetch) (run_command env cmd) h in
    let first = then-ok fetched fetch last.0 in
    let ended : (run_command env cmd (fetched then fetch).0).1 ≡ none =
      ap (λ r. r.1) (sym last.1) ∙ h in
    record {
      with_script = fetched.0;
      with_input = (fetched then fetch).0;
      script = wrap-ok download_executable got first.0;
      input = sym first.1 ∙ pair-none (fetched then fetch) last.0;
      process =
          run_command-ok env cmd (fetched then fetch).0 ended
          ∙ ap (λ (r : World × Option Error). (r.0, succeeded)) (sym last.1);
    }
