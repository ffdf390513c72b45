-- ===== src/Worker/Executor.antt =====
-- worker/task_executor.go: the execution of one task. The process that runs the script is a parameter:
-- what it leaves in the file system and in the object storage, which a script may reach by itself, and
-- how it ends. What `os.RemoveAll` manages to remove is one, too.
pub mod Objects
pub mod Process
pub mod Effects
use pi_bully.Prelude.{
  ℕ, ◌≡◌, String, Bool, true, false, not, ◌&&◌, ◌||◌, Option, none, some, List, [], ◌∷◌, ◌++◌, map,
  if◌then◌else◌,
}
use pi_bully.Text.{Text, codes, text_eq, is_empty}
use pi_bully.Text.Path.{base, join_path}
use pi_bully.Text.Decimal.{format_uint}
use pi_bully.Storage
use pi_bully.Storage.{Client, World, strip_prefix, download, upload}
use pi_bully.Worker.Engine.{Assignment}

-- `exec.Cmd`
pub record Command : Type 0 where
  pub path : Text
  pub args : List Text
  pub dir : Text
  pub env : List Text

-- How `cmd.Run` ends: with no error, or with what the process wrote to stderr and stdout.
pub data Run : Type 0 where
  succeeded : Run
  crashed : (stderr stdout : Text) → Run

pub data Error : Type 0 where
  create_work_dir invalid_output_uri output_missing : Error
  download_executable download_input upload_output : Storage.Error → Error
  execute_task : Text → Error

-- The answers of the storage for each of the three transfers; `work_dir` is what `os.MkdirTemp` answers,
-- `stat` whether `os.Stat` of a path that exists succeeds, and `removes` which of the paths that it is to
-- remove `os.RemoveAll` removes.
pub record Env : Type 0 where
  pub work_dir : Option Text
  pub executable_calls : Storage.Env
  pub input_calls : Storage.Env
  pub output_calls : Storage.Env
  pub run : Command → World → World × Run
  pub stat : Text → Bool
  pub removes : Text → Bool
  pub pid : ℕ

pub record TaskExecutor : Type 0 where
  pub storage : Client
  pub python_path : Text

-- A step, and the next one if it answered no error.
infixl 5 ◌then◌
abbrev pub ◌then◌ : World × Option Error → (World → World × Option Error) → World × Option Error
r then f = elim r.1 [ none ↦ f r.0 | some e ↦ (r.0, some e) ]

abbrev pub wrap : (Storage.Error → Error) → World × Option Storage.Error → World × Option Error
wrap f r = (r.0, elim r.1 [ none ↦ none | some e ↦ some (f e) ])

abbrev is_bad_name : Text → Bool
is_bad_name name = text_eq name (codes ".") || text_eq name (codes "/") || is_empty name

-- `outputPath`, which stays empty without an output URI; `none` where the URI is refused.
unfoldable pub output_path : Text → Text → Option Text
unfolding base join_path
output_path dir [] = some []
output_path dir (c ∷ uri) =
    let name = base (c ∷ uri) in if is_bad_name name then none else some (join_path dir name)

abbrev pub script_path : Text → Text
script_path dir = join_path dir (codes "task.py")

abbrev pub input_path : Text → Text
input_path dir = join_path dir (codes "input")

-- The path is the directory, or lies in it.
abbrev pub is_under : Text → Text → Bool
is_under dir path =
    text_eq dir path
    || elim (strip_prefix (dir ++ b'/' ∷ []) path) [ none ↦ false | some rest ↦ true ]

-- `os.RemoveAll(dir)`, whose error is ignored: a path stays where it cannot be removed.
unfoldable pub remove_all : (Text → Bool) → Text → World → World
unfolding strip_prefix
remove_all removes dir w = record w {
  files = λ p. if is_under dir p && removes p then none else w.files p;
  dirs = λ p. if is_under dir p && removes p then false else w.dirs p;
}

abbrev pub make_dir : Text → World → World
make_dir dir w = record w { dirs = λ p. if text_eq dir p then true else w.dirs p }

-- `taskInput`
abbrev pub task_input : Text → Text → Text
task_input dir [] = []
task_input dir (c ∷ uri) = input_path dir

unfoldable pub command : Env → TaskExecutor → Text → Text → Assignment → Command
unfolding join_path format_uint
command env e dir output a = record {
  path = e.python_path;
  args = script_path dir ∷ map codes a.args;
  dir = dir;
  env =
      (codes "TASK_INPUT=" ++ task_input dir (codes a.input_uri))
      ∷ (codes "TASK_OUTPUT=" ++ output)
      ∷ (codes "WORKER_PID=" ++ format_uint env.pid)
      ∷ [];
}

-- The error of a run, with what the process wrote: to stderr if anything, else to stdout.
abbrev pub run_error : Run → Option Error
run_error succeeded = none
run_error (crashed stderr stdout) =
    some (execute_task (if not (is_empty stderr) then stderr else stdout))

unfoldable pub run_command : Env → Command → World → World × Option Error
run_command env cmd w = let (w', run) = env.run cmd w in (w', run_error run)

unfoldable pub fetch_input : Env → TaskExecutor → Text → Text → World → World × Option Error
unfolding download
fetch_input env e dir [] w = (w, none)
fetch_input env e dir (c ∷ uri) w =
    wrap download_input (download env.input_calls e.storage (c ∷ uri) (input_path dir) w)

abbrev is_some : {A : Type 0} → Option A → Bool
is_some none = false
is_some (some a) = true

-- `os.Stat`, and then the upload.
unfoldable pub publish : Env → TaskExecutor → Text → Text → World → World × Option Error
unfolding upload
publish env e [] output w = (w, none)
publish env e (c ∷ uri) output w =
    if env.stat output && (is_some (w.files output) || w.dirs output)
    then wrap upload_output (upload env.output_calls e.storage (c ∷ uri) output w)
    else (w, some output_missing)

-- The steps in the work directory, up to the end of the process.
unfoldable pub run_script :
    Env → TaskExecutor → Text → Text → Assignment → World → World × Option Error
unfolding run_command fetch_input command download
run_script env e dir output a w =
    wrap download_executable
      (download env.executable_calls e.storage (codes a.executable_uri) (script_path dir) w)
    then fetch_input env e dir (codes a.input_uri)
    then run_command env (command env e dir output a)

unfoldable pub execute_in : Env → TaskExecutor → Text → Assignment → World → World × Option Error
unfolding run_script publish output_path
execute_in env e dir a w = elim (output_path dir (codes a.output_uri)) [
  | none ↦ (w, some invalid_output_uri)
  | some output ↦ run_script env e dir output a w then publish env e (codes a.output_uri) output
]

-- `Execute`: the work directory is removed whatever happened in it.
unfoldable pub execute : Env → TaskExecutor → Assignment → World → World × Option Error
unfolding execute_in remove_all
execute env e a w = elim env.work_dir [
  | none ↦ (w, some create_work_dir)
  | some dir ↦
      let (w', error) = execute_in env e dir a (make_dir dir w) in
      (remove_all env.removes dir w', error)
]
