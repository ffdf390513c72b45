-- ===== src/Tests/Files.antt =====
-- The theorems on the object storage and the task executor at concrete inputs.
use pi_bully.Prelude.{◌≡◌, ◌⊎◌, refl, true, false, none, some, [], ◌&&◌, if◌then◌else◌, inr}
use pi_bully.Text.{Text, codes, text_eq}
use pi_bully.Storage.{Client, World, Env, complete, stored, parse_key, download, upload}
use pi_bully.Storage.Key.{IsUri, parse_key_lem}
use pi_bully.Storage.Transfer.{upload-download}
use pi_bully.Worker.Engine.{Assignment}
use pi_bully.Worker.Executor
use pi_bully.Worker.Executor.{Command, Run, succeeded, TaskExecutor, execute}
use pi_bully.Worker.Executor.Effects.{in_work_dir, execute_confined}

abbrev uri : Text
uri = codes "s3://bully/in/a"

parse_key_lem_example :
    ((bucket key : Text) × IsUri bucket key uri × (parse_key uri ≡ key))
    ⊎ (((bucket key : Text) → ¬ IsUri bucket key uri) × (parse_key uri ≡ uri))
parse_key_lem_example = parse_key_lem uri

key_found : parse_key uri ≡ codes "in/a"
unfolding parse_key
key_found = refl

abbrev client : Client
client = record {
  base_endpoint = codes "http://localhost:4566";
  region = codes "eu-west-1";
  access_key = [];
  secret_key = [];
  use_path_style = true;
  bucket = codes "bully";
}

abbrev calls : Env
calls = record {
  get = λ key. complete;
  create = λ path. true;
  open_file = λ path. true;
  put = λ key. stored;
}

-- One local file, and the script in the storage.
abbrev world : World
world = record {
  files = λ p. if text_eq p (codes "/data/a") then some (codes "hello") else none;
  dirs = λ p. false;
  objects = λ b k. if text_eq k (codes "mock.py") then some (codes "pass") else none;
}

upload-download_example :
    (download calls client uri
        (codes "/data/b")
        (upload calls client uri (codes "/data/a") world).0).0.files
      (codes "/data/b")
    ≡ some (codes "hello")
unfolding upload download parse_key
upload-download_example =
    upload-download calls calls client client uri uri (codes "/data/a") (codes "/data/b") world refl
      refl refl refl

-- The script writes its output.
abbrev run : Command → World → World × Run
run cmd w = (
  record w { files = λ p. if text_eq p (codes "/tmp/t/o") then some (codes "out") else w.files p },
  succeeded,
)

abbrev exec_env : Executor.Env
exec_env = record {
  work_dir = some (codes "/tmp/t");
  executable_calls = calls;
  input_calls = calls;
  output_calls = calls;
  run = run;
  stat = λ p. true;
  removes = λ p. true;
  pid = 12;
}

abbrev executor : TaskExecutor
executor = record { storage = client; python_path = codes "/usr/bin/python3" }

abbrev assignment : Assignment
assignment = record {
  task_id = "1";
  executable_uri = "s3://bully/mock.py";
  input_uri = "";
  output_uri = "s3://bully/o";
  args = [];
}

execute_confined_example :
    ((execute exec_env executor assignment world).0.objects (codes "bully") (codes "mock.py")
      ≡ world.objects (codes "bully") (codes "mock.py"))
    × ((if in_work_dir exec_env (codes "/tmp/t/o") && exec_env.removes (codes "/tmp/t/o")
          then (execute exec_env executor assignment world).0.files (codes "/tmp/t/o")
          else none)
        ≡ none)
unfolding parse_key
execute_confined_example =
    execute_confined exec_env executor assignment world (codes "bully") (codes "mock.py")
      (codes "/tmp/t/o") (inr (λ p. cc p)) (λ cmd w. refl)
