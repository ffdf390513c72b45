-- ===== src/Worker/Executor/Objects.antt =====
-- worker/task_executor.go: what the steps of an execution do to the objects of the storage.
use pi_bully.Prelude.{
  ◌≡◌, refl, ◌≢◌, ◌⊎◌, inl, inr, true, ◌&&◌, Option, none, some, [], ◌∷◌, ◌∙◌, ap, sym, arith,
  if◌then◌else◌, Bool-cases, Option-cases,
}
use pi_bully.Text.{Text, codes, text_eq, eq_of_text_eq}
use pi_bully.Storage
use pi_bully.Storage.{Client, World, parse_key, download, upload, store, receive, send}
use pi_bully.Worker.Engine.{Assignment}
use pi_bully.Worker.Executor.{
  Env, TaskExecutor, Error, download_executable, Command, ◌then◌, wrap, script_path, input_path,
  run_command, fetch_input, publish, run_script, command,
}

download-objects :
    (env : Storage.Env) (c : Client) (uri dest : Text) (w : World)
    → (download env c uri dest w).0.objects ≡ w.objects
unfolding download receive
download-objects env c uri dest w = elim (Option-cases (w.objects c.bucket (parse_key uri))) [
  | inl e ↦ ground arith
  | inr (body, e) ↦ ground arith
]

fetch_input-objects :
    (env : Env) (e : TaskExecutor) (dir uri : Text) (w : World)
    → (fetch_input env e dir uri w).0.objects ≡ w.objects
unfolding fetch_input
fetch_input-objects env e dir [] w = refl
fetch_input-objects env e dir (c ∷ uri) w =
    download-objects env.input_calls e.storage (c ∷ uri) (input_path dir) w

-- The process that runs the script does not change the object.
abbrev pub IsUntouched : Env → Text → Text → Type 0
IsUntouched env b k = (cmd : Command) (w : World) → (env.run cmd w).0.objects b k ≡ w.objects b k

run_command-objects :
    (env : Env) (cmd : Command) (b k : Text) (w : World)
    → IsUntouched env b k
    → (run_command env cmd w).0.objects b k ≡ w.objects b k
unfolding run_command
run_command-objects env cmd b k w h = h cmd w

-- Steps that leave an object alone do so one after the other.
then-objects :
    (b k : Text) (r : World × Option Error) (f : World → World × Option Error)
    → ((w : World) → (f w).0.objects b k ≡ w.objects b k)
    → (r then f).0.objects b k ≡ r.0.objects b k
then-objects b k (w, none) f h = h w
then-objects b k (w, some e) f h = refl

pub run_script-objects :
    (env : Env) (e : TaskExecutor) (dir output : Text) (a : Assignment) (b k : Text) (w : World)
    → IsUntouched env b k
    → (run_script env e dir output a w).0.objects b k ≡ w.objects b k
unfolding run_script
run_script-objects env e dir output a b k w h =
    let fetched : World × Option Error =
      wrap download_executable
        (download env.executable_calls e.storage (codes a.executable_uri) (script_path dir) w) in
    let fetch = fetch_input env e dir (codes a.input_uri) in
    let cmd = command env e dir output a in
    let at_key = λ (objects : Text → Text → Option Text). objects b k in
    then-objects b k (fetched then fetch) (run_command env cmd)
      (λ u. run_command-objects env cmd b k u h)
    ∙ (then-objects b k fetched fetch
          (λ u. ap at_key (fetch_input-objects env e dir (codes a.input_uri) u))
        ∙ ap at_key (
            download-objects env.executable_calls e.storage (codes a.executable_uri)
              (script_path dir) w))

-- Another object than the one that the output goes to.
abbrev pub IsOther : TaskExecutor → Assignment → Text → Text → Type 0
IsOther e a bucket key = (bucket ≢ e.storage.bucket) ⊎ (key ≢ parse_key (codes a.output_uri))

store-other :
    (bucket key body b k : Text) (w : World)
    → (b ≢ bucket) ⊎ (k ≢ key)
    → (store bucket key body w).objects b k ≡ w.objects b k
store-other bucket key body b k w other = elim (Bool-cases (text_eq bucket b && text_eq key k)) [
  | inl e ↦ absurd (differ e other)
  | inr e ↦ rw e
]
  where
    differ : (text_eq bucket b && text_eq key k) ≡ true → (b ≢ bucket) ⊎ (k ≢ key) → ⊥
    differ e (inl n) = n (sym (eq_of_text_eq bucket b (ground arith)))
    differ e (inr n) = n (sym (eq_of_text_eq key k (ground arith)))

upload-other :
    (env : Storage.Env) (c : Client) (uri src b k : Text) (w : World)
    → (b ≢ c.bucket) ⊎ (k ≢ parse_key uri)
    → (upload env c uri src w).0.objects b k ≡ w.objects b k
unfolding upload send
upload-other env c uri src b k w other = elim (Option-cases (w.files src)) [
  | inl e ↦ ground arith
  | inr (body, e) ↦ ground (arith, store-other c.bucket (parse_key uri) body b k w other)
]

pub publish-other :
    (env : Env) (e : TaskExecutor) (uri output b k : Text) (w : World)
    → (b ≢ e.storage.bucket) ⊎ (k ≢ parse_key uri)
    → (publish env e uri output w).0.objects b k ≡ w.objects b k
unfolding publish
publish-other env e [] output b k w other = refl
publish-other env e (c ∷ uri) output b k w other =
    ground (arith, upload-other env.output_calls e.storage (c ∷ uri) output b k w other)
