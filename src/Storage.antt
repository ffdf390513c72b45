-- ===== src/Storage.antt =====
-- storage/client.go: the client of the object storage. The storage is a map from the keys of the
-- client's bucket to contents, the file system one from paths to contents and a set of directories.
-- What may fail is answered by an environment.
pub mod Key
pub mod Transfer
use pi_bully.Prelude.{
  ℕ, ◌≡◌, String, Bool, true, false, ◌&&◌, ◌||◌, Option, none, some, List, [], ◌∷◌, ◌++◌, ◌==◌,
  if◌then◌else◌,
}
use mathlib.Core.Option
use pi_bully.Text.{Text, codes, text_eq}
use pi_bully.Text.Split.{after_first}
use pi_bully.Config.{StorageConfig}

-- `strings.HasPrefix(s, prefix)`, with the text behind the prefix.
unfoldable pub strip_prefix : Text → Text → Option Text
strip_prefix [] s = some s
strip_prefix (c ∷ start) [] = none
strip_prefix (c ∷ start) (d ∷ s) = if c == d then strip_prefix start s else none

abbrev pub scheme : Text
scheme = codes "s3://"

unfoldable pub parse_key : Text → Text
unfolding strip_prefix after_first Option.bind
parse_key uri = Option.get_or (Option.bind (strip_prefix scheme uri) (after_first b'/')) uri

-- The client, and the options of the S3 client that it holds.
pub record Client : Type 0 where
  pub base_endpoint : Text
  pub region : Text
  pub access_key : Text
  pub secret_key : Text
  pub use_path_style : Bool
  pub bucket : Text

unfoldable pub new_client : StorageConfig → Client
new_client cfg = record {
  base_endpoint =
      (if cfg.use_ssl then codes "https" else codes "http") ++ (codes "://" ++ cfg.endpoint);
  region = cfg.region;
  access_key = cfg.access_key;
  secret_key = cfg.secret_key;
  use_path_style = true;
  bucket = cfg.bucket;
}

-- The file system, and the objects by bucket and key.
pub record World : Type 0 where
  pub files : Text → Option Text
  pub dirs : Text → Bool
  pub objects : Text → Text → Option Text

-- `GetObject` and the copying of the body; a copy that breaks off leaves what had arrived.
pub data Get : Type 0 where
  refused complete : Get
  broken : Text → Get

-- `PutObject`; a call may take effect and lose its answer.
pub data Put : Type 0 where
  rejected stored unanswered : Put

pub record Env : Type 0 where
  pub get : Text → Get
  pub create : Text → Bool
  pub open_file : Text → Bool
  pub put : Text → Put

pub data Error : Type 0 where
  get_object create_file write_file not_opened put_object : Error

abbrev pub write : Text → Text → World → World
write path body w = record w { files = λ p. if text_eq path p then some body else w.files p }

abbrev pub store : Text → Text → Text → World → World
store bucket key body w = record w {
  objects = λ b k. if text_eq bucket b && text_eq key k then some body else w.objects b k;
}

-- The body of an object that was found, into a file.
unfoldable pub receive : Env → Text → Text → Text → World → World × Option Error
receive env key dest body w = elim (env.get key) [
  | refused ↦ (w, some get_object)
  | complete ↦ if env.create dest then (write dest body w, none) else (w, some create_file)
  | broken part ↦
      if env.create dest then (write dest part w, some write_file) else (w, some create_file)
]

unfoldable pub download : Env → Client → Text → Text → World → World × Option Error
unfolding receive
download env c uri dest w = elim (w.objects c.bucket (parse_key uri)) [
  | none ↦ (w, some get_object)
  | some body ↦ receive env (parse_key uri) dest body w
]

unfoldable pub send : Env → Client → Text → Text → World → World × Option Error
send env c key body w = elim (env.put key) [
  | rejected ↦ (w, some put_object)
  | stored ↦ (store c.bucket key body w, none)
  | unanswered ↦ (store c.bucket key body w, some put_object)
]

-- A directory can be opened, and cannot be read.
unfoldable pub upload : Env → Client → Text → Text → World → World × Option Error
unfolding send
upload env c uri src w =
    if env.open_file src
    then elim (w.files src) [
      | none ↦ (w, if w.dirs src then some put_object else some not_opened)
      | some body ↦ send env c (parse_key uri) body w
    ]
    else (w, some not_opened)
