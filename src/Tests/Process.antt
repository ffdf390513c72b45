-- ===== src/Tests/Process.antt =====
-- The theorem on a node's process at a concrete environment.
use text.Mathlib.Text.{◌==◌ as str_eq}
use pi_bully.Prelude.{◌≡◌, ◌⊎◌, String, true, none, some, if◌then◌else◌}
use pi_bully.Text.{Text, codes}
use pi_bully.Config.{Config}
use pi_bully.Config as Configuration
use pi_bully.Node.{Outside, load_in, main, whole_life, Fails}
use pi_bully.Node.Life.{CanRun, IsAble, main_lem}

abbrev variables : String → Text
variables key =
    if str_eq key "NODE_ID"
    then codes "7"
    else (if str_eq key "MEMBERLIST_BIND_PORT" then codes "7946" else codes "node-7")

abbrev outside : Outside
outside = record {
  variables = variables;
  parse_duration = λ v. none;
  builds_logger = λ cfg. true;
  connects = λ dsn. true;
  encode = λ a. some a;
  is_ip = λ a. true;
  lookup_host = λ a. none;
  creates = λ cfg. true;
  finds_python = true;
  listens = λ addr. true;
  joins = λ seeds. true;
  contacted = 2;
  leaves = true;
  shuts_down = true;
}

main_lem_example :
    ((cfg : Config) × (load_in outside ≡ Configuration.ok cfg)
      × CanRun outside cfg
      × (main outside ≡ whole_life outside cfg))
    ⊎ ((¬ IsAble outside (load_in outside)) × Fails (main outside))
main_lem_example = main_lem outside
