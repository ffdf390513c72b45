-- ===== src/Tests/Nodes.antt =====
-- The theorems on the configuration, on a new node and on its health at concrete inputs.
use text.Mathlib.Text.{◌==◌ as str_eq}
use pi_bully.Prelude.{
  ℕ, ◌≡◌, ◌≢◌, ◌↔◌, ◌⊎◌, refl, String, true, Option, none, some, List, [], ◌∷◌, ℤ, pos, arith,
  if◌then◌else◌, ltb, length,
}
use pi_bully.Text.{Text, codes, trim_left, trim_space}
use pi_bully.Text.Split.{join}
use pi_bully.Config.{
  Env, Config, MemberlistConfig, NodeConfig, Error, load, load_node_config, require, ok, err,
  required,
}
use pi_bully.Config.Complete.{IsComplete, Blames, load_verdict}
use pi_bully.Config.Seeds.{Part, parse_seeds, parse_seeds-join}
use pi_bully.Cluster.Members.{lookup}
use pi_bully.Cluster.Event.{new_event_handler, notify, notify_join}
use pi_bully.Cluster.Node.{LibraryConfig, Cluster, new_cluster, node_meta, new_cluster-join}
use pi_bully.Cluster.Node
use pi_bully.Election.State.{new_state}
use pi_bully.Election.State.Invariant.{Op, begin, announce, run}
use pi_bully.Health.{serve, leader_elected, serve_honest}

-- Two seeds, with spaces around the second one and an empty part between them.
abbrev parts : List Part
parts =
    record { left = []; seed = []; right = codes " " }
    ∷ record { left = codes " "; seed = codes "node-2:7946"; right = codes "  " }
    ∷ []

abbrev first_part : Part
first_part = record { left = []; seed = codes "node-1:7946"; right = [] }

parse_seeds-join_example :
    parse_seeds (codes "node-1:7946, , node-2:7946  ")
    ≡ codes "node-1:7946" ∷ codes "node-2:7946" ∷ []
unfolding join trim_left trim_space
parse_seeds-join_example = parse_seeds-join first_part parts (
  (tt, tt, refl, omega arith),
  ((tt, (refl, tt), refl, omega arith), (((refl, tt), (refl, (refl, tt)), refl, omega arith), tt)),
)

-- Only the node's identifier is set.
abbrev env : Env
env key = if str_eq key "NODE_ID" then codes "7" else []

abbrev no_duration : Text → Option ℤ
no_duration v = none

load_verdict_example :
    (IsComplete env × ((c : Config) × (load no_duration env ≡ ok c)))
    ⊎ ((¬ IsComplete env) × ((e : Error) × (load no_duration env ≡ err e) × Blames env e))
load_verdict_example = load_verdict no_duration env

address_missing : load no_duration env ≡ err (required "NODE_ADDRESS")
unfolding load load_node_config require
address_missing = refl

abbrev memberlist : MemberlistConfig
memberlist = record {
  bind_addr = codes "0.0.0.0";
  bind_port = pos 7946;
  advertise_addr = codes "10.0.0.7";
  seeds = [];
  probe_interval = pos 1;
  probe_timeout = pos 1;
  gossip_interval = pos 1;
  push_pull_interval = pos 1;
  suspicion_mult = pos 4;
}

abbrev node : NodeConfig
node = record { id = 7; address = codes "node-7:50051" }

abbrev encode : Text → Option (List ℕ)
encode a = some a

abbrev decode : List ℕ → Option String
decode [] = none
decode (c ∷ meta) = some "node-7:50051"

abbrev ml : LibraryConfig
ml = record {
  name = codes "7";
  bind_addr = codes "0.0.0.0";
  bind_port = pos 7946;
  advertise_addr = codes "10.0.0.7";
  probe_interval = pos 1;
  probe_timeout = pos 1;
  gossip_interval = pos 1;
  push_pull_interval = pos 1;
  suspicion_mult = pos 4;
  meta = codes "node-7:50051";
}

abbrev cluster : Cluster
cluster = record { ml = ml; handler = new_event_handler }

created : new_cluster encode (λ a. true) (λ a. none) (λ c. true) memberlist node ≡ Node.ok cluster
unfolding new_cluster
created = refl

reads : (meta : List ℕ) → encode node.address ≡ some meta → decode meta ≡ some "node-7:50051"
reads [] p = cc
reads (c ∷ meta) p = refl

new_cluster-join_example :
    lookup 7
      (notify decode new_event_handler (notify_join (codes "7") (node_meta ml.meta 512))).members
    ≡ (if ltb 512 (length ml.meta)
        then lookup 7 new_event_handler.members
        else some (record { id = 7; grpc_addr = "node-7:50051" }))
new_cluster-join_example =
    new_cluster-join encode decode (λ a. true) (λ a. none) (λ c. true) memberlist node cluster
      new_event_handler 512 "node-7:50051" created (omega arith) reads refl

-- The node wins an election.
abbrev ops : List Op
ops = begin ∷ announce 7 1 ∷ []

serve_honest_example :
    let s = run new_state ops in
    ((serve 7 s s s s []).status ≡ leader_elected ↔ ((serve 7 s s s s []).leader_id ≢ 0))
    × ((serve 7 s s s s []).is_leader ≡ true ↔ ((serve 7 s s s s []).leader_id ≡ 7))
serve_honest_example = serve_honest 7 ops [] (omega arith)
