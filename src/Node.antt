-- ===== src/Node.antt =====
-- cmd/node/main.go: the life of a node's process, as what it does to the outside, in order. What the
-- libraries and the operating system answer comes from an environment.
pub mod Life
use pi_bully.Prelude.{
  ℕ, ◌≡◌, ◌≢◌, refl, ap, ◌⊎◌, inl, inr, Bool, true, false, Option, none, some, List, [], ◌∷◌, ◌++◌,
  ℤ, All, arith,
}
use pi_bully.Text.{Text, codes}
use pi_bully.Config.{
  Config, load, LogConfig, NodeConfig, MemberlistConfig, ElectionConfig, SchedulerConfig,
}
use pi_bully.Config as Configuration
use pi_bully.Cluster.Node as Membership
use pi_bully.Cluster.Node.{Bytes, LibraryConfig, Cluster, new_cluster, join, leave}
use pi_bully.Storage.{Client, new_client}

-- What the process does; `exited` is `os.Exit`, also that of `logger.Fatal`, which runs no deferred call.
pub data Action : Type 0 where
  exited : (code : ℕ) → Action
  opened_pool : (dsn : Text) → Action
  served_health : (port : Text) → Action
  listened : (addr : Text) → Action
  served_grpc : Action
  joined : (contacted : ℕ) → Action
  started_election : NodeConfig → ElectionConfig → Action
  started_scheduler : (self_id : ℕ) → SchedulerConfig → Action
  stopped_grpc : Action
  left_cluster : Option Membership.Error → Action
  closed_pool : Action

pub record Outside : Type 0 where
  pub variables : Configuration.Env
  pub parse_duration : Text → Option ℤ
  pub builds_logger : LogConfig → Bool
  pub connects : Text → Bool
  pub encode : Text → Option Bytes
  pub is_ip : Text → Bool
  pub lookup_host : Text → Option (List Text)
  pub creates : LibraryConfig → Bool
  pub finds_python : Bool
  pub listens : Text → Bool
  pub joins : List Text → Bool
  pub contacted : ℕ
  pub leaves : Bool
  pub shuts_down : Bool

-- A step whose failure ends the process.
abbrev pub need : Bool → List Action → List Action
need true k = k
need false k = exited 1 ∷ []

abbrev pub load_in : Outside → Configuration.Result Config
load_in o = load o.parse_duration o.variables

abbrev pub create_in : Outside → Config → Membership.Result Cluster
create_in o cfg = new_cluster o.encode o.is_ip o.lookup_host o.creates cfg.memberlist cfg.node

abbrev pub join_in : Outside → Config → Membership.Result ℕ
join_in o cfg = join (o.joins cfg.memberlist.seeds) (Membership.ok o.contacted)

-- From the signal on, and the deferred calls.
unfoldable pub shut_down : Outside → List Action
unfolding leave
shut_down o = stopped_grpc ∷ left_cluster (leave o.leaves o.shuts_down) ∷ closed_pool ∷ []

-- From `Join` on.
unfoldable pub join_and_run : Outside → Config → List Action
unfolding join shut_down
join_and_run o cfg = elim (join_in o cfg) [
  | Membership.err e ↦ exited 1 ∷ []
  | Membership.ok n ↦
      joined n
      ∷ started_election cfg.node cfg.election
      ∷ started_scheduler cfg.node.id cfg.scheduler
      ∷ shut_down o
]

-- From `health.Start` on.
unfoldable pub serve_and_join : Outside → Config → List Action
unfolding join_and_run
serve_and_join o cfg =
    let addr = codes ":" ++ cfg.server.port in
    served_health cfg.health.port
    ∷ need (o.listens addr) (listened addr ∷ served_grpc ∷ join_and_run o cfg)

-- From `cluster.New` on.
unfoldable pub create_and_serve : Outside → Config → List Action
unfolding new_cluster serve_and_join
create_and_serve o cfg = elim (create_in o cfg) [
  | Membership.err e ↦ exited 1 ∷ []
  | Membership.ok cl ↦ need o.finds_python (serve_and_join o cfg)
]

unfoldable pub main : Outside → List Action
unfolding load create_and_serve
main o = elim (load_in o) [
  | Configuration.err e ↦ exited 1 ∷ []
  | Configuration.ok cfg ↦
      need (o.builds_logger cfg.log)
        (need (o.connects cfg.database.dsn) (opened_pool cfg.database.dsn ∷ create_and_serve o cfg))
]

-- What a process does that comes up.
abbrev pub whole_life : Outside → Config → List Action
whole_life o cfg =
    opened_pool cfg.database.dsn
    ∷ served_health cfg.health.port
    ∷ listened (codes ":" ++ cfg.server.port)
    ∷ served_grpc
    ∷ joined o.contacted
    ∷ started_election cfg.node cfg.election
    ∷ started_scheduler cfg.node.id cfg.scheduler
    ∷ stopped_grpc
    ∷ left_cluster (leave o.leaves o.shuts_down)
    ∷ closed_pool
    ∷ []

-- It does not take part in the cluster's work.
abbrev pub IsQuiet : Action → Type 0
IsQuiet (joined n) = ⊥
IsQuiet (started_election node cfg) = ⊥
IsQuiet (started_scheduler id cfg) = ⊥
IsQuiet a = Unit {0}

abbrev pub EndsInExit : List Action → Type 0
EndsInExit [] = ⊥
EndsInExit (a ∷ []) = a ≡ exited 1
EndsInExit (a ∷ b ∷ rest) = EndsInExit (b ∷ rest)

abbrev pub Fails : List Action → Type 0
Fails actions = All IsQuiet actions × EndsInExit actions
