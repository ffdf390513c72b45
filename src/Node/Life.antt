-- ===== src/Node/Life.antt =====
-- cmd/node/main.go: a node's process comes up whole or takes no part in the cluster's work.
use pi_bully.Prelude.{
  ◌≡◌, refl, ap, ◌⊎◌, inl, inr, Bool, true, false, List, [], ◌∷◌, ◌++◌, Bool-cases, subst,
}
use pi_bully.Text.{codes}
use pi_bully.Config.{Config}
use pi_bully.Config as Configuration
use pi_bully.Cluster.Node as Membership
use pi_bully.Cluster.Node.{Cluster, join, leave}
use pi_bully.Node.{
  Action, exited, opened_pool, served_health, listened, served_grpc, joined, started_election,
  started_scheduler, Outside, need, load_in, create_in, shut_down, join_and_run, serve_and_join,
  create_and_serve, main, whole_life, IsQuiet, Fails,
}

-- With what it needs the process does the whole, and without it fails.
abbrev Outcome : Type 0 → List Action → List Action → Type 0
Outcome Good whole actions = (Good × (actions ≡ whole)) ⊎ ((¬ Good) × Fails actions)

need-Outcome :
    (Good : Type 0) (b : Bool) (whole k : List Action)
    → Outcome Good whole k
    → Outcome ((b ≡ true) × Good) whole (need b k)
need-Outcome Good true whole k (inl (g, e)) = inl ((refl, g), e)
need-Outcome Good true whole k (inr (n, f)) = inr (λ p. n p.1, f)
need-Outcome Good false whole k h = inr (λ p. cc (p.0), ((tt, tt), refl))

cons-Outcome :
    (Good : Type 0) (a : Action) (whole k : List Action)
    → IsQuiet a
    → Outcome Good whole k
    → Outcome Good (a ∷ whole) (a ∷ k)
cons-Outcome Good a whole k q (inl (g, e)) = inl (g, ap (λ l. a ∷ l) e)
cons-Outcome Good a whole [] q (inr (n, (quiet, e))) = absurd e
cons-Outcome Good a whole (b ∷ k) q (inr (n, (quiet, e))) = inr (n, ((q, quiet), e))

module _ (o : Outside) (cfg : Config) where
  abbrev CanJoin : Type 0
  CanJoin = o.joins cfg.memberlist.seeds ≡ true

  abbrev CanListen : Type 0
  CanListen = (o.listens (codes ":" ++ cfg.server.port) ≡ true) × CanJoin

  abbrev CanServe : Type 0
  CanServe = (o.finds_python ≡ true) × CanListen

  abbrev CanCreate : Type 0
  CanCreate = ((cl : Cluster) × (create_in o cfg ≡ Membership.ok cl)) × CanServe

  -- Its logger is built, its pool connects, its cluster is created, python is found, its port can be
  -- listened on, and the join succeeds.
  abbrev pub CanRun : Type 0
  CanRun = (o.builds_logger cfg.log ≡ true) × ((o.connects cfg.database.dsn ≡ true) × CanCreate)

  abbrev joined_life : List Action
  joined_life =
      joined o.contacted
      ∷ started_election cfg.node cfg.election
      ∷ started_scheduler cfg.node.id cfg.scheduler
      ∷ shut_down o

  abbrev served_life : List Action
  served_life =
      served_health cfg.health.port
      ∷ listened (codes ":" ++ cfg.server.port)
      ∷ served_grpc
      ∷ joined_life

  join_and_run-Outcome : Outcome CanJoin joined_life (join_and_run o cfg)
  unfolding join_and_run join
  join_and_run-Outcome = elim (Bool-cases (o.joins cfg.memberlist.seeds)) [
    | inl p ↦ inl (p, rw (p, join_and_run) refl)
    | inr p ↦ inr (λ q. cc, rw (p, join_and_run) ((tt, tt), refl))
  ]

  serve_and_join-Outcome : Outcome CanListen served_life (serve_and_join o cfg)
  unfolding serve_and_join
  serve_and_join-Outcome =
      let addr = codes ":" ++ cfg.server.port in
      cons-Outcome CanListen (served_health cfg.health.port) _ _ tt (
        need-Outcome CanJoin (o.listens addr) _ _ (
          cons-Outcome CanJoin (listened addr) _ _ tt (
            cons-Outcome CanJoin served_grpc joined_life (join_and_run o cfg) tt
              join_and_run-Outcome)))

  create_and_serve-Outcome : Outcome CanCreate served_life (create_and_serve o cfg)
  unfolding create_and_serve
  create_and_serve-Outcome = go (create_in o cfg)
    where
      go :
          (r : Membership.Result Cluster)
          → Outcome (((cl : Cluster) × (r ≡ Membership.ok cl)) × CanServe) served_life (elim r [
            | Membership.err e ↦ exited 1 ∷ []
            | Membership.ok cl ↦ need o.finds_python (serve_and_join o cfg)
          ])
      go (Membership.err e) = inr (λ p. cc (p.0.1), ((tt, tt), refl))
      go (Membership.ok cl) =
          elim (need-Outcome CanListen o.finds_python served_life (serve_and_join o cfg)
            serve_and_join-Outcome) [
              | inl (g, e) ↦ inl (((cl, refl), g), e)
              | inr (n, f) ↦ inr (λ p. n p.1, f)
            ]

  opened-Outcome : Outcome CanRun (whole_life o cfg) (
      need (o.builds_logger cfg.log) (
        need (o.connects cfg.database.dsn) (opened_pool cfg.database.dsn ∷ create_and_serve o cfg)))
  unfolding shut_down
  opened-Outcome =
      need-Outcome ((o.connects cfg.database.dsn ≡ true) × CanCreate) (o.builds_logger cfg.log)
        (whole_life o cfg) _
        (need-Outcome CanCreate (o.connects cfg.database.dsn) (whole_life o cfg) _ (
          cons-Outcome CanCreate (opened_pool cfg.database.dsn) served_life (create_and_serve o cfg)
            tt create_and_serve-Outcome))

abbrev after_load : Outside → Configuration.Result Config → List Action
after_load o (Configuration.err e) = exited 1 ∷ []
after_load o (Configuration.ok cfg) =
    need (o.builds_logger cfg.log)
      (need (o.connects cfg.database.dsn) (opened_pool cfg.database.dsn ∷ create_and_serve o cfg))

-- The configuration loads, and the process can run with it.
abbrev pub IsAble : Outside → Configuration.Result Config → Type 0
IsAble o r = (cfg : Config) × (r ≡ Configuration.ok cfg) × CanRun o cfg

-- A node's process comes up whole exactly if it has all that it needs: its configuration loads, its
-- logger is built, its pool connects, its cluster is created, python is found, its port can be listened
-- on and the join succeeds. Then it opens the pool, serves its health and its gRPC services before it
-- joins, starts the election and then the scheduler only after that, and at the signal stops the
-- services, leaves the cluster and closes the pool, in this order. If anything of it is missing, the
-- process exits with the code 1 and has neither joined nor started an election or a scheduler.
pub main_lem :
    (o : Outside)
    → ((cfg : Config) × (load_in o ≡ Configuration.ok cfg)
        × CanRun o cfg
        × (main o ≡ whole_life o cfg))
      ⊎ ((¬ IsAble o (load_in o)) × Fails (main o))
unfolding main
main_lem o = go (load_in o)
  where
    go :
        (r : Configuration.Result Config)
        → ((cfg : Config) × (r ≡ Configuration.ok cfg)
            × CanRun o cfg
            × (after_load o r ≡ whole_life o cfg))
          ⊎ ((¬ IsAble o r) × Fails (after_load o r))
    go (Configuration.err e) = inr (λ p. cc (p.1), ((tt, tt), refl))
    go (Configuration.ok cfg) = elim (opened-Outcome o cfg) [
      | inl (can, e) ↦ inl (cfg, refl, can, e)
      | inr (n, fails) ↦ inr (λ p. n (subst (CanRun o) (same p.0 p.1) p.2), fails)
    ]
      where
        same : (c : Config) → Configuration.ok cfg ≡ Configuration.ok c → c ≡ cfg
        same c e = cc
