-- ===== src/Cluster/Node.antt =====
-- cluster/cluster.go, cluster/meta.go: how a node makes itself known. What encoding/json, the resolver
-- and the membership library answer are parameters.
use pi_bully.Prelude.{
  ℕ, ◌<◌, ◌≡◌, refl, ◌∙◌, ap, String, Bool, Option, none, some, List, [], ◌∷◌, length, ℤ, ltb,
  if◌then◌else◌, u64_mod, arith, Bool-cases, inl, inr,
}
use mathlib.Core.Option
use pi_bully.Text.{Text}
use pi_bully.Text.Decimal.{format_uint, parse_uint, parse_uint-format_uint}
use pi_bully.Config.{MemberlistConfig, NodeConfig}
use pi_bully.Cluster.Members.{lookup, lookup-insert}
use pi_bully.Cluster.Event.{EventHandler, new_event_handler, notify, notify_join}

abbrev pub Bytes : Type 0
Bytes = List ℕ

-- The library's configuration, with the metadata that its delegate holds.
pub record LibraryConfig : Type 0 where
  pub name : Text
  pub bind_addr : Text
  pub bind_port : ℤ
  pub advertise_addr : Text
  pub probe_interval : ℤ
  pub probe_timeout : ℤ
  pub gossip_interval : ℤ
  pub push_pull_interval : ℤ
  pub suspicion_mult : ℤ
  pub meta : Bytes

pub record Cluster : Type 0 where
  pub ml : LibraryConfig
  pub handler : EventHandler

pub data Error : Type 0 where
  encode_meta resolve no_addresses create join_failed leave_failed shutdown_failed : Error

pub data Result (A : Type 0) : Type 0 where
  ok : A → Result A
  err : Error → Result A

abbrev first_address : List Text → Result Text
first_address [] = err no_addresses
first_address (a ∷ addrs) = ok a

module _ (encode : Text → Option Bytes) (is_ip : Text → Bool)
    (lookup_host : Text → Option (List Text)) (creates : LibraryConfig → Bool) where
  -- The address itself if it is one, else the first that the resolver knows.
  unfoldable pub resolve_addr : Text → Result Text
  resolve_addr addr =
      if is_ip addr
      then ok addr
      else elim (lookup_host addr) [ none ↦ err resolve | some addrs ↦ first_address addrs ]

  unfoldable pub create_with : MemberlistConfig → NodeConfig → Bytes → Text → Result Cluster
  unfolding format_uint new_event_handler
  create_with cfg node meta advertise_addr =
      let ml : LibraryConfig = record {
        name = format_uint node.id;
        bind_addr = cfg.bind_addr;
        bind_port = cfg.bind_port;
        advertise_addr = advertise_addr;
        probe_interval = cfg.probe_interval;
        probe_timeout = cfg.probe_timeout;
        gossip_interval = cfg.gossip_interval;
        push_pull_interval = cfg.push_pull_interval;
        suspicion_mult = cfg.suspicion_mult;
        meta = meta;
      } in
      if creates ml then ok (record { ml = ml; handler = new_event_handler }) else err create

  unfoldable pub new_cluster : MemberlistConfig → NodeConfig → Result Cluster
  unfolding resolve_addr create_with
  new_cluster cfg node = elim (encode node.address) [
    | none ↦ err encode_meta
    | some meta ↦ elim (resolve_addr cfg.advertise_addr) [
      | err e ↦ err e
      | ok addr ↦ create_with cfg node meta addr
    ]
  ]

  new_cluster-named :
      (cfg : MemberlistConfig) (node : NodeConfig) (cl : Cluster)
      → new_cluster cfg node ≡ ok cl
      → (cl.ml.name ≡ format_uint node.id) × (encode node.address ≡ some cl.ml.meta)
  unfolding new_cluster
  new_cluster-named cfg node cl h =
      go (encode node.address) refl (resolve_addr cfg.advertise_addr) refl
    where
      go :
          (m : Option Bytes)
          → encode node.address ≡ m
          → (r : Result Text) → resolve_addr cfg.advertise_addr ≡ r
          → (cl.ml.name ≡ format_uint node.id) × (encode node.address ≡ some cl.ml.meta)
      go none e r p = absurd (ground arith)
      go (some meta) e (err x) p = absurd (ground arith)
      go (some meta) e (ok addr) p = ground arith

-- `metaDelegate.NodeMeta`
unfoldable pub node_meta : Bytes → ℕ → Bytes
node_meta meta limit = if ltb limit (length meta) then [] else meta

-- `cluster.Join` and `cluster.Leave`, by what the library answers.
unfoldable pub join : (joins : Bool) → Result ℕ → Result ℕ
join joins contacted = if joins then contacted else err join_failed

unfoldable pub leave : (leaves shuts_down : Bool) → Option Error
leave leaves shuts_down =
    if leaves then (if shuts_down then none else some shutdown_failed) else some leave_failed

-- `cluster.MemberAddr`
unfoldable pub member_addr : EventHandler → ℕ → Option String
unfolding lookup
member_addr h id = Option.map (λ m. m.grpc_addr) (lookup id h.members)

named :
    (decode : Bytes → Option String) (h : EventHandler) (name : Text) (meta : Bytes) (id : ℕ)
    (addr : String)
    → parse_uint name ≡ some id
    → decode meta ≡ some addr
    → lookup id (notify decode h (notify_join name meta)).members
      ≡ some (record { id = id; grpc_addr = addr })
unfolding notify
named decode h name meta id addr p q =
    rw (p, q, notify) (lookup-insert id id _ h.members ∙ ground arith)

unread :
    (decode : Bytes → Option String) (h : EventHandler) (name : Text) (meta : Bytes)
    → decode meta ≡ none
    → notify decode h (notify_join name meta) ≡ h
unfolding notify
unread decode h name meta q = ground arith

-- When a node has been created from its configuration, and another node is notified of its join, it is
-- a member there, under the identifier of the configuration and with its decoded address, unless its
-- metadata are longer than the library's limit: then, as nothing is read from empty metadata, the other
-- node knows of it what it knew before.
pub new_cluster-join :
    (encode : Text → Option Bytes) (decode : Bytes → Option String) (is_ip : Text → Bool)
    (lookup_host : Text → Option (List Text)) (creates : LibraryConfig → Bool)
    (cfg : MemberlistConfig) (node : NodeConfig) (cl : Cluster) (h : EventHandler) (limit : ℕ)
    (addr : String)
    → new_cluster encode is_ip lookup_host creates cfg node ≡ ok cl
    → node.id < u64_mod
    → ((meta : Bytes) → encode node.address ≡ some meta → decode meta ≡ some addr)
    → decode [] ≡ none
    → lookup node.id (notify decode h (notify_join cl.ml.name (node_meta cl.ml.meta limit))).members
      ≡ (if ltb limit (length cl.ml.meta)
          then lookup node.id h.members
          else some (record { id = node.id; grpc_addr = addr }))
unfolding node_meta
new_cluster-join encode decode is_ip lookup_host creates cfg node cl h limit addr made fits reads
      empty =
    let (name, meta) = new_cluster-named encode is_ip lookup_host creates cfg node cl made in
    let id : parse_uint cl.ml.name ≡ some node.id =
      ap parse_uint name ∙ parse_uint-format_uint node.id fits in
    elim (Bool-cases (ltb limit (length cl.ml.meta))) [
      | inl long ↦ rw long (
          ap (λ (g : EventHandler). lookup node.id g.members) (unread decode h cl.ml.name [] empty))
      | inr short ↦
          rw short (named decode h cl.ml.name cl.ml.meta node.id addr id (reads cl.ml.meta meta))
    ]
