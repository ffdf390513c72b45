-- ===== src/Election/Network.antt =====
-- election/: a network of nodes. What a node hears of a leader is what some node has said; a message may be
-- lost, delayed, repeated and overtaken.
pub mod Followed
use pi_bully.Prelude.{ℕ, ◌≡◌, String, some, List, [], ◌∷◌, get_elem?, Any, ◌==◌, if◌then◌else◌}
use pi_bully.Cluster.Members.{Member}
use pi_bully.Election.State.Announce.{Announcement}
use pi_bully.Election.Engine.{announce, announce_current}
use pi_bully.Election.Node.{Node, Step, new_node, announce_leader_rpc}

-- The nodes by their places, and all that they have said, latest first.
pub record Network : Type 0 where
  pub nodes : ℕ → Node
  pub spoken : List Announcement

abbrev pub update : (ℕ → Node) → ℕ → Node → ℕ → Node
update nodes i m j = if j == i then m else nodes j

-- The announcement has been made.
abbrev pub IsSaid : List Announcement → ℕ → ℕ → Type 0
IsSaid spoken leader_id term = Any (λ a. (a.leader_id ≡ leader_id) × (a.term ≡ term)) spoken

-- A node hears of a leader only what has been said.
abbrev pub IsHeard : {n m : Node} → List Announcement → Step n m → Type 0
IsHeard spoken (announce_leader_rpc leader_id term) = IsSaid spoken leader_id term
IsHeard spoken _ = Unit {0}

-- An attempt of one of the node's goroutines to announce itself.
pub data Says (n : Node) : Announcement → Type 0 where
  fixed :
      (k term : ℕ) (m : Member)
      → get_elem? n.routines k ≡ some (announce term m)
      → Says n (record { leader_id = n.engine.self_id; term = term })
  current :
      (k : ℕ) (addr : String)
      → get_elem? n.routines k ≡ some (announce_current addr)
      → Says n (record { leader_id = n.engine.self_id; term = n.engine.state.term })

pub data Move (net : Network) : Network → Type 0 where
  runs :
      (i : ℕ) {m : Node} (st : Step (net.nodes i) m)
      → IsHeard net.spoken st
      → Move net (record net { nodes = update net.nodes i m })
  says :
      (i : ℕ) (a : Announcement)
      → Says (net.nodes i) a
      → Move net (record net { spoken = a ∷ net.spoken })

pub data Grows (ids : ℕ → ℕ) (addrs : ℕ → String) : Network → Type 0 where
  founded : Grows ids addrs (record { nodes = λ i. new_node (ids i) (addrs i); spoken = [] })
  moved : {a b : Network} → Grows ids addrs a → Move a b → Grows ids addrs b
