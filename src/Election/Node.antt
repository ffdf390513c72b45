-- ===== src/Election/Node.antt =====
-- election/engine.go: the goroutines of one node, interleaved in any order. A step is a call from
-- the cluster or from another node, or one stretch of a goroutine between two places where it blocks.
pub mod Live
use pi_bully.Prelude.{
  ℕ, zero, suc, ◌<◌, ◌≡◌, String, Bool, Option, none, some, List, [], ◌∷◌, ◌++◌, length, get_elem?,
  set, remove_at,
}
use pi_bully.Cluster.Members.{Members, Member}
use pi_bully.Election.Engine.{
  Engine, InternalEvent, Routine, elect, Stage, finished, sending, waiting, internal_cap,
  new_engine, start, on_start_election, on_announce_leader, handle_node_joined, handle_node_lost,
  handle_elect_request, start_election, after_send, wait_for_coordinator, wait_timeout,
  wait_cancelled,
}

-- The engine, the goroutines that have been started and have not run yet, where the elections stand
-- that have run, and the events of the callers that wait for room in the channel.
pub record Node : Type 0 where
  pub engine : Engine
  pub routines : List Routine
  pub stages : List Stage
  pub held : List InternalEvent

abbrev pub hold : List InternalEvent → Option InternalEvent → List InternalEvent
hold held none = held
hold held (some ev) = held ++ ev ∷ []

-- A call or an event that runs to its end.
unfoldable pub spawn : Node → Engine × List Routine → Node
spawn n (e, routines) = record n { engine = e; routines = n.routines ++ routines }

-- The election at place `i` has run on to where it blocks next.
unfoldable pub advance : Node → ℕ → Engine × List Routine × Stage → Node
advance n i (e, routines, stage) = record n {
  engine = e;
  routines = n.routines ++ routines;
  stages = set n.stages i stage;
}

-- The goroutine at place `i` is an election that runs for the first time.
unfoldable pub launch : Node → ℕ → Engine × List Routine × Stage → Node
launch n i (e, routines, stage) = record n {
  engine = e;
  routines = remove_at n.routines i ++ routines;
  stages = n.stages ++ stage ∷ [];
}

-- The two steps of a node that only move a channel.
unfoldable pub request_taken : Node → ℕ → List ℕ → Node
request_taken n from_id rest = record n {
  engine = record (n.engine) { elect_c = rest };
  routines = n.routines ++ handle_elect_request (n.engine) from_id;
}

unfoldable pub released : Node → InternalEvent → List InternalEvent → Node
released n ev rest = record n {
  engine = record (n.engine) { internal_c = n.engine.internal_c ++ ev ∷ [] };
  held = rest;
}

unfoldable pub announced : Node → Engine × Option InternalEvent → Node
announced n (e, blocked) = record n { engine = e; held = hold n.held blocked }

unfoldable pub called : Node → Engine × List Routine × ℕ → Node
called n (e, routines, term) = record n { engine = e; routines = n.routines ++ routines }

pub data Step (n : Node) : Node → Type 0 where
  start_election_rpc :
      (from_id term : ℕ) (addr : String)
      → Step n (called n (on_start_election n.engine from_id term addr))
  announce_leader_rpc :
      (leader_id term : ℕ) → Step n (announced n (on_announce_leader n.engine leader_id term))
  release :
      (ev : InternalEvent) (rest : List InternalEvent)
      → n.held ≡ ev ∷ rest
      → length n.engine.internal_c < internal_cap
      → Step n (released n ev rest)
  joined : (id : ℕ) → Step n (spawn n (n.engine, handle_node_joined n.engine id))
  lost : (id : ℕ) → Step n (spawn n (handle_node_lost n.engine id))
  request :
      (from_id : ℕ) (rest : List ℕ)
      → n.engine.elect_c ≡ from_id ∷ rest
      → Step n (request_taken n from_id rest)
  begin :
      (i : ℕ) (ms : Members)
      → get_elem? n.routines i ≡ some elect
      → Step n (launch n i (start_election n.engine ms))
  answered :
      (i term : ℕ) (higher : List Member) (ms : Members) (ok : Bool)
      → get_elem? n.stages i ≡ some (sending term higher)
      → Step n (advance n i (after_send n.engine ms term ok))
  drain :
      (i term : ℕ)
      → get_elem? n.stages i ≡ some (waiting term)
      → Step n (advance n i (wait_for_coordinator n.engine term))
  timeout :
      (i term : ℕ)
      → get_elem? n.stages i ≡ some (waiting term)
      → Step n (advance n i (wait_timeout n.engine term))
  cancel :
      (i term : ℕ)
      → get_elem? n.stages i ≡ some (waiting term)
      → Step n (advance n i (wait_cancelled n.engine term))

unfoldable pub new_node : ℕ → String → Node
unfolding new_engine start
new_node self_id self_addr = record {
  engine = new_engine self_id self_addr;
  routines = start;
  stages = [];
  held = [];
}

pub data Reach (self_id : ℕ) (self_addr : String) : Node → Type 0 where
  here : Reach self_id self_addr (new_node self_id self_addr)
  later : {n m : Node} → Reach self_id self_addr n → Step n m → Reach self_id self_addr m
