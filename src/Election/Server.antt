-- ===== src/Election/Server.antt =====
-- server/election.go: the calls of other nodes, as the engine answers them.
use pi_bully.Prelude.{ℕ, ◌≤◌, ◌≡◌, String, Bool, true, Option, List, arith}
use pi_bully.Election.State.{update_term, is_leader}
use pi_bully.Election.Engine.{Engine, Routine, InternalEvent, on_start_election, on_announce_leader}

pub record ElectionRequest : Type 0 where
  pub from_id : ℕ
  pub term : ℕ
  pub grpc_addr : String

pub record ElectionResponse : Type 0 where
  pub ok : Bool
  pub term : ℕ

pub record CoordinatorRequest : Type 0 where
  pub leader_id : ℕ
  pub term : ℕ

-- `StartElection`
unfoldable pub start_election_rpc :
    Engine → ElectionRequest → Engine × List Routine × ElectionResponse
unfolding on_start_election
start_election_rpc e req =
    let (e', routines, term) = on_start_election e req.from_id req.term req.grpc_addr in
    (e', routines, record { ok = true; term = term })

-- `AnnounceLeader`; with an event, the call is held until the event is taken.
unfoldable pub announce_leader_rpc : Engine → CoordinatorRequest → Engine × Option InternalEvent
unfolding on_announce_leader
announce_leader_rpc e req = on_announce_leader e req.leader_id req.term

-- A node answers a call for an election with yes, and with its own term after it, which is neither
-- below the term of the call nor below its term before.
pub start_election_rpc-term :
    (e : Engine) (req : ElectionRequest)
    → let (after, routines, answer) = start_election_rpc e req in
      (answer.ok ≡ true)
      × (answer.term ≡ after.state.term)
      × (req.term ≤ answer.term)
      × (e.state.term ≤ answer.term)
unfolding start_election_rpc on_start_election update_term is_leader
start_election_rpc-term e req = ground arith
