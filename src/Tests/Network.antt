-- ===== src/Tests/Network.antt =====
-- The theorems on a network of nodes and on the calls between them at concrete inputs: node 2 at place 0
-- wins an election and tells node 1 at place 1.
use pi_bully.Prelude.{ℕ, zero, suc, ◌≤◌, ◌≡◌, refl, ◌⊎◌, inl, String, true, false, [], ◌∷◌, arith}
use pi_bully.Cluster.Members.{Members}
use pi_bully.Election.State.{State, new_state, leading, begin_election, set_leader, is_leader}
use pi_bully.Election.Engine.{
  Engine, new_engine, start, start_election, declare_leader, on_announce_leader,
}
use pi_bully.Election.Node.{Node, new_node, launch, announced, begin, announce_leader_rpc}
use pi_bully.Election.Network.{Network, update, IsSaid, Grows, founded, moved, runs, says, fixed}
use pi_bully.Election.Network.Followed.{Grows-followed, stale_claim_unseats}
use pi_bully.Election.Server.{
  CoordinatorRequest, ElectionRequest, ElectionResponse, start_election_rpc,
}
use pi_bully.Worker.Server.{success, AssignTaskRequest}
use pi_bully.Client.{
  RenewLeaseRequest, ReportResultRequest, MarkRunningRequest, Result, ok, err, call_start_election,
  call_announce_leader, call_renew_lease, call_report_result, call_mark_running, call_assign_task,
}
use pi_bully.Client.Calls.{IsOneCall, calls_close, call_start_election-reaches}

abbrev ids : ℕ → ℕ
ids zero = 2
ids (suc i) = 1

abbrev addrs : ℕ → String
addrs i = "node:1"

abbrev members : Members
members = (1, record { id = 1; grpc_addr = "node:1" }) ∷ []

abbrev won : Node
won = launch (new_node 2 "node:1") 1 (start_election (new_node 2 "node:1").engine members)

abbrev told : Node
told = announced (new_node 1 "node:1") (on_announce_leader (new_node 1 "node:1").engine 2 1)

abbrev founding : Network
founding = record { nodes = λ i. new_node (ids i) (addrs i); spoken = [] }

abbrev elected : Network
elected = record founding { nodes = update founding.nodes 0 won }

abbrev spoke : Network
spoke = record elected { spoken = record { leader_id = 2; term = 1 } ∷ [] }

abbrev settled : Network
settled = record spoke { nodes = update spoke.nodes 1 told }

grown : Grows ids addrs settled
unfolding new_node new_engine start launch start_election begin_election declare_leader set_leader
    new_state
grown =
    moved
      (moved (moved founded (runs 0 (begin 1 members refl) tt)) (
        says 0 (record { leader_id = 2; term = 1 })
          (fixed 1 1 (record { id = 1; grpc_addr = "node:1" }) refl)))
      (runs 1 (announce_leader_rpc 2 1) (inl (refl, refl)))

Grows-followed_example :
    ((settled.nodes 1).engine.state.leader_id ≡ 0)
    ⊎ ((settled.nodes 1).engine.state.leader_id ≡ 1)
    ⊎ ((i : ℕ) × (ids i ≡ (settled.nodes 1).engine.state.leader_id)
        × IsSaid settled.spoken
            (settled.nodes 1).engine.state.leader_id
            (settled.nodes 1).engine.state.term)
Grows-followed_example = Grows-followed 1 grown

abbrev engine_of : ℕ → State → Engine
engine_of id s = record {
  self_id = id;
  self_addr = "node:1";
  state = s;
  elect_c = [];
  internal_c = [];
}

-- Node 3 has led in term 4, node 2 leads in term 5.
abbrev past_leader : Engine
past_leader = engine_of 3 (record { leader_id = 3; term = 4; phase = leading })

abbrev new_leader : Engine
new_leader = engine_of 2 (record { leader_id = 2; term = 5; phase = leading })

stale_claim_unseats_example :
    let e' = (on_announce_leader past_leader 2 5).0 in
    let m' = (on_announce_leader new_leader 3 e'.state.term).0 in
    (e'.state.leader_id ≡ 2)
    × (m'.state.leader_id ≡ 3)
    × (is_leader e'.state 3 ≡ false)
    × (is_leader m'.state 2 ≡ false)
unfolding is_leader
stale_claim_unseats_example =
    stale_claim_unseats past_leader new_leader (omega arith) (omega arith) (omega arith) refl

-- Every address is reached, and a connection is its number; the stubs of the worker refuse.
abbrev dial : String → Result String ℕ
dial addr = ok 7

abbrev refuses : {Req Resp : Type 0} → ℕ → Req → Result String Resp
refuses c req = err "unavailable"

abbrev asked : ElectionRequest
asked = record { from_id = 1; term = 5; grpc_addr = "node:1" }

abbrev answers : ℕ → ElectionRequest → Result String ElectionResponse
answers c req = ok (start_election_rpc past_leader req).2

abbrev coordinator : CoordinatorRequest
coordinator = record { leader_id = 1; term = 5 }

abbrev renewal : RenewLeaseRequest
renewal = record { task_id = "t"; worker_id = 1 }

abbrev report : ReportResultRequest
report = record { task_id = "t"; worker_id = 1; outcome = success; error_message = "" }

abbrev running : MarkRunningRequest
running = record { task_id = "t"; worker_id = 1 }

abbrev assigned : AssignTaskRequest
assigned = record {
  task_id = "t";
  executable_uri = "a";
  input_uri = "";
  output_uri = "";
  args = [];
}

calls_close_example :
    IsOneCall dial answers "node:3" asked (call_start_election dial answers "node:3" asked)
    × IsOneCall dial refuses "node:3" coordinator
        (call_announce_leader dial refuses "node:3" coordinator)
    × IsOneCall dial refuses "node:3" renewal (call_renew_lease dial refuses "node:3" renewal)
    × IsOneCall dial refuses "node:3" report (call_report_result dial refuses "node:3" report)
    × IsOneCall dial refuses "node:3" running (call_mark_running dial refuses "node:3" running)
    × IsOneCall dial refuses "node:3" assigned (call_assign_task dial refuses "node:3" assigned)
calls_close_example =
    calls_close dial answers refuses refuses refuses refuses refuses "node:3" asked coordinator
      renewal report running assigned

call_start_election-reaches_example :
    (resp : ElectionResponse) × ((call_start_election dial answers "node:3" asked).1 ≡ ok resp)
    × (resp.ok ≡ true)
    × (5 ≤ resp.term)
    × (4 ≤ resp.term)
call_start_election-reaches_example =
    call_start_election-reaches dial past_leader 7 "node:3" asked refl
