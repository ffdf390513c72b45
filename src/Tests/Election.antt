-- ===== src/Tests/Election.antt =====
-- The theorems on the election at concrete inputs: node 2 of a cluster of three.
use mathlib.Core.List.Perm
use pi_bully.Prelude.{ℕ, ◌≤◌, ◌≡◌, refl, ◌⊎◌, inl, length, List, [], ◌∷◌, arith, map, All, Any}
use pi_bully.Cluster.Members.{Member, Members, values}
use pi_bully.Election.State.{
  State, new_state, idle, electing, waiting_coordinator, leading, begin_election, set_leader,
  update_term, enter_waiting_coordinator,
}
use pi_bully.Election.State.Invariant.{
  Op, begin, enter, announce, update, apply, run, IsConsistent, new_state-IsConsistent,
  run-IsConsistent, run-term,
}
use pi_bully.Election.State.Announce.{
  Announcement, deliver, announcements_agree, Covers, Holds, deliver_latest,
}
use pi_bully.Election.Engine
use pi_bully.Election.Engine.{
  Engine, new_engine, start, elect, finished, sending, waiting, coordinator, start_election,
  after_send, higher_than, wait_for_coordinator, on_announce_leader, handle_node_lost, wait_timeout,
}
use pi_bully.Election.Engine.Elect.{with_state}
use pi_bully.Election.Engine.Wait.{
  announcement_ends_wait, loss_restarts_wait, failover, late_timeout_unseats,
}
use pi_bully.Election.Engine.Blocked.{hear_all, accepted_of, full_channel_blocks}
use pi_bully.Election.Node.{Node, Reach, new_node, launch, answered, here, later}
use pi_bully.Election.Node
use pi_bully.Election.Node.Live.{IsLive, Reach-IsLive}

abbrev member : ℕ → ℕ × Member
member id = (id, record { id = id; grpc_addr = "node:1" })

abbrev three : Members
three = member 3 ∷ member 1 ∷ member 2 ∷ []

abbrev two : Members
two = member 1 ∷ member 2 ∷ []

abbrev following : State
following = record { leader_id = 3; term = 4; phase = leading }

abbrev node_two : State → Engine
node_two s = record { self_id = 2; self_addr = "node:2"; state = s; elect_c = []; internal_c = [] }

abbrev stale_event : List Engine.InternalEvent
stale_event = coordinator 1 3 ∷ []

abbrev waiting_two : Engine
waiting_two = record (node_two (record { leader_id = 0; term = 5; phase = waiting_coordinator })) {
  internal_c = stale_event;
}

abbrev electing_two : Engine
electing_two = node_two (record { leader_id = 0; term = 5; phase = electing })

abbrev calls : List Op
calls = begin ∷ enter 1 ∷ announce 3 1 ∷ update 4 ∷ []

run-IsConsistent_example : IsConsistent (run new_state calls)
run-IsConsistent_example = run-IsConsistent new_state calls new_state-IsConsistent (omega arith)

run-term_example : 4 ≤ (run following calls).term
unfolding apply begin_election set_leader update_term enter_waiting_coordinator
run-term_example = run-term following calls (omega arith)

abbrev from : ℕ → ℕ → Announcement
from leader_id term = record { leader_id = leader_id; term = term }

abbrev news : List Announcement
news = from 2 5 ∷ from 3 5 ∷ []

announcements_agree_example : deliver following news ≡ deliver new_state (from 3 5 ∷ from 2 5 ∷ [])
unfolding new_state
announcements_agree_example =
    announcements_agree following new_state {xs = news} (inl (omega arith)) (Perm.swap _ _ _)

deliver_latest_example :
    All (Covers (deliver following news)) news
    × ((deliver following news ≡ following) ⊎ Any (Holds (deliver following news)) news)
deliver_latest_example = deliver_latest following news

announcement_ends_wait_example :
    wait_for_coordinator (on_announce_leader waiting_two 3 6).0 5
    ≡ (record (with_state waiting_two 3 6 leading) { internal_c = [] }, [], finished)
announcement_ends_wait_example =
    announcement_ends_wait waiting_two 5 3 6 refl (omega arith) (omega arith) (omega arith)
      (omega arith)

loss_restarts_wait_example :
    wait_for_coordinator (handle_node_lost waiting_two 3).0 5
    ≡ (record (with_state waiting_two 0 5 idle) { internal_c = [] }, elect ∷ [], finished)
loss_restarts_wait_example =
    loss_restarts_wait waiting_two 5 3 refl (omega arith) (omega arith) (omega arith)

failover_example :
    ((handle_node_lost (node_two following) 3).1 ≡ elect ∷ [])
    × (start_election (handle_node_lost (node_two following) 3).0 two ≡ (
      with_state (node_two following) 2 5 leading,
      map (Engine.announce 5) (values two),
      finished,
    ))
failover_example = failover (node_two following) two 3 refl refl (omega arith)

late_timeout_unseats_example :
    ((wait_timeout (node_two following) 2).1 ≡ elect ∷ [])
    × (start_election (wait_timeout (node_two following) 2).0 three
        ≡ (with_state (node_two following) 0 5 electing, [], sending 5 (higher_than 2 three)))
late_timeout_unseats_example = late_timeout_unseats (node_two following) three 2 (inl (omega arith))

-- Six events wait, and of four announcements three are accepted.
abbrev crowded : Engine
crowded = record (node_two following) {
  internal_c =
      coordinator 1 3
      ∷ coordinator 1 3
      ∷ coordinator 2 3
      ∷ coordinator 2 3
      ∷ coordinator 3 3
      ∷ coordinator 3 3
      ∷ [];
}

abbrev crowd : List Announcement
crowd = from 3 5 ∷ from 2 5 ∷ from 3 6 ∷ from 3 7 ∷ []

full_channel_blocks_example :
    ((hear_all crowded crowd).0.state ≡ deliver following crowd)
    × (length (hear_all crowded crowd).0.internal_c ≡ 8)
    × ((hear_all crowded crowd).1 ≡ 1)
unfolding accepted_of
full_channel_blocks_example = full_channel_blocks crowded crowd (omega arith)

first_node : Node
first_node = new_node 2 "node:2"

launched : Reach 2 "node:2" (launch first_node 1 (start_election (first_node).engine three))
unfolding first_node new_node start
launched = later here (Node.begin 1 three refl)

Reach-IsLive_example : IsLive (launch first_node 1 (start_election (first_node).engine three))
Reach-IsLive_example = Reach-IsLive launched
