-- ===== src/Health.antt =====
-- health/handler.go: what a node tells of itself. The handler reads the election's state four times, each
-- time under its mutex; the states may differ.
use pi_bully.Prelude.{ℕ, ◌≡◌, ◌≢◌, ◌↔◌, refl, String, Bool, true, List, [], ◌∷◌, arith, ap, All}
use pi_bully.Cluster.Members.{Members}
use pi_bully.Election.State.{
  State, new_state, Phase, idle, electing, waiting_coordinator, leading, is_leader,
}
use pi_bully.Election.State.Invariant.{
  IsConsistent, Op, IsProper, run, run-IsConsistent, new_state-IsConsistent,
}

pub data NodeStatus : Type 0 where
  no_leader election_in_progress waiting_for_coordinator leader_elected : NodeStatus

pub record Response : Type 0 where
  pub node_id : ℕ
  pub is_leader : Bool
  pub leader_id : ℕ
  pub term : ℕ
  pub status : NodeStatus
  pub members : List (ℕ × String)

abbrev pub status_of : Phase → NodeStatus
status_of electing = election_in_progress
status_of waiting_coordinator = waiting_for_coordinator
status_of leading = leader_elected
status_of idle = no_leader

abbrev pub addresses : Members → List (ℕ × String)
addresses [] = []
addresses ((id, m) ∷ ms) = (id, m.grpc_addr) ∷ addresses ms

-- `ServeHTTP`, with the state at the call of CurrentLeader, Phase, IsLeader and Term.
unfoldable pub serve : ℕ → (current phase leader term : State) → Members → Response
unfolding is_leader
serve self_id current phase leader term members = record {
  node_id = self_id;
  leader_id = current.leader_id;
  status = status_of phase.phase;
  members = addresses members;
  is_leader = is_leader leader self_id;
  term = term.term;
}

status_leading : (p : Phase) → status_of p ≡ leader_elected → p ≡ leading
status_leading idle h = cc
status_leading electing h = cc
status_leading waiting_coordinator h = cc
status_leading leading h = refl

serve_consistent :
    (self_id : ℕ) (s : State) (members : Members)
    → IsConsistent s
    → ((serve self_id s s s s members).status ≡ leader_elected
        ↔ ((serve self_id s s s s members).leader_id ≢ 0))
      × ((serve self_id s s s s members).is_leader ≡ true
          ↔ ((serve self_id s s s s members).leader_id ≡ self_id))
unfolding serve
serve_consistent self_id s members c = (
  (λ h. c.leading_known (status_leading s.phase h), λ h. ap status_of (c.known_leading h)),
  ground arith,
)

-- After any calls of the election state's methods on a new node, in which the terms are words and no
-- leader 0 is announced, and if the state stays the same while the handler reads it: the response says
-- that a leader is elected exactly if it names one, and says that this node leads exactly if it names
-- this node.
pub serve_honest :
    (self_id : ℕ) (ops : List Op) (members : Members)
    → All IsProper ops
    → let s = run new_state ops in
      ((serve self_id s s s s members).status ≡ leader_elected
        ↔ ((serve self_id s s s s members).leader_id ≢ 0))
      × ((serve self_id s s s s members).is_leader ≡ true
          ↔ ((serve self_id s s s s members).leader_id ≡ self_id))
serve_honest self_id ops members proper =
    serve_consistent self_id (run new_state ops) members
      (run-IsConsistent new_state ops new_state-IsConsistent proper)
