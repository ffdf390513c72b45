-- ===== src/Election/Engine.antt =====
-- election/engine.go: the election of one node. A method takes the engine and returns it with the
-- goroutines that it starts. `startElection` is cut where it blocks: at `sendToHigher` and at
-- `waitForCoordinator`. The members are those that the cluster reports at the call.
pub mod Elect
pub mod Wait
pub mod Progress
pub mod Origin
pub mod Blocked
use pi_bully.Prelude.{
  ℕ, ◌+◌, ◌*◌, String, Bool, true, false, not, ◌&&◌, ◌||◌, Option, none, some, List, [], ◌∷◌, ◌++◌,
  map, ltb, ◌==◌, if◌then◌else◌, select, offer, length,
}
use pi_bully.Cluster.Members.{Member, Members, values}
use pi_bully.Election.State.{
  State, new_state, Phase, is_waiting, is_leader, update_term, begin_election,
  enter_waiting_coordinator, set_leader, clear_leader_if_matches, reset_election,
}

-- An `internalEvent`; its `typ` is the constructor.
pub data InternalEvent : Type 0 where
  coordinator : (term leader_id : ℕ) → InternalEvent
  retry : (term node_id : ℕ) → InternalEvent

abbrev pub event_term : InternalEvent → ℕ
event_term (coordinator term leader_id) = term
event_term (retry term node_id) = term

-- The channels hold the values that wait in them, oldest first.
pub record Engine : Type 0 where
  pub self_id : ℕ
  pub self_addr : String
  pub state : State
  pub elect_c : List ℕ
  pub internal_c : List InternalEvent

-- The goroutines: the loop `run`, an election, an announcement of the term that is current at each
-- attempt, and an announcement of a fixed term to a member.
pub data Routine : Type 0 where
  run_loop : Routine
  elect : Routine
  announce_current : String → Routine
  announce : (term : ℕ) → Member → Routine

-- Where the goroutine of an election stands: it has returned, or waits for the answers of the higher
-- nodes, or for the announcement of a leader.
pub data Stage : Type 0 where
  finished : Stage
  sending : (term : ℕ) → (higher : List Member) → Stage
  waiting : (term : ℕ) → Stage

abbrev pub elect_cap : ℕ
elect_cap = 1

abbrev pub internal_cap : ℕ
internal_cap = 8

unfoldable pub new_engine : ℕ → String → Engine
unfolding new_state
new_engine self_id self_addr = record {
  self_id = self_id;
  self_addr = self_addr;
  state = new_state;
  elect_c = [];
  internal_c = [];
}

unfoldable pub start : List Routine
start = run_loop ∷ elect ∷ []

-- The term is the answer to the sender.
unfoldable pub on_start_election : Engine → ℕ → ℕ → String → Engine × List Routine × ℕ
unfolding update_term is_leader offer
on_start_election e from_id term from_addr =
    let s = update_term e.state term in
    if is_leader s e.self_id
    then (record e { state = s }, announce_current from_addr ∷ [], s.term)
    else (record e { state = s; elect_c = offer elect_cap e.elect_c from_id }, [], s.term)

-- The send blocks while the channel is full: `some` is the event with which the caller waits.
unfoldable pub signal_coordinator : Engine → ℕ → ℕ → Engine × Option InternalEvent
signal_coordinator e term leader_id =
    let ev = coordinator term leader_id in
    if ltb (length e.internal_c) internal_cap
    then (record e { internal_c = e.internal_c ++ ev ∷ [] }, none)
    else (e, some ev)

unfoldable pub signal_retry : Engine → ℕ → ℕ → Engine
unfolding offer
signal_retry e term node_id = record e {
  internal_c = offer internal_cap e.internal_c (retry term node_id);
}

unfoldable pub on_announce_leader : Engine → ℕ → ℕ → Engine × Option InternalEvent
unfolding set_leader signal_coordinator
on_announce_leader e leader_id term =
    let (s, ok) = set_leader e.state leader_id term in
    if not ok
    then (record e { state = s }, none)
    else signal_coordinator (record e { state = s }) term leader_id

unfoldable pub handle_node_joined : Engine → ℕ → List Routine
handle_node_joined e joined_id =
    let leader_id = e.state.leader_id in
    if joined_id == e.self_id
    then []
    else (if leader_id == 0
        then elect ∷ []
        else (if ltb leader_id joined_id then elect ∷ [] else []))

unfoldable pub handle_node_lost : Engine → ℕ → Engine × List Routine
unfolding clear_leader_if_matches signal_retry
handle_node_lost e lost_id =
    let leader_id = e.state.leader_id in
    if leader_id == lost_id
    then (record e { state = (clear_leader_if_matches e.state lost_id).0 }, elect ∷ [])
    else (if is_waiting e.state.phase && ltb e.self_id lost_id
        then (signal_retry e e.state.term lost_id, [])
        else (e, []))

unfoldable pub handle_elect_request : Engine → ℕ → List Routine
handle_elect_request e from_id = elect ∷ []

unfoldable pub declare_leader : Engine → Members → ℕ → Engine × List Routine
unfolding set_leader
declare_leader e members term =
    let (s, ok) = set_leader e.state e.self_id term in
    if not ok
    then (record e { state = s }, [])
    else (record e { state = s }, map (announce term) (values members))

abbrev pub higher_than : ℕ → Members → List Member
higher_than self_id members = select (λ m. ltb self_id m.id) (values members)

-- The two parts of a choice by the number of higher nodes.
choose : Engine → Members → ℕ → List Member → Engine × List Routine × Stage
unfolding declare_leader
choose e members term [] =
    let (e', routines) = declare_leader e members term in (e', routines, finished)
choose e members term (m ∷ higher) = (e, [], sending term (m ∷ higher))

unfoldable pub start_election : Engine → Members → Engine × List Routine × Stage
unfolding begin_election choose
start_election e members =
    let (s, term, ok) = begin_election e.state in
    if not ok
    then (record e { state = s }, [], finished)
    else choose (record e { state = s }) members term (higher_than e.self_id members)

-- The rest of `startElection`, after `sendToHigher` has returned `answered`.
unfoldable pub after_send : Engine → Members → ℕ → Bool → Engine × List Routine × Stage
unfolding enter_waiting_coordinator declare_leader
after_send e members term answered =
    if answered
    then (let (s, entered) = enter_waiting_coordinator e.state term in
        if not entered
        then (record e { state = s }, [], finished)
        else (record e { state = s }, [], waiting term))
    else (let (e', routines) = declare_leader e members term in (e', routines, finished))

restart_election : Engine → ℕ → Engine × List Routine × Stage
unfolding reset_election
restart_election e term =
    (record e { state = (reset_election e.state term).0 }, elect ∷ [], finished)

-- The `switch` of `waitForCoordinator`, for an event that is not stale.
on_internal : Engine → ℕ → InternalEvent → Engine × List Routine × Stage
unfolding restart_election
on_internal e term (coordinator event_term leader_id) =
    if e.state.leader_id == 0 || ltb e.state.term event_term
    then restart_election e term
    else (e, [], finished)
on_internal e term (retry event_term node_id) = restart_election e term

-- `waitForCoordinator`, over the events that wait in its channel: it takes them until one ends the
-- wait, or it waits on.
wait_from : Engine → ℕ → List InternalEvent → Engine × List Routine × Stage
unfolding on_internal
wait_from e term [] = (record e { internal_c = [] }, [], waiting term)
wait_from e term (ev ∷ rest) =
    let next = wait_from e term rest in
    if ltb (event_term ev) term then next else on_internal (record e { internal_c = rest }) term ev

unfoldable pub wait_for_coordinator : Engine → ℕ → Engine × List Routine × Stage
unfolding wait_from
wait_for_coordinator e term = wait_from e term e.internal_c

unfoldable pub wait_timeout : Engine → ℕ → Engine × List Routine × Stage
unfolding restart_election
wait_timeout e term = restart_election e term

unfoldable pub wait_cancelled : Engine → ℕ → Engine × List Routine × Stage
unfolding reset_election
wait_cancelled e term = (record e { state = (reset_election e.state term).0 }, [], finished)
