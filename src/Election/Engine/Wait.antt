-- ===== src/Election/Engine/Wait.antt =====
-- election/engine.go: how the wait for a coordinator ends.
use pi_bully.Prelude.{
  ℕ, ◌+◌, ◌%◌, ◌≤◌, ◌<◌, ◌≡◌, refl, ◌≢◌, ◌∙◌, Bool, true, false, not, ◌&&◌, ◌==◌, u64_mod,
  if◌then◌else◌, Bool-cases, inl, inr, subst, List, [], ◌∷◌, ◌++◌, map, arith, All, Any, length,
  none, offer,
}
use pi_bully.Cluster.Members.{Members, values}
use pi_bully.Election.State.{
  is_active, idle, electing, waiting_coordinator, leading, set_leader, reset_election,
  clear_leader_if_matches,
}
use pi_bully.Election.Engine.{
  Engine, InternalEvent, coordinator, retry, event_term, internal_cap, elect, announce, higher_than,
  finished, sending, start_election, on_announce_leader, signal_coordinator, signal_retry,
  handle_node_lost, wait_for_coordinator, wait_from, wait_timeout, on_internal, restart_election,
}
use pi_bully.Election.Engine.Elect.{
  with_state, next_term, start_election_highest, start_election_lower, start_election_active,
}

-- Every event is of an earlier term.
abbrev pub IsStale : ℕ → List InternalEvent → Type 0
IsStale term events = All (λ ev. event_term ev < term) events

-- Stale events are passed over.
wait_from-stale :
    (e : Engine) (term : ℕ) (events : List InternalEvent) (rest : List InternalEvent)
    → IsStale term events
    → wait_from e term (events ++ rest) ≡ wait_from e term rest
unfolding wait_from
wait_from-stale e term [] rest h = refl
wait_from-stale e term (ev ∷ events) rest h = ground (arith, wait_from-stale e term events rest h.1)

-- The event that the announcement leaves in the channel.
accepted_signal :
    (e : Engine) (term leader_id leader_term : ℕ)
    → e.state ≡ record { leader_id = 0; term = term; phase = waiting_coordinator }
    → length e.internal_c < internal_cap
    → term ≤ leader_term
    → on_announce_leader e leader_id leader_term ≡ (
      record (with_state e leader_id leader_term leading) {
        internal_c = e.internal_c ++ coordinator leader_term leader_id ∷ [];
      },
      none,
    )
unfolding on_announce_leader set_leader signal_coordinator
accepted_signal e term leader_id leader_term w room later = ground arith

last_signal :
    (e : Engine) (term leader_id leader_term : ℕ)
    → e.state ≡ record { leader_id = leader_id; term = leader_term; phase = leading }
    → leader_id ≢ 0
    → term ≤ leader_term
    → wait_from e term (coordinator leader_term leader_id ∷ [])
      ≡ (record e { internal_c = [] }, [], finished)
unfolding wait_from on_internal
last_signal e term leader_id leader_term w known later = ground arith

-- A node that waits in a term, with room in its channel and only events of earlier terms in it, and
-- hears of a leader (not 0) of that term or a later one ends its wait: it follows that leader, and starts
-- no election.
pub announcement_ends_wait :
    (e : Engine) (term leader_id leader_term : ℕ)
    → e.state ≡ record { leader_id = 0; term = term; phase = waiting_coordinator }
    → IsStale term e.internal_c
    → length e.internal_c < internal_cap
    → leader_id ≢ 0
    → term ≤ leader_term
    → wait_for_coordinator (on_announce_leader e leader_id leader_term).0 term
      ≡ (record (with_state e leader_id leader_term leading) { internal_c = [] }, [], finished)
unfolding wait_for_coordinator
announcement_ends_wait e term leader_id leader_term w stale room known later =
    let signal = coordinator leader_term leader_id ∷ [] in
    let heard : Engine = record (with_state e leader_id leader_term leading) {
      internal_c = e.internal_c ++ signal;
    } in
    rw (accepted_signal e term leader_id leader_term w room later) (
      wait_from-stale heard term e.internal_c signal stale
      ∙ last_signal heard term leader_id leader_term refl known later)

lost_signal :
    (e : Engine) (term lost_id : ℕ)
    → e.state ≡ record { leader_id = 0; term = term; phase = waiting_coordinator }
    → length e.internal_c < internal_cap
    → e.self_id < lost_id
    → handle_node_lost e lost_id
      ≡ (record e { internal_c = e.internal_c ++ retry term lost_id ∷ [] }, [])
unfolding handle_node_lost signal_retry offer
lost_signal e term lost_id w room higher = ground arith

last_retry :
    (e : Engine) (term lost_id : ℕ)
    → e.state ≡ record { leader_id = 0; term = term; phase = waiting_coordinator }
    → wait_from e term (retry term lost_id ∷ [])
      ≡ (record (with_state e 0 term idle) { internal_c = [] }, elect ∷ [], finished)
unfolding wait_from on_internal restart_election reset_election
last_retry e term lost_id w = ground arith

-- A node that waits in a term, with room in its channel and only events of earlier terms in it, and loses
-- a higher node gives the term up: it is idle, and a new election is started.
pub loss_restarts_wait :
    (e : Engine) (term lost_id : ℕ)
    → e.state ≡ record { leader_id = 0; term = term; phase = waiting_coordinator }
    → IsStale term e.internal_c
    → length e.internal_c < internal_cap
    → e.self_id < lost_id
    → wait_for_coordinator (handle_node_lost e lost_id).0 term
      ≡ (record (with_state e 0 term idle) { internal_c = [] }, elect ∷ [], finished)
unfolding wait_for_coordinator
loss_restarts_wait e term lost_id w stale room higher =
    let signal = retry term lost_id ∷ [] in
    let told : Engine = record e { internal_c = e.internal_c ++ signal } in
    rw (lost_signal e term lost_id w room higher)
      (wait_from-stale told term e.internal_c signal stale ∙ last_retry told term lost_id w)

lost_leader :
    (e : Engine) (lost_id : ℕ)
    → e.state.phase ≡ leading
    → e.state.leader_id ≡ lost_id
    → handle_node_lost e lost_id ≡ (with_state e 0 e.state.term idle, elect ∷ [])
unfolding handle_node_lost clear_leader_if_matches
lost_leader e lost_id phase leader = ground arith

-- When the leader is lost a new election is started; with no higher node left, it makes this node
-- the leader of the next term and announces that to every member.
pub failover :
    (e : Engine) (ms : Members) (lost_id : ℕ)
    → e.state.phase ≡ leading
    → e.state.leader_id ≡ lost_id
    → All (λ m. m.id ≤ e.self_id) (values ms)
    → ((handle_node_lost e lost_id).1 ≡ elect ∷ [])
      × (start_election (handle_node_lost e lost_id).0 ms ≡ (
        with_state e e.self_id (next_term e) leading,
        map (announce (next_term e)) (values ms),
        finished,
      ))
failover e ms lost_id phase leader highest =
    rw (lost_leader e lost_id phase leader)
      (refl, start_election_highest (with_state e 0 e.state.term idle) ms refl highest)

-- The node is in an election of another term than this.
abbrev pub is_elsewhere : Engine → ℕ → Bool
is_elsewhere e term = is_active e.state.phase && not (e.state.term == term)

wait_timeout-elect :
    (e : Engine) (term : ℕ)
    → wait_timeout e term
      ≡ (record e { state = (reset_election e.state term).0 }, elect ∷ [], finished)
unfolding wait_timeout restart_election
wait_timeout-elect e term = refl

reset-elsewhere :
    (e : Engine) (term : ℕ)
    → is_elsewhere e term ≡ true
    → record e { state = (reset_election e.state term).0 } ≡ e
unfolding reset_election
reset-elsewhere e term h = ground arith

reset-here :
    (e : Engine) (term : ℕ)
    → is_elsewhere e term ≡ false
    → (is_active (reset_election e.state term).0.phase ≡ false)
      × ((reset_election e.state term).0.term ≡ e.state.term)
unfolding reset_election
reset-here e term h = ground arith

-- A wait that times out starts an election whatever the state is, and that election, where a higher node
-- is alive, goes ahead unless the node is in an election of another term: the node forgets the leader
-- that it may know by now, and asks the higher nodes in the term after its current one.
pub late_timeout_unseats :
    (e : Engine) (ms : Members) (term : ℕ)
    → Any (λ m. e.self_id < m.id) (values ms)
    → ((wait_timeout e term).1 ≡ elect ∷ [])
      × (start_election (wait_timeout e term).0 ms ≡ (
          if is_elsewhere e term then (e, [], finished) else (
            with_state e 0 (next_term e) electing,
            [],
            sending (next_term e) (higher_than e.self_id ms),
          )))
late_timeout_unseats e ms term higher = rw (wait_timeout-elect e term) (
  refl,
  elim (Bool-cases (is_elsewhere e term)) [
    | inl p ↦
        let active : is_active e.state.phase ≡ true = ground arith in
        rw (p, reset-elsewhere e term p) (start_election_active e ms active)
    | inr p ↦
        let (calm, same) = reset-here e term p in
        let reset : Engine = record e { state = (reset_election e.state term).0 } in
        rw p (
          subst
            (λ t. start_election reset ms ≡ (
              with_state e 0 ((t + 1) % u64_mod) electing,
              [],
              sending ((t + 1) % u64_mod) (higher_than e.self_id ms),
            ))
            same (start_election_lower reset ms calm higher))
  ],
)
