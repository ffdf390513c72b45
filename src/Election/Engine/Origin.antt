-- ===== src/Election/Engine/Origin.antt =====
-- election/engine.go: whom an engine follows after a step of its own.
use pi_bully.Prelude.{
  ℕ, ◌≡◌, refl, ◌⊎◌, inl, inr, String, Bool, true, false, List, [], ◌∷◌, arith, ltb, Bool-cases,
}
use pi_bully.Cluster.Members.{Members, Member}
use pi_bully.Election.State.{
  update_term, is_leader, set_leader, clear_leader_if_matches, begin_election,
  enter_waiting_coordinator, reset_election,
}
use pi_bully.Election.Engine.{
  Engine, InternalEvent, coordinator, retry, event_term, on_start_election, on_announce_leader,
  signal_coordinator, handle_node_lost, signal_retry, start_election, choose, declare_leader,
  higher_than, after_send, wait_for_coordinator, wait_from, on_internal, restart_election,
  wait_timeout, wait_cancelled,
}

-- The leader that an engine knows after a step: none, itself, or the one before, in the same term.
abbrev pub Inherits : Engine → Engine → Type 0
Inherits e after =
    (after.self_id ≡ e.self_id)
    × ((after.state.leader_id ≡ 0)
        ⊎ (after.state.leader_id ≡ e.self_id)
        ⊎ (after.state.leader_id ≡ e.state.leader_id) × (after.state.term ≡ e.state.term))

pub on_start_election-Inherits :
    (e : Engine) (from_id term : ℕ) (addr : String)
    → Inherits e (on_start_election e from_id term addr).0
unfolding on_start_election update_term is_leader
on_start_election-Inherits e from_id term addr = ground arith

pub handle_node_lost-Inherits : (e : Engine) (id : ℕ) → Inherits e (handle_node_lost e id).0
unfolding handle_node_lost clear_leader_if_matches signal_retry
handle_node_lost-Inherits e id = ground arith

declare_leader-Inherits :
    (e : Engine) (ms : Members) (term : ℕ) → Inherits e (declare_leader e ms term).0
unfolding declare_leader set_leader
declare_leader-Inherits e ms term = ground arith

Inherits-trans : (a b c : Engine) → Inherits a b → Inherits b c → Inherits a c
Inherits-trans a b c p q = ground arith

abbrev begun : Engine → Engine
begun e = record e { state = (begin_election e.state).0 }

begun-Inherits : (e : Engine) → Inherits e (begun e)
unfolding begin_election
begun-Inherits e = ground arith

choose-Inherits :
    (e : Engine) (ms : Members) (term : ℕ) (higher : List Member)
    → Inherits e (choose e ms term higher).0
unfolding choose
choose-Inherits e ms term [] = declare_leader-Inherits e ms term
choose-Inherits e ms term (m ∷ higher) = (refl, inr (inr (refl, refl)))

pub start_election-Inherits : (e : Engine) (ms : Members) → Inherits e (start_election e ms).0
unfolding start_election
start_election-Inherits e ms = elim (Bool-cases (begin_election e.state).2) [
  | inl p ↦
      let e' = begun e in
      let term = (begin_election e.state).1 in
      let higher = higher_than e.self_id ms in
      rw (p, start_election)
        (Inherits-trans e e' (choose e' ms term higher).0 (begun-Inherits e)
          (choose-Inherits e' ms term higher))
  | inr p ↦ rw (p, start_election) (begun-Inherits e)
]

pub after_send-Inherits :
    (e : Engine) (ms : Members) (term : ℕ) (answered : Bool)
    → Inherits e (after_send e ms term answered).0
unfolding after_send enter_waiting_coordinator
after_send-Inherits e ms term true = ground arith
after_send-Inherits e ms term false = declare_leader-Inherits e ms term

restart_election-Inherits : (e : Engine) (term : ℕ) → Inherits e (restart_election e term).0
unfolding restart_election reset_election
restart_election-Inherits e term = ground arith

on_internal-Inherits :
    (e : Engine) (term : ℕ) (ev : InternalEvent) → Inherits e (on_internal e term ev).0
unfolding on_internal restart_election reset_election
on_internal-Inherits e term (coordinator event_term leader_id) = ground arith
on_internal-Inherits e term (retry event_term node_id) = restart_election-Inherits e term

wait_from-Inherits :
    (e : Engine) (term : ℕ) (events : List InternalEvent) → Inherits e (wait_from e term events).0
unfolding wait_from
wait_from-Inherits e term [] = (refl, inr (inr (refl, refl)))
wait_from-Inherits e term (ev ∷ rest) = elim (Bool-cases (ltb (event_term ev) term)) [
  | inl p ↦ rw (p, wait_from) (wait_from-Inherits e term rest)
  | inr p ↦ rw (p, wait_from) (on_internal-Inherits (record e { internal_c = rest }) term ev)
]

pub wait_for_coordinator-Inherits :
    (e : Engine) (term : ℕ) → Inherits e (wait_for_coordinator e term).0
unfolding wait_for_coordinator
wait_for_coordinator-Inherits e term = wait_from-Inherits e term e.internal_c

pub wait_timeout-Inherits : (e : Engine) (term : ℕ) → Inherits e (wait_timeout e term).0
unfolding wait_timeout
wait_timeout-Inherits e term = restart_election-Inherits e term

pub wait_cancelled-Inherits : (e : Engine) (term : ℕ) → Inherits e (wait_cancelled e term).0
unfolding wait_cancelled reset_election
wait_cancelled-Inherits e term = ground arith

-- An announcement is followed, or changes nothing of this.
pub on_announce_leader-Hears :
    (e : Engine) (leader_id term : ℕ)
    → ((on_announce_leader e leader_id term).0.self_id ≡ e.self_id)
      × (((on_announce_leader e leader_id term).0.state ≡ e.state)
          ⊎ (((on_announce_leader e leader_id term).0.state.leader_id ≡ leader_id)
              × ((on_announce_leader e leader_id term).0.state.term ≡ term)))
unfolding on_announce_leader set_leader signal_coordinator
on_announce_leader-Hears e leader_id term = ground arith
