-- ===== src/Election/Engine/Progress.antt =====
-- election/engine.go: what each method does to the election that the state records, and to the
-- bounds of the channels.
use pi_bully.Prelude.{
  ℕ, ◌≤◌, ◌≡◌, refl, ◌≢◌, ◌⊎◌, inl, inr, String, Bool, true, false, List, [], ◌∷◌, arith, length,
  length-append, length-offer, Bool-cases,
}
use pi_bully.Cluster.Members.{Members, Member}
use pi_bully.Election.State.{
  State, electing, waiting_coordinator, leading, is_active, begin_election, set_leader,
  enter_waiting_coordinator, reset_election, clear_leader_if_matches, update_term,
}
use pi_bully.Election.Engine.{
  Engine, InternalEvent, coordinator, retry, Stage, finished, sending, waiting, internal_cap,
  elect_cap, on_start_election, on_announce_leader, signal_coordinator, handle_node_lost,
  signal_retry, start_election, choose, declare_leader, higher_than, after_send,
  wait_for_coordinator, wait_from, on_internal, restart_election, wait_timeout, wait_cancelled,
}
use pi_bully.Election.Engine.Elect.{with_state, next_term, start_election_active}

-- The goroutine at this stage works on the election that the state records.
abbrev pub Runs : State → Stage → Type 0
Runs s finished = ⊥
Runs s (sending term higher) = (s.term ≡ term) × (s.phase ≡ electing)
Runs s (waiting term) = (s.term ≡ term) × (s.phase ≡ waiting_coordinator)

-- An active election of the second state is that of the first.
abbrev pub Keeps : State → State → Type 0
Keeps s s' = is_active s'.phase ≡ true → (s'.term ≡ s.term) × (s'.phase ≡ s.phase)

-- A goroutine has run from one stage to another: an active election is the new stage's, or that of
-- a goroutine other than this one.
abbrev pub Resolves : State → Stage → State → Stage → Type 0
Resolves s stage s' stage' =
    is_active s'.phase ≡ true
    → Runs s' stage' ⊎ ((s'.term ≡ s.term) × (s'.phase ≡ s.phase) × (Runs s stage → ⊥))

-- A leader is known in the phase `leading` only, and the channels hold no more than they may.
pub record IsSound (e : Engine) : Type 0 where
  pub known : e.state.leader_id ≢ 0 → e.state.phase ≡ leading
  pub requests : length e.elect_c ≤ elect_cap
  pub events : length e.internal_c ≤ internal_cap

pub on_start_election-IsSound :
    (e : Engine) (from_id term : ℕ) (addr : String)
    → IsSound e
    → IsSound (on_start_election e from_id term addr).0
      × Keeps e.state (on_start_election e from_id term addr).0.state
unfolding on_start_election update_term
on_start_election-IsSound e from_id term addr s =
    (ground (arith, length-offer elect_cap e.elect_c from_id), ground arith)

pub on_announce_leader-IsSound :
    (e : Engine) (leader_id term : ℕ)
    → IsSound e
    → IsSound (on_announce_leader e leader_id term).0
      × Keeps e.state (on_announce_leader e leader_id term).0.state
unfolding on_announce_leader set_leader signal_coordinator
on_announce_leader-IsSound e leader_id term s =
    (ground (arith, length-append e.internal_c (coordinator term leader_id ∷ [])), ground arith)

pub handle_node_lost-IsSound :
    (e : Engine) (lost_id : ℕ)
    → IsSound e
    → IsSound (handle_node_lost e lost_id).0 × Keeps e.state (handle_node_lost e lost_id).0.state
unfolding handle_node_lost signal_retry clear_leader_if_matches
handle_node_lost-IsSound e lost_id s = (
  ground (arith, length-offer internal_cap e.internal_c (retry e.state.term lost_id)),
  ground arith,
)

choose-IsSound :
    (e : Engine) (ms : Members) (term : ℕ) (higher : List Member)
    → length e.elect_c ≤ elect_cap
    → length e.internal_c ≤ internal_cap
    → e.state ≡ record { leader_id = 0; term = term; phase = electing }
    → IsSound (choose e ms term higher).0
      × (is_active (choose e ms term higher).0.state.phase ≡ true
          → Runs (choose e ms term higher).0.state (choose e ms term higher).2)
unfolding choose declare_leader set_leader
choose-IsSound e ms term [] r v w = (ground arith, ground arith)
choose-IsSound e ms term (m ∷ higher) r v w = (ground arith, ground arith)

start_election-eq-choose :
    (e : Engine) (ms : Members)
    → is_active e.state.phase ≡ false
    → start_election e ms
      ≡ choose (with_state e 0 (next_term e) electing) ms (next_term e) (higher_than e.self_id ms)
unfolding start_election begin_election
start_election-eq-choose e ms h = ground arith

-- An election that begins is run by its goroutine; one that is refused leaves the state alone.
pub start_election-IsSound :
    (e : Engine) (ms : Members)
    → IsSound e
    → IsSound (start_election e ms).0
      × (is_active (start_election e ms).0.state.phase ≡ true
          → Runs (start_election e ms).0.state (start_election e ms).2
            ⊎ ((start_election e ms).0.state ≡ e.state))
start_election-IsSound e ms s = elim (Bool-cases (is_active e.state.phase)) [
  | inl active ↦ rw (start_election_active e ms active) (s, λ _. inr refl)
  | inr idle ↦
      let begun : Engine = with_state e 0 (next_term e) electing in
      let higher = higher_than e.self_id ms in
      let (sound, runs) = choose-IsSound begun ms (next_term e) higher s.requests s.events refl in
      rw (start_election-eq-choose e ms idle) (sound, λ a. inl (runs a))
]

pub after_send-Resolves :
    (e : Engine) (ms : Members) (term : ℕ) (higher : List Member) (ok : Bool)
    → IsSound e
    → IsSound (after_send e ms term ok).0
      × Resolves e.state
          (sending term higher)
          (after_send e ms term ok).0.state
          (after_send e ms term ok).2
unfolding after_send enter_waiting_coordinator declare_leader set_leader
after_send-Resolves e ms term higher ok s = (ground arith, ground arith)

wait_from-Resolves :
    (e : Engine) (term : ℕ) (events : List InternalEvent)
    → IsSound e
    → length events ≤ internal_cap
    → IsSound (wait_from e term events).0
      × Resolves e.state
          (waiting term)
          (wait_from e term events).0.state
          (wait_from e term events).2
unfolding wait_from on_internal restart_election reset_election
wait_from-Resolves e term [] s h = (ground arith, ground arith)
wait_from-Resolves e term (coordinator t l ∷ rest) s h =
    (ground (arith, wait_from-Resolves e term rest), ground (arith, wait_from-Resolves e term rest))
wait_from-Resolves e term (retry t l ∷ rest) s h =
    (ground (arith, wait_from-Resolves e term rest), ground (arith, wait_from-Resolves e term rest))

pub wait_for_coordinator-Resolves :
    (e : Engine) (term : ℕ)
    → IsSound e
    → IsSound (wait_for_coordinator e term).0
      × Resolves e.state
          (waiting term)
          (wait_for_coordinator e term).0.state
          (wait_for_coordinator e term).2
unfolding wait_for_coordinator
wait_for_coordinator-Resolves e term s = wait_from-Resolves e term e.internal_c s s.events

pub wait_timeout-Resolves :
    (e : Engine) (term : ℕ)
    → IsSound e
    → IsSound (wait_timeout e term).0
      × Resolves e.state (waiting term) (wait_timeout e term).0.state (wait_timeout e term).2
unfolding wait_timeout restart_election reset_election
wait_timeout-Resolves e term s = (ground arith, ground arith)

pub wait_cancelled-Resolves :
    (e : Engine) (term : ℕ)
    → IsSound e
    → IsSound (wait_cancelled e term).0
      × Resolves e.state (waiting term) (wait_cancelled e term).0.state (wait_cancelled e term).2
unfolding wait_cancelled reset_election
wait_cancelled-Resolves e term s = (ground arith, ground arith)
