-- ===== src/Election/Engine/Elect.antt =====
-- election/engine.go: what `startElection` does on every branch.
use pi_bully.Prelude.{
  if◌then◌else◌, ℕ, ◌+◌, ◌%◌, ◌≤◌, ◌<◌, ◌≡◌, refl, inl, inr, Bool, true, false, List, [], ◌∷◌, map,
  arith, All, Any, ltb, select, u64_mod, Bool-cases,
}
use pi_bully.Cluster.Members.{Member, Members, values}
use pi_bully.Election.State.{
  Phase, electing, waiting_coordinator, leading, is_active, begin_election, set_leader,
  enter_waiting_coordinator,
}
use pi_bully.Election.Engine.{
  Engine, announce, finished, sending, waiting, higher_than, start_election, after_send,
  declare_leader, choose,
}

-- The term of the next election.
abbrev pub next_term : Engine → ℕ
next_term e = (e.state.term + 1) % u64_mod

-- The engine with another state.
abbrev pub with_state : Engine → ℕ → ℕ → Phase → Engine
with_state e leader_id term phase = record e {
  state = record { leader_id = leader_id; term = term; phase = phase };
}

select-none :
    (id : ℕ) (ms : List Member) → All (λ m. m.id ≤ id) ms → select (λ m. ltb id m.id) ms ≡ []
select-none id [] h = refl
select-none id (m ∷ ms) h = ground (arith, select-none id ms h.1)

select-some :
    (id : ℕ) (ms : List Member)
    → Any (λ m. id < m.id) ms
    → (m : Member) × (rest : List Member) × (select (λ m. ltb id m.id) ms ≡ m ∷ rest)
select-some id [] h = absurd h
select-some id (m ∷ ms) (inl h) = (m, select (λ m. ltb id m.id) ms, ground arith)
select-some id (m ∷ ms) (inr h) = elim (Bool-cases (ltb id m.id)) [
  | inl e ↦ (m, select (λ m. ltb id m.id) ms, ground arith)
  | inr e ↦ let (n, rest, p) = select-some id ms h in (n, rest, ground arith)
]

-- A node that is in no election and sees no higher node makes itself the leader of the next term,
-- announces that to every member, and its election ends.
pub start_election_highest :
    (e : Engine) (ms : Members)
    → is_active e.state.phase ≡ false
    → All (λ m. m.id ≤ e.self_id) (values ms)
    → start_election e ms ≡ (
      with_state e e.self_id (next_term e) leading,
      map (announce (next_term e)) (values ms),
      finished,
    )
unfolding start_election begin_election choose declare_leader set_leader
start_election_highest e ms idle h = rw (select-none e.self_id (values ms) h) (ground arith)

-- A node that is in no election and sees a higher node knows no leader any more, announces nothing,
-- and asks exactly the higher nodes, in the next term.
pub start_election_lower :
    (e : Engine) (ms : Members)
    → is_active e.state.phase ≡ false
    → Any (λ m. e.self_id < m.id) (values ms)
    → start_election e ms ≡ (
      with_state e 0 (next_term e) electing,
      [],
      sending (next_term e) (higher_than e.self_id ms),
    )
unfolding start_election begin_election choose
start_election_lower e ms idle h =
    let (m, rest, p) = select-some e.self_id (values ms) h in rw p (ground arith)

-- While an election is active another one does nothing.
pub start_election_active :
    (e : Engine) (ms : Members)
    → is_active e.state.phase ≡ true
    → start_election e ms ≡ (e, [], finished)
unfolding start_election begin_election
start_election_active e ms h = ground arith

-- The election of `term` is still the one that the state records.
abbrev pub IsCurrent : Engine → ℕ → Type 0
IsCurrent e term = (e.state.term ≡ term) × (e.state.phase ≡ electing) × (e.state.leader_id ≡ 0)

-- When the requests are sent: if a higher node has answered, the node does not become leader, but waits
-- for the coordinator; if none has, it makes itself leader of the term that it began and announces that.
after_send_current :
    (e : Engine) (ms : Members) (term : ℕ) (answered : Bool)
    → IsCurrent e term
    → after_send e ms term answered ≡ (
        if answered
        then (with_state e 0 term waiting_coordinator, [], waiting term)
        else (with_state e e.self_id term leading, map (announce term) (values ms), finished))
unfolding after_send enter_waiting_coordinator declare_leader set_leader
after_send_current e ms term true c = ground arith
after_send_current e ms term false c = ground arith

-- An election that a later term has overtaken ends and changes nothing, answered or not.
pub after_send_overtaken :
    (e : Engine) (ms : Members) (term : ℕ) (answered : Bool)
    → term < e.state.term
    → after_send e ms term answered ≡ (e, [], finished)
unfolding after_send enter_waiting_coordinator declare_leader set_leader
after_send_overtaken e ms term answered h = ground arith
