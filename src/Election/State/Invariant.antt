-- ===== src/Election/State/Invariant.antt =====
-- election/state.go: what every method keeps.
use pi_bully.Prelude.{
  ℕ, ◌+◌, ◌≤◌, ◌<◌, ◌≡◌, ◌≢◌, Bool, false, List, [], ◌∷◌, arith, u64_mod, ltb, All,
}
use pi_bully.Election.State.{
  Phase, idle, electing, waiting_coordinator, leading, State, new_state, update_term,
  begin_election, enter_waiting_coordinator, set_leader, clear_leader_if_matches, reset_election,
}

-- The methods that change the state, with their arguments.
pub data Op : Type 0 where
  update : ℕ → Op
  begin : Op
  enter : ℕ → Op
  announce : (leader_id term : ℕ) → Op
  clear : ℕ → Op
  reset : ℕ → Op

unfoldable pub apply : State → Op → State
apply s (update term) = update_term s term
apply s begin = (begin_election s).0
apply s (enter term) = (enter_waiting_coordinator s term).0
apply s (announce leader_id term) = (set_leader s leader_id term).0
apply s (clear leader_id) = (clear_leader_if_matches s leader_id).0
apply s (reset term) = (reset_election s term).0

pub run : State → List Op → State
run s [] = s
run s (op ∷ ops) = run (apply s op) ops

-- A leader is known exactly in the phase that says so, and the term fits its word.
pub record IsConsistent (s : State) : Type 0 where
  pub known_leading : s.leader_id ≢ 0 → s.phase ≡ leading
  pub leading_known : s.phase ≡ leading → s.leader_id ≢ 0
  pub fits : s.term < u64_mod

-- The arguments are words, and an announced leader is a node.
abbrev pub IsProper : Op → Type 0
IsProper (update term) = term < u64_mod
IsProper (announce leader_id term) = (leader_id ≢ 0) × (term < u64_mod)
IsProper _ = Unit {0}

pub new_state-IsConsistent : IsConsistent new_state
unfolding new_state
new_state-IsConsistent = ground arith

pub apply-IsConsistent :
    (s : State) (op : Op) → IsConsistent s → IsProper op → IsConsistent (apply s op)
unfolding apply update_term begin_election enter_waiting_coordinator set_leader
    clear_leader_if_matches reset_election
apply-IsConsistent s (update term) c p = ground arith
apply-IsConsistent s begin c p = ground arith
apply-IsConsistent s (enter term) c p = ground arith
apply-IsConsistent s (announce leader_id term) c p = ground arith
apply-IsConsistent s (clear leader_id) c p = ground arith
apply-IsConsistent s (reset term) c p = ground arith

-- After any sequence of calls whose terms are words and whose announced leaders are not 0, in any order,
-- a node in its initial or any other consistent state is consistent: it knows a leader exactly in the
-- phase `leading`, and its term is a word.
pub run-IsConsistent :
    (s : State) (ops : List Op) → IsConsistent s → All IsProper ops → IsConsistent (run s ops)
unfolding run
run-IsConsistent s [] c p = c
run-IsConsistent s (op ∷ ops) c p =
    run-IsConsistent (apply s op) ops (apply-IsConsistent s op c p.0) p.1

apply-term : (s : State) (op : Op) → s.term + 1 < u64_mod → s.term ≤ (apply s op).term
unfolding apply update_term begin_election enter_waiting_coordinator set_leader
    clear_leader_if_matches reset_election
apply-term s (update term) h = ground arith
apply-term s begin h = ground arith
apply-term s (enter term) h = ground arith
apply-term s (announce leader_id term) h = ground arith
apply-term s (clear leader_id) h = ground arith
apply-term s (reset term) h = ground arith

-- The room for terms that a sequence of calls needs: none of its elections wraps.
abbrev pub HasRoom : State → List Op → Type 0
HasRoom s [] = Unit
HasRoom s (op ∷ ops) = (s.term + 1 < u64_mod) × HasRoom (apply s op) ops

-- While the terms do not reach the end of their word, no sequence of calls takes a node back to an
-- earlier term.
pub run-term : (s : State) (ops : List Op) → HasRoom s ops → s.term ≤ (run s ops).term
unfolding run
run-term s [] h = omega arith
run-term s (op ∷ ops) h = omega (arith, apply-term s op h.0, run-term (apply s op) ops h.1)

-- The flag with which a method answers; `UpdateTerm` answers nothing, and raises the term or not.
unfoldable pub accepted : State → Op → Bool
accepted s (update term) = ltb s.term term
accepted s begin = (begin_election s).2
accepted s (enter term) = (enter_waiting_coordinator s term).1
accepted s (announce leader_id term) = (set_leader s leader_id term).1
accepted s (clear leader_id) = (clear_leader_if_matches s leader_id).1
accepted s (reset term) = (reset_election s term).1

-- A call that answers `false`, or an update to a term that is not later, leaves the state as it was.
pub refused_unchanged : (s : State) (op : Op) → accepted s op ≡ false → apply s op ≡ s
unfolding accepted apply update_term begin_election enter_waiting_coordinator set_leader
    clear_leader_if_matches reset_election
refused_unchanged s (update term) h = ground arith
refused_unchanged s begin h = ground arith
refused_unchanged s (enter term) h = ground arith
refused_unchanged s (announce leader_id term) h = ground arith
refused_unchanged s (clear leader_id) h = ground arith
refused_unchanged s (reset term) h = ground arith

-- The edges of the phases within one call.
infix 40 ◌⟶◌
pub data ◌⟶◌ : Phase → Phase → Type 0 where
  stay : {p : Phase} → p ⟶ p
  start : idle ⟶ electing
  restart : leading ⟶ electing
  wait : electing ⟶ waiting_coordinator
  learn : {p : Phase} → p ⟶ leading
  drop : {p : Phase} → p ⟶ idle

-- One call moves the phase along an edge of the diagram: an election is begun only from `idle` or
-- `leading`, and the wait for a coordinator only from `electing`.
apply-⟶ : (s : State) (op : Op) → s.phase ⟶ (apply s op).phase
unfolding apply update_term begin_election enter_waiting_coordinator set_leader
    clear_leader_if_matches reset_election
apply-⟶ s (update term) = grind (arith, stay, drop)
apply-⟶ s begin = grind (arith, stay, start, restart)
apply-⟶ s (enter term) = grind (arith, stay, wait)
apply-⟶ s (announce leader_id term) = grind (arith, stay, learn)
apply-⟶ s (clear leader_id) = grind (arith, stay, drop)
apply-⟶ s (reset term) = grind (arith, stay, drop)
