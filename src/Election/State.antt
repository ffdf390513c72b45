-- ===== src/Election/State.antt =====
-- election/state.go: what a node knows of the current leader. Each function is one critical section
-- under the state's mutex; a method that changes the state returns the new one first. Terms and
-- identifiers are uint64 values; 0 means that no leader is known.
pub mod Invariant
pub mod Announce
use pi_bully.Prelude.{
  ℕ, ◌+◌, ◌%◌, Bool, true, false, not, ◌&&◌, ◌||◌, ltb, ◌==◌, if◌then◌else◌, u64_mod,
}

pub data Phase : Type 0 where
  idle electing waiting_coordinator leading : Phase

pub record State : Type 0 where
  pub leader_id : ℕ
  pub term : ℕ
  pub phase : Phase

unfoldable pub new_state : State
new_state = record { leader_id = 0; term = 0; phase = idle }

unfoldable pub is_leader : State → ℕ → Bool
is_leader s self_id = s.leader_id == self_id

unfoldable pub update_term : State → ℕ → State
update_term s term =
    if ltb s.term term then record { leader_id = 0; term = term; phase = idle } else s

-- `case PhaseElecting, PhaseWaitingCoordinator`
abbrev pub is_active : Phase → Bool
is_active electing = true
is_active waiting_coordinator = true
is_active _ = false

abbrev pub is_electing : Phase → Bool
is_electing electing = true
is_electing _ = false

abbrev pub is_waiting : Phase → Bool
is_waiting waiting_coordinator = true
is_waiting _ = false

abbrev pub is_leading : Phase → Bool
is_leading leading = true
is_leading _ = false

unfoldable pub begin_election : State → State × ℕ × Bool
begin_election s =
    if is_active s.phase
    then (s, 0, false)
    else (let term = (s.term + 1) % u64_mod in
        (record { leader_id = 0; term = term; phase = electing }, term, true))

unfoldable pub enter_waiting_coordinator : State → ℕ → State × Bool
enter_waiting_coordinator s term =
    if not (s.term == term)
    then (s, false)
    else (if not (is_electing s.phase)
        then (s, false)
        else (record s { phase = waiting_coordinator }, true))

unfoldable pub set_leader : State → ℕ → ℕ → State × Bool
set_leader s leader_id term =
    if ltb term s.term
    then (s, false)
    else (if term == s.term && (not (s.leader_id == 0) && ltb leader_id s.leader_id)
        then (s, false)
        else (record { leader_id = leader_id; term = term; phase = leading }, true))

unfoldable pub clear_leader_if_matches : State → ℕ → State × Bool
clear_leader_if_matches s leader_id =
    if not (s.leader_id == leader_id)
    then (s, false)
    else (record s { leader_id = 0; phase = if is_leading s.phase then idle else s.phase }, true)

unfoldable pub reset_election : State → ℕ → State × Bool
reset_election s term =
    if not (s.term == term)
    then (s, false)
    else (if is_active s.phase then (record s { phase = idle }, true) else (s, false))

unfoldable pub in_election : State → Bool
in_election s = is_electing s.phase || is_waiting s.phase
