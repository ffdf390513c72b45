-- ===== src/Election/Network/Followed.antt =====
-- election/: in a network, a node follows nobody, itself, or a node that has said that it leads.
use pi_bully.Prelude.{
  ℕ, ◌≡◌, refl, ◌⊎◌, inl, inr, String, List, [], ◌∷◌, arith, ◌<◌, ◌≢◌, ◌∙◌, sym, ap, subst, true,
  false, All, Bool-cases, ◌==◌,
}
use pi_bully.Election.State.{is_leader, set_leader, new_state}
use pi_bully.Election.State.Announce.{Announcement}
use pi_bully.Election.Engine.{
  Engine, on_announce_leader, signal_coordinator, new_engine, on_start_election, handle_node_lost,
  start_election, after_send, wait_for_coordinator, wait_timeout, wait_cancelled,
}
use pi_bully.Election.Engine.Origin.{
  Inherits, on_start_election-Inherits, handle_node_lost-Inherits, start_election-Inherits,
  after_send-Inherits, wait_for_coordinator-Inherits, wait_timeout-Inherits,
  wait_cancelled-Inherits, on_announce_leader-Hears,
}
use pi_bully.Election.Node.{
  Node, Step, new_node, spawn, advance, launch, request_taken, released, announced, called,
  start_election_rpc, announce_leader_rpc, release, joined, lost, request, begin, answered, drain,
  timeout, cancel,
}
use pi_bully.Election.Network.{
  Network, update, IsSaid, IsHeard, Says, fixed, current, runs, says, Grows, founded, moved,
}

-- The engine follows nobody, itself, or a node that has announced itself for the engine's term.
abbrev pub IsBacked : List Announcement → Engine → Type 0
IsBacked spoken e =
    (e.state.leader_id ≡ 0)
    ⊎ (e.state.leader_id ≡ e.self_id)
    ⊎ IsSaid spoken e.state.leader_id e.state.term

Inherits-IsBacked :
    (spoken : List Announcement) (e after : Engine)
    → Inherits e after
    → IsBacked spoken e
    → IsBacked spoken after
Inherits-IsBacked spoken e after (same, inl h) b = inl h
Inherits-IsBacked spoken e after (same, inr (inl h)) b = inr (inl (h ∙ sym same))
Inherits-IsBacked spoken e after (same, inr (inr (l, t))) (inl h) = inl (l ∙ h)
Inherits-IsBacked spoken e after (same, inr (inr (l, t))) (inr (inl h)) =
    inr (inl (l ∙ (h ∙ sym same)))
Inherits-IsBacked spoken e after (same, inr (inr (l, t))) (inr (inr h)) = inr (
    inr (
      subst (IsSaid spoken after.state.leader_id) (sym t)
        (subst (λ x. IsSaid spoken x e.state.term) (sym l) h)))

IsSaid-later :
    (spoken : List Announcement) (a : Announcement) (e : Engine)
    → IsBacked spoken e
    → IsBacked (a ∷ spoken) e
IsSaid-later spoken a e (inl h) = inl h
IsSaid-later spoken a e (inr (inl h)) = inr (inl h)
IsSaid-later spoken a e (inr (inr h)) = inr (inr (inr h))

-- A node that has moved is who it was, and is backed if it was.
abbrev Holds : List Announcement → Engine → Engine → Type 0
Holds spoken e after = (after.self_id ≡ e.self_id) × (IsBacked spoken e → IsBacked spoken after)

Inherits-Holds :
    (spoken : List Announcement) (e after : Engine) → Inherits e after → Holds spoken e after
Inherits-Holds spoken e after h = (h.0, Inherits-IsBacked spoken e after h)

announced-Holds :
    (spoken : List Announcement) (e : Engine) (leader_id term : ℕ)
    → IsSaid spoken leader_id term
    → Holds spoken e (on_announce_leader e leader_id term).0
announced-Holds spoken e leader_id term said =
    let after = (on_announce_leader e leader_id term).0 in
    let (same, hears) = on_announce_leader-Hears e leader_id term in
    (
      same,
      λ b. elim hears [
        | inl unchanged ↦
            Inherits-IsBacked spoken e after
              (same, inr (inr (ap (λ s. s.leader_id) unchanged, ap (λ s. s.term) unchanged))) b
        | inr (l, t) ↦ inr (
            inr (
              subst (IsSaid spoken after.state.leader_id) (sym t)
                (subst (λ x. IsSaid spoken x term) (sym l) said)))
      ],
    )

Step-Holds :
    (spoken : List Announcement) {n m : Node} (st : Step n m)
    → IsHeard spoken st
    → Holds spoken n.engine m.engine
unfolding called announced released spawn request_taken launch advance
Step-Holds spoken {n} (start_election_rpc from_id term addr) heard =
    Inherits-Holds spoken n.engine (on_start_election n.engine from_id term addr).0
      (on_start_election-Inherits n.engine from_id term addr)
Step-Holds spoken {n} (announce_leader_rpc leader_id term) heard =
    announced-Holds spoken n.engine leader_id term heard
Step-Holds spoken (release ev rest e room) heard = (refl, λ b. b)
Step-Holds spoken (joined id) heard = (refl, λ b. b)
Step-Holds spoken {n} (lost id) heard =
    Inherits-Holds spoken n.engine (handle_node_lost n.engine id).0
      (handle_node_lost-Inherits n.engine id)
Step-Holds spoken (request from_id rest e) heard = (refl, λ b. b)
Step-Holds spoken {n} (begin i ms e) heard =
    Inherits-Holds spoken n.engine (start_election n.engine ms).0
      (start_election-Inherits n.engine ms)
Step-Holds spoken {n} (answered i term higher ms ok e) heard =
    Inherits-Holds spoken n.engine (after_send n.engine ms term ok).0
      (after_send-Inherits n.engine ms term ok)
Step-Holds spoken {n} (drain i term e) heard =
    Inherits-Holds spoken n.engine (wait_for_coordinator n.engine term).0
      (wait_for_coordinator-Inherits n.engine term)
Step-Holds spoken {n} (timeout i term e) heard =
    Inherits-Holds spoken n.engine (wait_timeout n.engine term).0
      (wait_timeout-Inherits n.engine term)
Step-Holds spoken {n} (cancel i term e) heard =
    Inherits-Holds spoken n.engine (wait_cancelled n.engine term).0
      (wait_cancelled-Inherits n.engine term)

-- What holds of a network that has grown from the start.
abbrev Backs : (ℕ → ℕ) → Network → Type 0
Backs ids net =
    ((j : ℕ) → ((net.nodes j).engine.self_id ≡ ids j) × IsBacked net.spoken (net.nodes j).engine)
    × All (λ a. (i : ℕ) × (ids i ≡ a.leader_id)) net.spoken

founded-Backs :
    (ids : ℕ → ℕ) (addrs : ℕ → String)
    → Backs ids (record { nodes = λ i. new_node (ids i) (addrs i); spoken = [] })
unfolding new_node new_engine new_state
founded-Backs ids addrs = (λ j. (refl, inl refl), tt)

runs-Backs :
    (ids : ℕ → ℕ) (net : Network) (i : ℕ) {m : Node} (st : Step (net.nodes i) m)
    → IsHeard net.spoken st
    → Backs ids net
    → Backs ids (record net { nodes = update net.nodes i m })
runs-Backs ids net i {m} st heard (nodes, said) =
    let (same, keeps) = Step-Holds net.spoken st heard in
    let moved_one : (m.engine.self_id ≡ ids i) × IsBacked net.spoken m.engine =
      (same ∙ (nodes i).0, keeps (nodes i).1) in
    (
      λ j. elim (Bool-cases (j == i)) [
        | inl p ↦
            let here : i ≡ j = ground arith in
            rw p (
              subst (λ x. (m.engine.self_id ≡ ids x) × IsBacked net.spoken m.engine) here moved_one)
        | inr p ↦ rw p (nodes j)
      ],
      said,
    )

Says-self : (n : Node) (a : Announcement) → Says n a → a.leader_id ≡ n.engine.self_id
Says-self n _ (fixed k term m e) = refl
Says-self n _ (current k addr e) = refl

Grows-Backs :
    {ids : ℕ → ℕ} {addrs : ℕ → String} {net : Network} → Grows ids addrs net → Backs ids net
Grows-Backs {ids} {addrs} founded = founded-Backs ids addrs
Grows-Backs {ids} (moved {a} grown (runs i st heard)) =
    runs-Backs ids a i st heard (Grows-Backs grown)
Grows-Backs {ids} (moved {a} grown (says i said speech)) =
    let (nodes, before) = Grows-Backs grown in
    (
      λ j. ((nodes j).0, IsSaid-later a.spoken said (a.nodes j).engine (nodes j).1),
      ((i, sym (Says-self (a.nodes i) said speech ∙ (nodes i).0)), before),
    )

said_by :
    (ids : ℕ → ℕ) (spoken : List Announcement) (leader_id term : ℕ)
    → All (λ a. (i : ℕ) × (ids i ≡ a.leader_id)) spoken
    → IsSaid spoken leader_id term
    → (i : ℕ) × (ids i ≡ leader_id)
said_by ids [] leader_id term all h = absurd h
said_by ids (a ∷ spoken) leader_id term all (inl h) = (all.0.0, all.0.1 ∙ h.0)
said_by ids (a ∷ spoken) leader_id term all (inr h) = said_by ids spoken leader_id term all.1 h

-- In a network of nodes, of which each may lose and find any other, call elections and time out at any
-- moment, and in which messages may be lost, delayed, repeated and overtaken, a node knows no leader,
-- or leads itself, or follows a node of the network that has announced itself as the leader of exactly
-- the term in which it is followed.
pub Grows-followed :
    {ids : ℕ → ℕ} {addrs : ℕ → String} {net : Network} (j : ℕ)
    → Grows ids addrs net
    → ((net.nodes j).engine.state.leader_id ≡ 0)
      ⊎ ((net.nodes j).engine.state.leader_id ≡ ids j)
      ⊎ ((i : ℕ) × (ids i ≡ (net.nodes j).engine.state.leader_id)
          × IsSaid net.spoken (net.nodes j).engine.state.leader_id (net.nodes j).engine.state.term)
Grows-followed {ids} {net = net} j grown =
    let (nodes, said) = Grows-Backs grown in
    let (same, backed) = nodes j in
    elim backed [
      | inl h ↦ inl h
      | inr (inl h) ↦ inr (inl (h ∙ same))
      | inr (inr h) ↦
          let speaker = said_by ids net.spoken _ _ said h in inr (inr (speaker.0, speaker.1, h))
    ]

-- A leader that goes on to announce itself after another node has won a later term unseats that node:
-- when node `e`, which has been announced the leader `m` of a later term, announces itself with its
-- current term, as the goroutine that OnStartElection has left behind does, then `m`, if its identifier
-- is the lower one, follows `e` while `e` follows `m`, and neither takes itself for the leader.
pub stale_claim_unseats :
    (e m : Engine)
    → m.self_id ≢ 0
    → m.self_id < e.self_id
    → e.state.term < m.state.term
    → is_leader m.state m.self_id ≡ true
    → let e' = (on_announce_leader e m.self_id m.state.term).0 in
      let m' = (on_announce_leader m e.self_id e'.state.term).0 in
      (e'.state.leader_id ≡ m.self_id)
      × (m'.state.leader_id ≡ e.self_id)
      × (is_leader e'.state e.self_id ≡ false)
      × (is_leader m'.state m.self_id ≡ false)
unfolding on_announce_leader set_leader signal_coordinator is_leader
stale_claim_unseats e m known lower later leads = ground arith
