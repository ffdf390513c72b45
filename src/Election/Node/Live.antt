-- ===== src/Election/Node/Live.antt =====
-- election/engine.go: an election that is recorded in the state has a goroutine that works on it.
use pi_bully.Prelude.{
  ℕ, zero, suc, ◌≡◌, ◌⊎◌, inl, inr, String, true, some, List, [], ◌∷◌, ◌++◌, arith, length,
  get_elem?, set, Any, length-append, sym, subst, ap, ◌∙◌,
}
use pi_bully.Election.State.{State, is_active, new_state}
use pi_bully.Election.Engine.{
  Engine, Routine, Stage, finished, sending, waiting, on_start_election, on_announce_leader,
  handle_node_lost, start_election, after_send, wait_for_coordinator, wait_timeout, wait_cancelled,
}
use pi_bully.Election.Engine.Progress.{
  Runs, Keeps, Resolves, IsSound, on_start_election-IsSound, on_announce_leader-IsSound,
  handle_node_lost-IsSound, start_election-IsSound, after_send-Resolves,
  wait_for_coordinator-Resolves, wait_timeout-Resolves, wait_cancelled-Resolves,
}
use pi_bully.Election.Node.{
  Node, Step, Reach, new_node, spawn, advance, launch, request_taken, released, announced, called,
  start_election_rpc, announce_leader_rpc, release, joined, lost, request, begin, answered, drain,
  timeout, cancel, here, later,
}

Runs-Keeps :
    (s s' : State) (stage : Stage)
    → (s'.term ≡ s.term)
    → (s'.phase ≡ s.phase)
    → Runs s stage
    → Runs s' stage
Runs-Keeps s s' finished t p r = r
Runs-Keeps s s' (sending term higher) t p r = ground arith
Runs-Keeps s s' (waiting term) t p r = ground arith

Any-Keeps :
    (s s' : State) (stages : List Stage)
    → (s'.term ≡ s.term)
    → (s'.phase ≡ s.phase)
    → Any (Runs s) stages
    → Any (Runs s') stages
Any-Keeps s s' [] t p h = h
Any-Keeps s s' (stage ∷ stages) t p (inl h) = inl (Runs-Keeps s s' stage t p h)
Any-Keeps s s' (stage ∷ stages) t p (inr h) = inr (Any-Keeps s s' stages t p h)

Any-set_new :
    (P : Stage → Type 0) (stages : List Stage) (i : ℕ) {old : Stage} (new : Stage)
    → get_elem? stages i ≡ some old
    → P new
    → Any P (set stages i new)
Any-set_new P [] i new e h = cc
Any-set_new P (stage ∷ stages) zero new e h = inl h
Any-set_new P (stage ∷ stages) (suc i) new e h = inr (Any-set_new P stages i new e h)

Any-set_other :
    (P : Stage → Type 0) (stages : List Stage) (i : ℕ) (old new : Stage)
    → get_elem? stages i ≡ some old
    → (P old → ⊥)
    → Any P stages
    → Any P (set stages i new)
Any-set_other P [] i old new e h a = a
Any-set_other P (stage ∷ stages) zero old new e h (inl a) = absurd (h (subst P (cc) a))
Any-set_other P (stage ∷ stages) zero old new e h (inr a) = inr a
Any-set_other P (stage ∷ stages) (suc i) old new e h (inl a) = inl a
Any-set_other P (stage ∷ stages) (suc i) old new e h (inr a) =
    inr (Any-set_other P stages i old new e h a)

Any-append_old :
    (P : Stage → Type 0) (stages : List Stage) (new : Stage)
    → Any P stages
    → Any P (stages ++ new ∷ [])
Any-append_old P [] new h = absurd h
Any-append_old P (stage ∷ stages) new (inl h) = inl h
Any-append_old P (stage ∷ stages) new (inr h) = inr (Any-append_old P stages new h)

Any-append_new :
    (P : Stage → Type 0) (stages : List Stage) (new : Stage) → P new → Any P (stages ++ new ∷ [])
Any-append_new P [] new h = inl h
Any-append_new P (stage ∷ stages) new h = inr (Any-append_new P stages new h)

-- Every election that the state records as active has a goroutine that works on it.
pub record IsLive (n : Node) : Type 0 where
  pub sound : IsSound n.engine
  pub running : is_active n.engine.state.phase ≡ true → Any (Runs n.engine.state) n.stages

new_node-IsLive : (self_id : ℕ) (self_addr : String) → IsLive (new_node self_id self_addr)
unfolding new_node new_state
new_node-IsLive self_id self_addr = record { sound = ground arith; running = λ h. cc }

-- A call that keeps the election keeps its goroutine.
Keeps-running :
    (s s' : State) (stages : List Stage)
    → Keeps s s'
    → (is_active s.phase ≡ true → Any (Runs s) stages)
    → is_active s'.phase ≡ true
    → Any (Runs s') stages
Keeps-running s s' stages k r a =
    let (t, p) = k a in Any-Keeps s s' stages t p (r (ap is_active (sym p) ∙ a))

Resolves-running :
    (s s' : State) (stages : List Stage) (i : ℕ) (old new : Stage)
    → get_elem? stages i ≡ some old
    → Resolves s old s' new
    → (is_active s.phase ≡ true → Any (Runs s) stages)
    → is_active s'.phase ≡ true
    → Any (Runs s') (set stages i new)
Resolves-running s s' stages i old new e k r a = elim (k a) [
  | inl runs ↦ Any-set_new (Runs s') stages i new e runs
  | inr (t, p, other) ↦
      Any-set_other (Runs s') stages i old new e
        (λ h. other (Runs-Keeps s' s old (sym t) (sym p) h))
        (Any-Keeps s s' stages t p (r (ap is_active (sym p) ∙ a)))
]

advance-IsLive :
    (n : Node) (i : ℕ) (old : Stage) (r : Engine × List Routine × Stage)
    → get_elem? n.stages i ≡ some old
    → IsSound r.0 × Resolves n.engine.state old r.0.state r.2
    → IsLive n
    → IsLive (advance n i r)
unfolding advance
advance-IsLive n i old r e (sound, resolves) v = record {
  sound = sound;
  running = Resolves-running n.engine.state r.0.state n.stages i old r.2 e resolves v.running;
}

launch-IsLive :
    (n : Node) (i : ℕ) (r : Engine × List Routine × Stage)
    → IsSound r.0
    → (is_active r.0.state.phase ≡ true → Runs r.0.state r.2 ⊎ (r.0.state ≡ n.engine.state))
    → IsLive n
    → IsLive (launch n i r)
unfolding launch
launch-IsLive n i r sound runs v = record {
  sound = sound;
  running = λ a. elim (runs a) [
    | inl h ↦ Any-append_new (Runs r.0.state) n.stages r.2 h
    | inr e ↦ Any-append_old (Runs r.0.state) n.stages r.2 (
        Keeps-running n.engine.state r.0.state n.stages
          (λ _. (ap (λ s. s.term) e, ap (λ s. s.phase) e)) v.running a)
  ];
}

Step-IsLive : {n m : Node} → Step n m → IsLive n → IsLive m
unfolding called announced released spawn request_taken
Step-IsLive {n} (start_election_rpc from_id term addr) v =
    let (sound, keeps) = on_start_election-IsSound n.engine from_id term addr v.sound in
    record {
      sound = sound;
      running =
          Keeps-running n.engine.state (on_start_election n.engine from_id term addr).0.state
            n.stages keeps v.running;
    }
Step-IsLive {n} (announce_leader_rpc leader_id term) v =
    let (sound, keeps) = on_announce_leader-IsSound n.engine leader_id term v.sound in
    record {
      sound = sound;
      running =
          Keeps-running n.engine.state (on_announce_leader n.engine leader_id term).0.state n.stages
            keeps v.running;
    }
Step-IsLive {n} (release ev rest e room) v = record {
  sound = record {
    known = v.sound.known;
    requests = v.sound.requests;
    events = omega (arith, length-append n.engine.internal_c (ev ∷ []));
  };
  running = v.running;
}
Step-IsLive {n} (joined id) v = record { sound = v.sound; running = v.running }
Step-IsLive {n} (lost id) v =
    let (sound, keeps) = handle_node_lost-IsSound n.engine id v.sound in
    record {
      sound = sound;
      running =
          Keeps-running n.engine.state (handle_node_lost n.engine id).0.state n.stages keeps
            v.running;
    }
Step-IsLive {n} (request from_id rest e) v = record {
  sound = record {
    known = v.sound.known;
    requests = omega (arith, v.sound.requests, ap length e);
    events = v.sound.events;
  };
  running = v.running;
}
Step-IsLive {n} (begin i ms e) v =
    let (sound, runs) = start_election-IsSound n.engine ms v.sound in
    launch-IsLive n i (start_election n.engine ms) sound runs v
Step-IsLive {n} (answered i term higher ms ok e) v =
    advance-IsLive n i (sending term higher) (after_send n.engine ms term ok) e
      (after_send-Resolves n.engine ms term higher ok v.sound) v
Step-IsLive {n} (drain i term e) v =
    advance-IsLive n i (waiting term) (wait_for_coordinator n.engine term) e
      (wait_for_coordinator-Resolves n.engine term v.sound) v
Step-IsLive {n} (timeout i term e) v =
    advance-IsLive n i (waiting term) (wait_timeout n.engine term) e
      (wait_timeout-Resolves n.engine term v.sound) v
Step-IsLive {n} (cancel i term e) v =
    advance-IsLive n i (waiting term) (wait_cancelled n.engine term) e
      (wait_cancelled-Resolves n.engine term v.sound) v

-- No election is left behind: in every state that a node reaches, under every interleaving of its
-- goroutines, the calls of other nodes and the events of the cluster, an election that the state
-- records as active has a goroutine that works on it. The channels hold no more than they may, and
-- a leader is known in the phase `leading` only.
pub Reach-IsLive :
    {self_id : ℕ} {self_addr : String} {n : Node} → Reach self_id self_addr n → IsLive n
Reach-IsLive {self_id} {self_addr} here = new_node-IsLive self_id self_addr
Reach-IsLive (later r st) = Step-IsLive st (Reach-IsLive r)
