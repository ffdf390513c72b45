-- ===== src/Election/Engine/Blocked.antt =====
-- election/engine.go: announcements that reach a node while nothing takes events from its channel.
use pi_bully.Prelude.{
  ℕ, suc, ◌+◌, ◌-◌, ◌≤◌, ◌≡◌, refl, ◌∙◌, ap, Option, none, some, List, [], ◌∷◌, arith, length,
  length-append, min, if◌then◌else◌,
}
use pi_bully.Election.State.{State, set_leader}
use pi_bully.Election.State.Announce.{Announcement, learn, deliver}
use pi_bully.Election.Engine.{
  Engine, InternalEvent, coordinator, internal_cap, on_announce_leader, signal_coordinator,
}

abbrev pub held : Option InternalEvent → ℕ
held none = 0
held (some ev) = 1

-- The engine after these announcements, and how many of their callers are held in the send.
unfoldable pub hear_all : Engine → List Announcement → Engine × ℕ
unfolding on_announce_leader
hear_all e [] = (e, 0)
hear_all e (a ∷ rest) =
    let (e', blocked) = on_announce_leader e a.leader_id a.term in
    let (after, n) = hear_all e' rest in (after, held blocked + n)

-- How many of the announcements the state accepts.
unfoldable pub accepted_of : State → List Announcement → ℕ
unfolding learn set_leader
accepted_of s [] = 0
accepted_of s (a ∷ rest) =
    let n = accepted_of (learn s a) rest in if (set_leader s a.leader_id a.term).1 then suc n else n

module _ (e : Engine) (a : Announcement) where
  -- One announcement: the state, and the channel with the callers that it holds.
  on_announce_leader-state : (on_announce_leader e a.leader_id a.term).0.state ≡ learn e.state a
  unfolding on_announce_leader learn set_leader signal_coordinator
  on_announce_leader-state = ground arith

  on_announce_leader-length :
      length e.internal_c ≤ internal_cap
      → let r = on_announce_leader e a.leader_id a.term in
        let n =
          (if (set_leader e.state a.leader_id a.term).1
            then suc (length e.internal_c)
            else length e.internal_c) in
        (length r.0.internal_c ≡ min internal_cap n) × (held r.1 ≡ n - internal_cap)
  unfolding on_announce_leader signal_coordinator
  on_announce_leader-length h =
      ground (arith, length-append e.internal_c (coordinator a.term a.leader_id ∷ []))

-- Whatever announcements reach a node while nothing takes events from its channel, which holds no more
-- than it can: all of them change its state as `SetLeader` says, but of those that are accepted only as
-- many enter the channel as there is room for, and each of the others holds its caller.
pub full_channel_blocks :
    (e : Engine) (announcements : List Announcement)
    → length e.internal_c ≤ internal_cap
    → let r = hear_all e announcements in
      let n = length e.internal_c + accepted_of e.state announcements in
      (r.0.state ≡ deliver e.state announcements)
      × (length r.0.internal_c ≡ min internal_cap n)
      × (r.1 ≡ n - internal_cap)
unfolding hear_all accepted_of deliver
full_channel_blocks e [] room = (refl, omega arith, omega arith)
full_channel_blocks e (a ∷ rest) room =
    let next = (on_announce_leader e a.leader_id a.term).0 in
    let heard = on_announce_leader-length e a room in
    let state = on_announce_leader-state e a in
    let (states, lengths, holds) = full_channel_blocks next rest (omega arith) in
    let same = ap (λ s. accepted_of s rest) state in
    (states ∙ ap (λ s. deliver s rest) state, ground arith, ground arith)
