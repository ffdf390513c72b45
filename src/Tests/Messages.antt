-- ===== src/Tests/Messages.antt =====
-- The theorems on the retries and on the membership at concrete inputs.
use pi_bully.Prelude.{
  ◌≤◌, ◌≡◌, true, false, map, pos, some, none, List, [], ◌∷◌, arith, length, All, String, Option,
  if◌then◌else◌,
}
use text.Mathlib.Text.{◌==◌ as str_eq}
use pi_bully.Text.{codes}
use pi_bully.Cluster.Members.{lookup}
use pi_bully.Cluster.Event.{
  new_event_handler, Notification, notify_join, notify_leave, notify_update, notify_all, heard_all,
  members_follow,
}
use pi_bully.Election.Retry.End.{EndsWithin, retries_end}
use pi_bully.Election.Retry.{
  Attempt, unanswered, send_loop, announce_loop, doubling, retries_back_off,
}

abbrev attempts : List Attempt
attempts =
    unanswered 10 true
    ∷ unanswered 20 true
    ∷ unanswered 5 true
    ∷ unanswered 0 false
    ∷ unanswered 0 false
    ∷ unanswered 0 false
    ∷ []

retries_back_off_example :
    let sends = (send_loop (pos 500) (pos 100) 0 attempts).0 in
    let announces = (announce_loop (pos 500) (pos 100) 0 attempts).0 in
    (sends ≡ map pos (doubling 500 100 (length sends)))
    × (announces ≡ map pos (doubling 500 100 (length announces)))
    × All (λ d. d ≤ 500) (doubling 500 100 (length sends))
    × All (λ d. d ≤ 500) (doubling 500 100 (length announces))
retries_back_off_example = retries_back_off 500 100 attempts (omega arith) (omega arith)

-- Six sleeps of at least 100 are past a timeout of 500.
retries_end_example :
    EndsWithin 500 (send_loop (pos 500) (pos 100) 0 attempts)
    × EndsWithin 500 (announce_loop (pos 500) (pos 100) 0 attempts)
retries_end_example =
    retries_end 500 100 6 attempts (omega arith) (omega arith) (omega arith) (omega arith)
      (omega arith)

-- A decoder of metadata that are the address itself.
abbrev decode : String → Option String
decode meta = if str_eq meta "" then none else some meta

abbrev notifications : List (Notification String)
notifications =
    notify_join (codes "2") "node:2"
    ∷ notify_join (codes "3") "node:3"
    ∷ notify_join (codes "x") "node:4"
    ∷ notify_update (codes "2") "node:9"
    ∷ notify_leave (codes "3") ""
    ∷ []

members_follow_example :
    lookup 2 (notify_all decode new_event_handler notifications).members
    ≡ heard_all decode 2 none notifications
unfolding new_event_handler lookup
members_follow_example = members_follow decode new_event_handler notifications 2
