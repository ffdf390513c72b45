-- ===== src/Election/Retry/End.antt =====
-- election/engine.go: the loops that send a message end at their deadline.
use pi_bully.Prelude.{
  ℕ, zero, suc, ◌+◌, ◌-◌, ◌*◌, ◌≤◌, ◌<◌, ◌^◌, ◌≡◌, refl, Bool, true, false, Option, some, List, [],
  ◌∷◌, length, arith, pos, ℤ, min, Bool-cases, inl, inr,
}
use pi_bully.Election.Retry.{
  Attempt, replied, unanswered, run_time, timer_wins, slept_for, next_send_interval_lem,
  next_announce_interval_lem, send_loop, announce_loop,
}

-- How long a loop has slept.
abbrev pub total : List ℤ → ℕ
total [] = 0
total (d ∷ waits) = run_time d + total waits

-- The loop has ended, and has slept for no longer than this.
abbrev pub EndsWithin : ℕ → List ℤ × Option Bool → Type 0
EndsWithin time r = ((outcome : Bool) × (r.1 ≡ some outcome)) × (total r.0 ≤ time)

-- The timer wins only if it is due by the deadline.
timer_wins-le :
    (timeout interval now : ℕ) (wakes : Bool)
    → 0 < interval
    → timer_wins (pos timeout) (pos interval) now wakes ≡ true
    → now + interval ≤ timeout
unfolding timer_wins
timer_wins-le timeout interval now wakes positive h = ground arith

slept-EndsWithin :
    (interval time : ℕ) (r : List ℤ × Option Bool)
    → interval ≤ time
    → EndsWithin (time - interval) r
    → EndsWithin time (slept_for (pos interval) r)
slept-EndsWithin interval time (waits, outcome) h (ended, short) = (ended, omega arith)

less_left :
    (b left interval n : ℕ)
    → b ≤ interval
    → interval ≤ left
    → left < suc n * b
    → left - interval < n * b
less_left b left interval n h k m = grind arith

module _ (b timeout : ℕ) (positive : 0 < b) (room : timeout < 2 ^ 62) where
  send_loop-EndsWithin :
      (interval now left n : ℕ) (attempts : List Attempt)
      → b ≤ interval
      → interval ≤ timeout
      → timeout ≤ now + left
      → left < n * b
      → n ≤ length attempts
      → EndsWithin left (send_loop (pos timeout) (pos interval) now attempts)
  unfolding send_loop
  send_loop-EndsWithin interval now left zero attempts h k l m fits = absurd (omega arith)
  send_loop-EndsWithin interval now left (suc n) [] h k l m fits = absurd (omega arith)
  send_loop-EndsWithin interval now left (suc n) (replied ok ∷ attempts) h k l m fits =
      ((ok, refl), omega arith)
  send_loop-EndsWithin interval now left (suc n) (unanswered took wakes ∷ attempts) h k l m fits =
      elim (Bool-cases (timer_wins (pos timeout) (pos interval) (now + took) wakes)) [
        | inl e ↦
            let due = timer_wins-le timeout interval (now + took) wakes (omega arith) e in
            let next : ℕ = min timeout (interval * 2) in
            rw (e, next_send_interval_lem timeout interval k room)
              (slept-EndsWithin interval left _ (omega arith) (
                send_loop-EndsWithin next (now + took + interval) (left - interval) n attempts
                  (omega arith) (omega arith) (omega arith)
                  (less_left b left interval n h (omega arith) m) (omega arith)))
        | inr e ↦ rw e ((false, refl), omega arith)
      ]

  announce_loop-EndsWithin :
      (interval now left n : ℕ) (attempts : List Attempt)
      → b ≤ interval
      → interval ≤ timeout
      → timeout ≤ now + left
      → left < n * b
      → n ≤ length attempts
      → EndsWithin left (announce_loop (pos timeout) (pos interval) now attempts)
  unfolding announce_loop
  announce_loop-EndsWithin interval now left zero attempts h k l m fits = absurd (omega arith)
  announce_loop-EndsWithin interval now left (suc n) [] h k l m fits = absurd (omega arith)
  announce_loop-EndsWithin interval now left (suc n) (replied ok ∷ attempts) h k l m fits =
      ((true, refl), omega arith)
  announce_loop-EndsWithin interval now left (suc n) (unanswered took wakes ∷ attempts) h k l m
        fits =
      elim (Bool-cases (timer_wins (pos timeout) (pos interval) (now + took) wakes)) [
        | inl e ↦
            let due = timer_wins-le timeout interval (now + took) wakes (omega arith) e in
            let next : ℕ = min timeout (interval * 2) in
            rw (e, next_announce_interval_lem timeout interval k room)
              (slept-EndsWithin interval left _ (omega arith) (
                announce_loop-EndsWithin next (now + took + interval) (left - interval) n attempts
                  (omega arith) (omega arith) (omega arith)
                  (less_left b left interval n h (omega arith) m) (omega arith)))
        | inr e ↦ rw e ((false, refl), omega arith)
      ]

-- The loops that send a message end by their deadline: both have ended after as many attempts as make
-- more than the timeout with the first interval, whatever the attempts' outcomes and times are, and have
-- slept for no longer than the timeout. The first interval is positive and not longer than the timeout,
-- which is below 2 ^ 62 nanoseconds.
pub retries_end :
    (timeout interval n : ℕ) (attempts : List Attempt)
    → 0 < interval
    → interval ≤ timeout
    → timeout < 2 ^ 62
    → timeout < n * interval
    → n ≤ length attempts
    → EndsWithin timeout (send_loop (pos timeout) (pos interval) 0 attempts)
      × EndsWithin timeout (announce_loop (pos timeout) (pos interval) 0 attempts)
retries_end timeout interval n attempts positive h room past fits = (
  send_loop-EndsWithin interval timeout positive room interval 0 timeout n attempts (omega arith) h
      (omega arith) past fits,
  announce_loop-EndsWithin interval timeout positive room interval 0 timeout n attempts
      (omega arith) h (omega arith) past fits,
)
