-- ===== src/Election/Retry.antt =====
-- election/engine.go: the loops that send a message until it is answered, and the loop that collects
-- the answers. The outcome of each attempt is a parameter, and so is the time that it takes. A
-- `time.Duration` is an int64 of nanoseconds; the clock starts with the loop's context.
pub mod End
use pi_bully.Prelude.{
  ℕ, zero, suc, ◌+◌, ◌*◌, ◌%◌, ◌^◌, ◌≤◌, ◌<◌, ◌≡◌, refl, min, Bool, true, false, ◌||◌, Option, none,
  some, List, [], ◌∷◌, map, length, All, ltb, if◌then◌else◌, arith, ap, ℤ, pos, negsuc, to_int64,
  of_int64, u64_mod, Bool-cases, inl, inr,
}

-- `a < b` on signed integers.
abbrev pub int_ltb : ℤ → ℤ → Bool
int_ltb (pos a) (pos b) = ltb a b
int_ltb (pos a) (negsuc b) = false
int_ltb (negsuc a) (pos b) = true
int_ltb (negsuc a) (negsuc b) = ltb b a

-- `interval *= 2` on an int64, which wraps.
abbrev pub twice : ℤ → ℤ
twice interval = to_int64 (of_int64 interval * 2 % u64_mod)

-- How long a timer for this duration runs.
abbrev pub run_time : ℤ → ℕ
run_time (pos n) = n
run_time (negsuc n) = 0

-- An attempt is answered, or fails after a time; then the loop sleeps, or its deadline comes first.
-- Where both are due at one instant, `select` takes either: `wakes` says that it takes the timer.
pub data Attempt : Type 0 where
  replied : Bool → Attempt
  unanswered : (took : ℕ) → (wakes : Bool) → Attempt

-- The `select` after an attempt that has failed at the instant `now`: whether the timer wins.
unfoldable pub timer_wins : (timeout interval : ℤ) → (now : ℕ) → (wakes : Bool) → Bool
timer_wins timeout interval now wakes =
    let due = now + run_time interval in
    let expired = (if ltb now (run_time timeout) then run_time timeout else now) in
    if ltb due expired then true else (if ltb expired due then false else wakes)

-- The doubling in `sendToHigher`.
unfoldable pub next_send_interval : (timeout interval : ℤ) → ℤ
next_send_interval timeout interval =
    if int_ltb interval timeout
    then (if int_ltb timeout (twice interval) then timeout else twice interval)
    else interval

-- The doubling in `OnStartElection` and `declareLeader`.
unfoldable pub next_announce_interval : (timeout interval : ℤ) → ℤ
next_announce_interval timeout interval =
    if int_ltb timeout (twice interval) then timeout else twice interval

abbrev pub slept_for : ℤ → List ℤ × Option Bool → List ℤ × Option Bool
slept_for interval (waits, outcome) = (interval ∷ waits, outcome)

-- A goroutine of `sendToHigher` from an instant on: how long it sleeps each time, and what it puts into
-- `resultC`, if it has ended.
unfoldable pub send_loop : (timeout interval : ℤ) → (now : ℕ) → List Attempt → List ℤ × Option Bool
unfolding next_send_interval timer_wins
send_loop timeout interval now [] = ([], none)
send_loop timeout interval now (replied ok ∷ attempts) = ([], some ok)
send_loop timeout interval now (unanswered took wakes ∷ attempts) =
    let awake = now + took + run_time interval in
    let rest = send_loop timeout (next_send_interval timeout interval) awake attempts in
    if timer_wins timeout interval (now + took) wakes
    then slept_for interval rest
    else ([], some false)

-- A goroutine that announces the leader, from an instant on: how long it sleeps each time, and whether
-- the announcement was delivered, if it has ended. Any answer but an error is a delivery.
unfoldable pub announce_loop :
    (timeout interval : ℤ) → (now : ℕ) → List Attempt → List ℤ × Option Bool
unfolding next_announce_interval timer_wins
announce_loop timeout interval now [] = ([], none)
announce_loop timeout interval now (replied ok ∷ attempts) = ([], some true)
announce_loop timeout interval now (unanswered took wakes ∷ attempts) =
    let awake = now + took + run_time interval in
    let rest = announce_loop timeout (next_announce_interval timeout interval) awake attempts in
    if timer_wins timeout interval (now + took) wakes
    then slept_for interval rest
    else ([], some false)

-- What the collecting loop of `sendToHigher` receives.
pub data Arrival : Type 0 where
  result : Bool → Arrival
  deadline : Arrival

-- The loop over as many answers as there are higher nodes; `none` means that it still waits.
unfoldable pub collect : ℕ → List Arrival → Option Bool
collect zero arrivals = some false
collect (suc n) [] = none
collect (suc n) (result true ∷ arrivals) = some true
collect (suc n) (result false ∷ arrivals) = collect n arrivals
collect (suc n) (deadline ∷ arrivals) = some false

-- The documented waits: each twice the one before it, and never longer than the timeout.
abbrev pub doubling : ℕ → ℕ → ℕ → List ℕ
doubling timeout interval zero = []
doubling timeout interval (suc n) = interval ∷ doubling timeout (min timeout (interval * 2)) n

pub next_send_interval_lem :
    (timeout interval : ℕ)
    → interval ≤ timeout
    → timeout < 2 ^ 62
    → next_send_interval (pos timeout) (pos interval) ≡ pos (min timeout (interval * 2))
unfolding next_send_interval
next_send_interval_lem timeout interval h room = ground arith

pub next_announce_interval_lem :
    (timeout interval : ℕ)
    → interval ≤ timeout
    → timeout < 2 ^ 62
    → next_announce_interval (pos timeout) (pos interval) ≡ pos (min timeout (interval * 2))
unfolding next_announce_interval
next_announce_interval_lem timeout interval h room = ground arith

All-doubling :
    (timeout interval n : ℕ)
    → interval ≤ timeout
    → All (λ d. d ≤ timeout) (doubling timeout interval n)
All-doubling timeout interval zero h = tt
All-doubling timeout interval (suc n) h =
    (h, All-doubling timeout (min timeout (interval * 2)) n (omega arith))

send_loop-doubling :
    (timeout interval now : ℕ) (attempts : List Attempt)
    → interval ≤ timeout
    → timeout < 2 ^ 62
    → let waits = (send_loop (pos timeout) (pos interval) now attempts).0 in
      waits ≡ map pos (doubling timeout interval (length waits))
unfolding send_loop
send_loop-doubling timeout interval now [] h room = refl
send_loop-doubling timeout interval now (replied ok ∷ attempts) h room = refl
send_loop-doubling timeout interval now (unanswered took wakes ∷ attempts) h room =
    elim (Bool-cases (timer_wins (pos timeout) (pos interval) (now + took) wakes)) [
      | inl e ↦
          rw (e, next_send_interval_lem timeout interval h room)
            (ap (λ r. pos interval ∷ r)
              (send_loop-doubling timeout (min timeout (interval * 2)) (now + took + interval)
                attempts (omega arith) room))
      | inr e ↦ rw e refl
    ]

announce_loop-doubling :
    (timeout interval now : ℕ) (attempts : List Attempt)
    → interval ≤ timeout
    → timeout < 2 ^ 62
    → let waits = (announce_loop (pos timeout) (pos interval) now attempts).0 in
      waits ≡ map pos (doubling timeout interval (length waits))
unfolding announce_loop
announce_loop-doubling timeout interval now [] h room = refl
announce_loop-doubling timeout interval now (replied ok ∷ attempts) h room = refl
announce_loop-doubling timeout interval now (unanswered took wakes ∷ attempts) h room =
    elim (Bool-cases (timer_wins (pos timeout) (pos interval) (now + took) wakes)) [
      | inl e ↦
          rw (e, next_announce_interval_lem timeout interval h room)
            (ap (λ r. pos interval ∷ r)
              (announce_loop-doubling timeout (min timeout (interval * 2)) (now + took + interval)
                attempts (omega arith) room))
      | inr e ↦ rw e refl
    ]

-- Both loops back off alike, if the first interval is no longer than the timeout, and the timeout is
-- below 2 ^ 62 nanoseconds, so that no doubling wraps: each sleep is twice the one before it, cut at the
-- timeout, so that none is longer than the timeout.
pub retries_back_off :
    (timeout interval : ℕ) (attempts : List Attempt)
    → interval ≤ timeout
    → timeout < 2 ^ 62
    → let sends = (send_loop (pos timeout) (pos interval) 0 attempts).0 in
      let announces = (announce_loop (pos timeout) (pos interval) 0 attempts).0 in
      (sends ≡ map pos (doubling timeout interval (length sends)))
      × (announces ≡ map pos (doubling timeout interval (length announces)))
      × All (λ d. d ≤ timeout) (doubling timeout interval (length sends))
      × All (λ d. d ≤ timeout) (doubling timeout interval (length announces))
retries_back_off timeout interval attempts h room = (
  send_loop-doubling timeout interval 0 attempts h room,
  announce_loop-doubling timeout interval 0 attempts h room,
  All-doubling timeout interval _ h,
  All-doubling timeout interval _ h,
)

-- Some answer is positive.
abbrev pub any_true : List Bool → Bool
any_true [] = false
any_true (b ∷ bs) = b || any_true bs

-- When every higher node has answered before the deadline, the collecting loop ends, and answers
-- that a higher node is alive exactly if one of them said so.
collect_answers :
    (answers : List Bool) → collect (length answers) (map result answers) ≡ some (any_true answers)
unfolding collect
collect_answers [] = refl
collect_answers (true ∷ answers) = refl
collect_answers (false ∷ answers) = collect_answers answers
