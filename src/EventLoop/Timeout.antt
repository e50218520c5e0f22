-- ===== src/EventLoop/Timeout.antt =====
-- src/event_loop.cpp: how long a round may sleep.
use coroutine_library.Prelude.{ℕ, ◌+◌, ◌*◌, ◌≤◌, ◌≡◌, Option, none, some, List, ◌∷◌, arith}
use coroutine_library.TimerQueue.{Entry, ns_per_ms}
use coroutine_library.TimerQueue.Live.{live, first_timeout}
use coroutine_library.TimerQueue.Contract.{Valid, next_timeout-first_timeout}
use coroutine_library.EventLoop.{EventLoop, shorter, wait_time}

shorter-le : (timeout : ℕ) (t : Option ℕ) → shorter timeout t ≤ timeout
shorter-le timeout none = omega arith
shorter-le timeout (some t) = omega arith

module _ {C : Type 0} where
  soonest :
      (e : Entry C) (es : List (Entry C)) (timeout now : ℕ)
      → now ≤ e.deadline
      → now + shorter timeout (first_timeout now (e ∷ es)) * ns_per_ms ≤ e.deadline
  unfolding first_timeout
  soonest e es timeout now ahead = omega arith

  -- A round sleeps no longer than it was asked to, and not past the deadline of the soonest timer
  -- that can still fire, if that lies ahead.
  pub wait_time-le :
      (now timeout : ℕ) (l : EventLoop C) (e : Entry C) (es : List (Entry C))
      → Valid l.timers
      → live l.timers.active l.timers.entries ≡ e ∷ es
      → now ≤ e.deadline
      → ((wait_time now timeout l).0 ≤ timeout)
        × (now + (wait_time now timeout l).0 * ns_per_ms ≤ e.deadline)
  unfolding wait_time
  wait_time-le now timeout l e es v eq ahead =
      rw (next_timeout-first_timeout now l.timers v, eq)
        (shorter-le timeout (first_timeout now (e ∷ es)), soonest e es timeout now ahead)
