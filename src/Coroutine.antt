-- ===== src/Coroutine.antt =====
-- include/coroutine/coroutine.h, src/coroutine.cpp: coroutines of one thread and the transfers of
-- control between them. A coroutine's body is whatever sequence of calls the contexts make: a step
-- is one call by the context that runs. Contexts are switched as `swapcontext` documents it, and a
-- switch does not fail.
pub mod Control
pub mod Transfer
pub mod Cancellation
pub mod Nesting
use coroutine_library.Prelude.{
  ℕ, ◌≡◌, Bool, true, false, Option, none, some, if◌then◌else◌, List, [], ◌∷◌, not, ◌||◌, ◌&&◌,
}
use coroutine_library.Prelude.Maps.{Map, put, empty_map, nat_eq}

pub data CoroutineState : Type 0 where
  ready running waiting finished cancelled : CoroutineState

-- `suspended` says that `context` holds a point at which the coroutine can be entered: at first its
-- entry, later the switch by which it left.
pub record Coroutine : Type 0 where
  pub state : CoroutineState
  pub is_cancelled : Bool
  pub suspended : Bool

-- `control` lists the coroutines whose `resume` has not returned, the running one first; the
-- thread's own context lies behind them. `current` and `owner` are the thread-local variables.
pub record World : Type 0 where
  pub coroutines : Map ℕ Coroutine
  pub current : Option ℕ
  pub owner : Option ℕ
  pub control : List ℕ

unfoldable pub new_coroutine : Coroutine
new_coroutine = record { state = ready; is_cancelled = false; suspended = true }

-- A call answers at once, or control passes to another context. `corrupt` is a call on a coroutine
-- that is not there, or a switch into a context that is running.
pub data Outcome : Type 0 where
  answered : Bool → World → Outcome
  switched : World → Outcome
  corrupt : Outcome

pub data Action : Type 0 where
  resumes cancels : ℕ → Action
  yields waits returns : Action

abbrev pub is_finished : CoroutineState → Bool
is_finished finished = true
is_finished _ = false

abbrev pub is_ready : CoroutineState → Bool
is_ready ready = true
is_ready _ = false

abbrev pub is_waiting : CoroutineState → Bool
is_waiting waiting = true
is_waiting _ = false

abbrev pub tail_of : List ℕ → List ℕ
tail_of [] = []
tail_of (c ∷ cs) = cs

abbrev pub set_state : ℕ → CoroutineState → Bool → Coroutine → World → World
set_state c s suspended co w = record w {
  coroutines = put w.coroutines c (record co { state = s; suspended = suspended });
}

-- `resume`, up to the switch into the coroutine; there `entry`, or the rest of `yield` or `wait`,
-- sets `current` and the state to the same values once more.
pub resume_found : ℕ → World → Option Coroutine → Outcome
resume_found c w none = corrupt
resume_found c w (some co) =
    if co.is_cancelled || is_finished co.state
    then answered false w
    else if not co.suspended
    then corrupt
    else switched
        (record (set_state c running false co w) { current = some c; control = c ∷ w.control })

unfoldable pub resume : ℕ → World → Outcome
unfolding resume_found
resume c w = resume_found c w (w.coroutines c)

returned_found : Option Coroutine → Bool
returned_found none = false
returned_found (some co) = not (is_finished co.state)

-- What `resume` returns when control has come back to it.
unfoldable pub resume_returns : ℕ → World → Bool
unfolding returned_found
resume_returns c w = returned_found (w.coroutines c)

-- `yield` and `wait` up to the switch to the caller, and the rest of the caller's `resume`.
leave_found : ℕ → CoroutineState → World → Option Coroutine → Outcome
leave_found c s w none = corrupt
leave_found c s w (some co) =
    switched (record (set_state c s true co w) { current = none; control = tail_of w.control })

pub leave_current : CoroutineState → World → Option ℕ → Outcome
unfolding leave_found
leave_current s w none = answered false w
leave_current s w (some c) = leave_found c s w (w.coroutines c)

unfoldable pub yield : World → Outcome
unfolding leave_current
yield w = leave_current ready w w.current

unfoldable pub wait : World → Outcome
unfolding leave_current
wait w = leave_current waiting w w.current

-- The end of `entry`, also by an exception, and the rest of the caller's `resume`. The thread's own
-- context has no `entry`.
finish_found : ℕ → List ℕ → World → Option Coroutine → Outcome
finish_found c rest w none = corrupt
finish_found c rest w (some co) =
    switched (record (set_state c finished false co w) { current = none; control = rest })

finish_first : World → List ℕ → Outcome
unfolding finish_found
finish_first w [] = answered false w
finish_first w (c ∷ rest) = finish_found c rest w (w.coroutines c)

unfoldable pub finish : World → Outcome
unfolding finish_first
finish w = finish_first w w.control

cancel_found : ℕ → World → Option Coroutine → Outcome
cancel_found c w none = corrupt
cancel_found c w (some co) = answered true (record w {
  coroutines = put w.coroutines c (record co {
    is_cancelled = true;
    state = if is_finished co.state then finished else cancelled;
  });
})

unfoldable pub cancel : ℕ → World → Outcome
unfolding cancel_found
cancel c w = cancel_found c w (w.coroutines c)

unfoldable pub step : Action → World → Outcome
step (resumes c) w = resume c w
step (cancels c) w = cancel c w
step yields w = yield w
step waits w = wait w
step returns w = finish w

unfoldable pub after : Outcome → Option World
after (answered b w) = some w
after (switched w) = some w
after corrupt = none

run_next : (World → Option World) → Option World → Option World
run_next k none = none
run_next k (some w) = k w

unfoldable pub run : List Action → World → Option World
unfolding run_next after
run [] w = some w
run (a ∷ as') w = run_next (run as') (after (step a w))

-- The task that `Scheduler::submit_coroutine` makes: it sets the owner and resumes a coroutine that
-- is ready or waiting; `false` says that there was nothing to resume.
scheduled_found : ℕ → World → Option Coroutine → Outcome
scheduled_found c w none = corrupt
scheduled_found c w (some co) =
    if is_ready co.state || is_waiting co.state
    then resume c (record w { owner = some c })
    else answered false (record w { owner = some c })

unfoldable pub scheduled : ℕ → World → Outcome
unfolding scheduled_found
scheduled c w = scheduled_found c w (w.coroutines c)

resubmit_found : Option Coroutine → Bool
resubmit_found none = false
resubmit_found (some co) = is_ready co.state

-- The rest of that task, when `resume` has returned: whether the coroutine is submitted again.
unfoldable pub resubmits_coroutine : ℕ → World → Bool × World
unfolding resubmit_found
resubmits_coroutine c w = (resubmit_found (w.coroutines c), record w { owner = none })
