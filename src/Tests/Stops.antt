-- ===== src/Tests/Stops.antt =====
-- Concrete schedulers of the earlier library, from their construction to the end of `stop`.
use coroutine_library.Prelude.{
  ℕ, zero, suc, ◌+◌, ◌≡◌, refl, Bool, true, false, Option, none, some, List, [], ◌∷◌, is_some, not,
  ◌&&◌, length, get_elem?, arith,
}
use coroutine_library.Prelude.Int.{pos, minus_one}
use coroutine_library.Legacy.Tasks.{
  ScheduleTask, take, schedule_lock, executed, is_stopping, begin_idle, end_idle,
}
use coroutine_library.Legacy.Pool.{
  Pool, PoolWorker, ended, returned, unstarted, outside_stop, PoolEvent, worker_acts, spawns,
  arrives, starts, stop_acts, construct, pool_step, is_working, has_ended,
}
use coroutine_library.Legacy.Pool.Stopped.{
  PoolReached, constructed, advanced, IsOnTime, ended-quiet, stop-executions,
}

or_same : {F C : Type 0} → Pool F C → Option (Pool F C) → Pool F C
or_same p none = p
or_same p (some q) = q

abbrev next : PoolEvent ℕ ℕ → Pool ℕ ℕ → Pool ℕ ℕ
next e p = or_same p (pool_step e p)

abbrev is_on_time : PoolEvent ℕ ℕ → Pool ℕ ℕ → Bool
is_on_time (worker_acts i) p = true
is_on_time (spawns i t) p = true
is_on_time (arrives t) p = not p.list.stopping
is_on_time (starts ids) p = true
is_on_time (stop_acts here) p = true

abbrev play : List (PoolEvent ℕ ℕ) → Pool ℕ ℕ → Pool ℕ ℕ
play [] p = p
play (e ∷ es) p = play es (next e p)

abbrev is_fine : List (PoolEvent ℕ ℕ) → Pool ℕ ℕ → Bool
is_fine [] p = true
is_fine (e ∷ es) p = is_some (pool_step e p) && (is_on_time e p && is_fine es (next e p))

on_time : (e : PoolEvent ℕ ℕ) (p : Pool ℕ ℕ) → is_on_time e p ≡ true → IsOnTime e p
on_time (worker_acts i) p h = tt
on_time (spawns i t) p h = tt
on_time (arrives t) p h = ground arith
on_time (starts ids) p h = tt
on_time (stop_acts here) p h = tt

or_same-some : (p : Pool ℕ ℕ) (q : Option (Pool ℕ ℕ)) → is_some q ≡ true → q ≡ some (or_same p q)
unfolding or_same
or_same-some p none h = absurd (cc)
or_same-some p (some q) h = refl

played :
    (es : List (PoolEvent ℕ ℕ)) (p : Pool ℕ ℕ)
    → PoolReached p
    → is_fine es p ≡ true
    → PoolReached (play es p)
played [] p r h = r
played (e ∷ es) p r h =
    played es (next e p)
      (advanced e r (on_time e p (ground arith)) (or_same-some p (pool_step e p) (ground arith)))
      (ground arith)

abbrev take_events : ℕ → List (PoolEvent ℕ ℕ) → List (PoolEvent ℕ ℕ)
take_events n [] = []
take_events zero (e ∷ es) = []
take_events (suc n) (e ∷ es) = e ∷ take_events n es

abbrev job : ℕ → ScheduleTask ℕ ℕ
job n = record { fiber = none; cb = some n; thread = minus_one }

abbrev nobody : Pool ℕ ℕ
nobody = record {
  list = record { tasks = []; active = 0; idle = 0; stopping = false; wakes = 0 };
  workers = record { thread = pos 1; phase = unstarted; idle_ended = false } ∷ [];
  use_caller = true;
  thread_count = 1;
  held = 0;
  caller = outside_stop;
  submissions = 0;
  executions = 0;
}

first : PoolReached nobody
unfolding construct
first = constructed 2 true true (pos 1) (omega arith) refl

-- The new thread takes a job that submits another; `stop` begins meanwhile, and the caller's thread
-- takes the second one.
abbrev job_day : List (PoolEvent ℕ ℕ)
job_day =
    starts (λ n. pos (n + 7))
    ∷ arrives (job 1)
    ∷ worker_acts 1
    ∷ stop_acts true
    ∷ worker_acts 0
    ∷ worker_acts 0
    ∷ spawns 1 (job 2)
    ∷ worker_acts 1
    ∷ worker_acts 0
    ∷ worker_acts 0
    ∷ worker_acts 0
    ∷ worker_acts 1
    ∷ worker_acts 0
    ∷ worker_acts 0
    ∷ worker_acts 0
    ∷ worker_acts 0
    ∷ worker_acts 0
    ∷ worker_acts 0
    ∷ worker_acts 0
    ∷ worker_acts 1
    ∷ worker_acts 1
    ∷ worker_acts 1
    ∷ worker_acts 1
    ∷ worker_acts 1
    ∷ worker_acts 1
    ∷ stop_acts true
    ∷ stop_acts true
    ∷ []

abbrev last : Pool ℕ ℕ
last = play job_day nobody

last_reached : PoolReached last
unfolding pool_step take schedule_lock is_stopping end_idle executed begin_idle or_same
last_reached = played job_day nobody first refl

last_returned : (last.caller ≡ returned) × (length last.workers ≡ 2) × (last.executions ≡ 2)
unfolding pool_step take schedule_lock is_stopping end_idle executed begin_idle or_same
last_returned = (refl, refl, refl)

stop-executions_example : (last.list.tasks ≡ []) × (last.executions ≡ last.submissions)
stop-executions_example =
    stop-executions last last_reached last_returned.0 (omega (arith, last_returned.1))

-- The caller's thread has left while the other has not.
abbrev root_left : Pool ℕ ℕ
root_left = play (take_events 19 job_day) nobody

abbrev root_worker : PoolWorker ℕ ℕ
root_worker = record { thread = pos 1; phase = ended; idle_ended = true }

root_reached : PoolReached root_left
unfolding pool_step take schedule_lock is_stopping end_idle executed begin_idle or_same
root_reached = played (take_events 19 job_day) nobody first refl

root_there : get_elem? root_left.workers 0 ≡ some root_worker
unfolding pool_step take schedule_lock is_stopping end_idle executed begin_idle or_same
root_there = refl

root_ended : has_ended root_worker ≡ true
unfolding has_ended
root_ended = refl

ended-quiet_example :
    (root_left.list.stopping ≡ true)
    × (root_left.list.tasks ≡ [])
    × ((j : ℕ) (v : PoolWorker ℕ ℕ) → get_elem? root_left.workers j ≡ some v → is_working v ≡ false)
ended-quiet_example = ended-quiet root_left 0 root_worker root_reached root_there root_ended
