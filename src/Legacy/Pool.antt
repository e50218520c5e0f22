-- ===== src/Legacy/Pool.antt =====
-- fiber_lib/6hook/scheduler.h, scheduler.cpp: the scheduler with its threads. Each access to the list
-- of tasks or to a counter is one step of one thread, in any order; `start` holds the mutex from its
-- first line to its last, so it is one step. The thread that made the scheduler calls `stop` once.
-- `tickle`, `idle` and `stopping` are the class's own, not those that `IOManager` puts in their place.
-- In `idle` a thread sleeps and goes on; that the hooked `sleep` needs an `IOManager` is left out, so
-- the model has more histories than the class.
-- `F` are fibers and `C` callbacks; the numbers that the kernel gives to threads are arguments.
pub mod Counts
pub mod Orderly
pub mod Beginning
pub mod Stopped
use coroutine_library.Prelude.{
  zero, suc, ℕ, ◌+◌, ◌-◌, Bool, true, false, Option, none, some, if◌then◌else◌, List, [], ◌∷◌, ◌++◌,
  length, get_elem?, set, is_some, not, ◌&&◌, ◌||◌, ltb, ◌==◌,
}
use coroutine_library.Prelude.Int.{ℤ}
use coroutine_library.Legacy.Tasks.{
  ScheduleTask, TaskList, no_tasks, has_work, schedule_lock, take, executed, is_stopping,
  begin_idle, end_idle,
}

-- Where a thread is in `Scheduler::run`: before it; at the top of the loop; with a task; without
-- one; in the idle fiber; and back from the idle fiber, before `m_idleThreadCount--`.
pub data Phase (F C : Type 0) : Type 0 where
  unstarted seeking : Phase F C
  working : ScheduleTask F C → Phase F C
  unoccupied idling rested ended : Phase F C

-- `idle_ended` is whether the state of the thread's idle fiber is TERM.
pub record PoolWorker (F C : Type 0) : Type 0 where
  pub thread : ℤ
  pub phase : Phase F C
  pub idle_ended : Bool

-- Where the thread that calls `stop` is: before the call, in the scheduler's fiber, in the joins, and
-- back from it.
pub data Caller : Type 0 where
  outside_stop in_fiber in_joins returned : Caller

-- The fields of `Scheduler`; `workers` are the threads that run `run`, the caller's own thread first
-- if it is used, and `held` is the size of `m_threads`. `submissions` counts the tasks that the list
-- has taken and `executions` those that a thread has executed.
pub record Pool (F C : Type 0) : Type 0 where
  pub list : TaskList F C
  pub workers : List (PoolWorker F C)
  pub use_caller : Bool
  pub thread_count : ℕ
  pub held : ℕ
  pub caller : Caller
  pub submissions : ℕ
  pub executions : ℕ

-- What can happen: a thread takes a step; a task that the thread executes submits another; any other
-- code submits one; `start`; and a step of the thread that calls `stop`.
pub data PoolEvent (F C : Type 0) : Type 0 where
  worker_acts : ℕ → PoolEvent F C
  spawns : ℕ → ScheduleTask F C → PoolEvent F C
  arrives : ScheduleTask F C → PoolEvent F C
  starts : (ℕ → ℤ) → PoolEvent F C
  stop_acts : Bool → PoolEvent F C

module _ {F C : Type 0} where
  new_worker : Phase F C → ℤ → PoolWorker F C
  new_worker phase id = record { thread = id; phase = phase; idle_ended = false }

  -- `Scheduler(threads, use_caller, name)`: `free` is whether the thread has no scheduler yet, and
  -- `root` is its number.
  unfoldable pub construct : ℕ → Bool → Bool → ℤ → Option (Pool F C)
  unfolding new_worker
  construct threads use_caller free root =
      if ltb 0 threads && free
      then some (record {
        list = no_tasks;
        workers = if use_caller then new_worker unstarted root ∷ [] else [];
        use_caller = use_caller;
        thread_count = if use_caller then threads - 1 else threads;
        held = 0;
        caller = outside_stop;
        submissions = 0;
        executions = 0;
      })
      else none

  -- The new threads, each at the top of its loop; `ids` are their numbers.
  unfoldable pub new_workers : ℕ → (ℕ → ℤ) → List (PoolWorker F C)
  unfolding new_worker
  new_workers zero ids = []
  new_workers (suc n) ids = new_worker seeking (ids 0) ∷ new_workers n (λ i. ids (suc i))

  -- `Scheduler::start`.
  unfoldable pub start : (ℕ → ℤ) → Pool F C → Option (Pool F C)
  unfolding new_workers
  start ids p =
      if p.list.stopping
      then some p
      else if not (p.held == 0)
      then none
      else some (record p {
        workers = p.workers ++ new_workers p.thread_count ids;
        held = p.thread_count;
      })

  -- `scheduleLock`, with the count of the tasks that are kept.
  unfoldable pub submit_task : ScheduleTask F C → Pool F C → Pool F C
  submit_task t p = record p {
    list = schedule_lock t p.list;
    submissions = if has_work t then p.submissions + 1 else p.submissions;
  }

  -- A thread at the top of the loop, with what `take` answers.
  unfoldable pub sought :
      PoolWorker F C
      → Option (ScheduleTask F C) × TaskList F C
      → Pool F C
      → PoolWorker F C × Pool F C
  sought w (none, l) p = (record w { phase = unoccupied }, record p { list = l })
  sought w (some t, l) p = (record w { phase = working t }, record p { list = l })

  -- One step of a thread: what it is then, and the rest of the scheduler.
  unfoldable pub worker_act : Phase F C → PoolWorker F C → Pool F C → PoolWorker F C × Pool F C
  unfolding sought
  worker_act unstarted w p = (w, p)
  worker_act seeking w p = sought w (take w.thread p.list) p
  worker_act (working t) w p = (
    record w { phase = seeking },
    record p { list = executed p.list; executions = p.executions + 1 },
  )
  worker_act unoccupied w p =
      if w.idle_ended
      then (record w { phase = ended }, p)
      else (record w { phase = idling }, record p { list = begin_idle p.list })
  worker_act idling w p =
      (record w { phase = rested; idle_ended = w.idle_ended || is_stopping p.list }, p)
  worker_act rested w p = (record w { phase = seeking }, record p { list = end_idle p.list })
  worker_act ended w p = (w, p)

  unfoldable pub put_worker : ℕ → PoolWorker F C × Pool F C → Pool F C
  put_worker i (w, p) = record p { workers = set p.workers i w }

  unfoldable pub worker_found : ℕ → Pool F C → Option (PoolWorker F C) → Pool F C
  unfolding worker_act put_worker
  worker_found i p none = p
  worker_found i p (some w) = put_worker i (worker_act w.phase w p)

  unfoldable pub worker_step : ℕ → Pool F C → Pool F C
  unfolding worker_found
  worker_step i p = worker_found i p (get_elem? p.workers i)

  unfoldable pub is_working : PoolWorker F C → Bool
  is_working w = elim w.phase [
    | unstarted ↦ false
    | seeking ↦ false
    | working t ↦ true
    | unoccupied ↦ false
    | idling ↦ false
    | rested ↦ false
    | ended ↦ false
  ]

  unfoldable pub has_ended : PoolWorker F C → Bool
  has_ended w = elim w.phase [
    | unstarted ↦ false
    | seeking ↦ false
    | working t ↦ false
    | unoccupied ↦ false
    | idling ↦ false
    | rested ↦ false
    | ended ↦ true
  ]

  unfoldable pub all_ended : List (PoolWorker F C) → Bool
  unfolding has_ended
  all_ended [] = true
  all_ended (w ∷ ws) = has_ended w && all_ended ws

  unfoldable pub first_ended : Option (PoolWorker F C) → Bool
  unfolding has_ended
  first_ended none = false
  first_ended (some w) = has_ended w

  unfoldable pub wake_all : ℕ → TaskList F C → TaskList F C
  wake_all n l = record l { wakes = l.wakes + n }

  unfoldable pub is_unstarted : PoolWorker F C → Bool
  is_unstarted w = elim w.phase [
    | unstarted ↦ true
    | seeking ↦ false
    | working t ↦ false
    | unoccupied ↦ false
    | idling ↦ false
    | rested ↦ false
    | ended ↦ false
  ]

  -- `m_schedulerFiber->resume()`, which asserts that the fiber has not been resumed yet.
  unfoldable pub resume_root : Pool F C → Option (PoolWorker F C) → Option (Pool F C)
  unfolding is_unstarted
  resume_root p none = none
  resume_root p (some w) =
      if is_unstarted w
      then some
          (record p { workers = set p.workers 0 (record w { phase = seeking }); caller = in_fiber })
      else none

  -- `stop` up to the point where it resumes its fiber or joins; `here` is whether the thread's
  -- scheduler is this one.
  unfoldable pub stop_begins : Bool → Pool F C → Option (Pool F C)
  unfolding wake_all resume_root
  stop_begins here p =
      let l : TaskList F C = record p.list { stopping = true } in
      if is_stopping p.list
      then some (record p { caller = returned })
      else if p.use_caller
      then (if here
          then resume_root (record p { list = wake_all (p.thread_count + 1) l })
              (get_elem? p.workers 0)
          else none)
      else if here
      then none
      else some (record p { list = wake_all p.thread_count l; held = 0; caller = in_joins })

  -- The thread that calls `stop`: the call, the return of the fiber, and the end of the last join.
  unfoldable pub caller_act : Caller → Bool → Pool F C → Option (Pool F C)
  unfolding stop_begins first_ended all_ended
  caller_act outside_stop here p = stop_begins here p
  caller_act in_fiber here p =
      some (
        if first_ended (get_elem? p.workers 0) then record p { held = 0; caller = in_joins } else p)
  caller_act in_joins here p =
      some (if all_ended p.workers then record p { caller = returned } else p)
  caller_act returned here p = some p

  unfoldable pub spawn_found : ScheduleTask F C → Pool F C → Option (PoolWorker F C) → Pool F C
  unfolding is_working submit_task
  spawn_found t p none = p
  spawn_found t p (some w) = if is_working w then submit_task t p else p

  unfoldable pub pool_step : PoolEvent F C → Pool F C → Option (Pool F C)
  unfolding worker_step spawn_found submit_task start caller_act
  pool_step (worker_acts i) p = some (worker_step i p)
  pool_step (spawns i t) p = some (spawn_found t p (get_elem? p.workers i))
  pool_step (arrives t) p = some (submit_task t p)
  pool_step (starts ids) p = start ids p
  pool_step (stop_acts here) p = caller_act p.caller here p
