-- ===== src/Legacy/Tasks.antt =====
-- fiber_lib/6hook/scheduler.h, scheduler.cpp: the list of tasks that all worker threads share. `F`
-- are fibers and `C` callbacks. A method that holds the mutex is one step; thread numbers are those
-- of the kernel, and -1 stands for any thread.
pub mod Order
pub mod Stopping
pub mod Draining
use coroutine_library.Prelude.{
  zero, suc, ℕ, ◌+◌, Bool, true, false, Option, none, some, if◌then◌else◌, List, [], ◌∷◌, ◌++◌,
  is_some, not, ◌&&◌, ◌||◌, ◌==◌,
}
use coroutine_library.Prelude.Int.{ℤ, minus_one, int_eq}
use coroutine_library.Prelude.Words.{add64, sub64}

pub record ScheduleTask (F C : Type 0) : Type 0 where
  pub fiber : Option F
  pub cb : Option C
  pub thread : ℤ

-- The fields that the methods below read or write. `wakes` counts the calls of `tickle`.
pub record TaskList (F C : Type 0) : Type 0 where
  pub tasks : List (ScheduleTask F C)
  pub active : ℕ
  pub idle : ℕ
  pub stopping : Bool
  pub wakes : ℕ

-- What the walk over the tasks finds: the task, the list without it, whether one was passed over,
-- and whether the walk stopped before the end. After `erase` the iterator stands on what follows.
pub record Found (F C : Type 0) : Type 0 where
  pub task : Option (ScheduleTask F C)
  pub left : List (ScheduleTask F C)
  pub passed : Bool
  pub more : Bool

-- What a thread does with a task: a fiber is resumed unless it has ended, a callback gets a new
-- fiber.
pub data Execution (F C : Type 0) : Type 0 where
  resumes : F → Execution F C
  skips : F → Execution F C
  calls : C → Execution F C
  idles : Execution F C
  leaves : Execution F C

abbrev pub is_empty_list {ℓ} : {A : Type ℓ} → List A → Bool
is_empty_list [] = true
is_empty_list (x ∷ xs) = false

module _ {F C : Type 0} where
  -- `task.fiber || task.cb`.
  unfoldable pub has_work : ScheduleTask F C → Bool
  has_work t = is_some t.fiber || is_some t.cb

  unfoldable pub tickle_if : Bool → TaskList F C → TaskList F C
  tickle_if b s = if b then record s { wakes = s.wakes + 1 } else s

  -- `scheduleLock`: a task with neither fiber nor callback is not kept, but the threads are woken.
  unfoldable pub schedule_lock : ScheduleTask F C → TaskList F C → TaskList F C
  unfolding has_work tickle_if
  schedule_lock t s =
      tickle_if (is_empty_list s.tasks)
        (if has_work t then record s { tasks = s.tasks ++ t ∷ [] } else s)

  -- Whether the thread may run the task.
  unfoldable pub may_run : ℤ → ScheduleTask F C → Bool
  may_run thread t = int_eq t.thread minus_one || int_eq t.thread thread

  unfoldable pub passed_over : ScheduleTask F C → Found F C → Found F C
  passed_over t f = record f { left = t ∷ f.left; passed = true }

  unfoldable pub find_task : ℤ → List (ScheduleTask F C) → Found F C
  unfolding may_run passed_over
  find_task thread [] = record { task = none; left = []; passed = false; more = false }
  find_task thread (t ∷ ts) =
      let rest = passed_over t (find_task thread ts) in
      if may_run thread t
      then record { task = some t; left = ts; passed = false; more = not (is_empty_list ts) }
      else rest

  unfoldable pub taken : Found F C → TaskList F C → TaskList F C
  taken f s =
      if is_some f.task
      then record s { tasks = f.left; active = add64 s.active 1 }
      else record s { tasks = f.left }

  -- The part of `run`'s loop before the task is executed.
  unfoldable pub take : ℤ → TaskList F C → Option (ScheduleTask F C) × TaskList F C
  unfolding find_task taken tickle_if
  take thread s =
      let f = find_task thread s.tasks in (f.task, tickle_if (f.passed || f.more) (taken f s))

  -- The count when a task has been executed.
  unfoldable pub executed : TaskList F C → TaskList F C
  executed s = record s { active = sub64 s.active 1 }

  -- `Scheduler::stopping`.
  unfoldable pub is_stopping : TaskList F C → Bool
  is_stopping s = s.stopping && (is_empty_list s.tasks && s.active == 0)

  execute_cb : Bool → Option C → Execution F C
  execute_cb idle_ended none = if idle_ended then leaves else idles
  execute_cb idle_ended (some c) = calls c

  execute_fiber : (F → Bool) → Bool → Option F → Option C → Execution F C
  unfolding execute_cb
  execute_fiber has_ended idle_ended none cb = execute_cb idle_ended cb
  execute_fiber has_ended idle_ended (some f) cb = if has_ended f then skips f else resumes f

  -- `has_ended` says which fibers are in state TERM, `idle_ended` whether the idle fiber is.
  unfoldable pub execute : (F → Bool) → Bool → Option (ScheduleTask F C) → Execution F C
  unfolding execute_fiber
  execute has_ended idle_ended none = execute_fiber has_ended idle_ended none none
  execute has_ended idle_ended (some t) = execute_fiber has_ended idle_ended t.fiber t.cb

  unfoldable pub settled : Option (ScheduleTask F C) → TaskList F C → TaskList F C
  unfolding executed
  settled none s = s
  settled (some t) s = executed s

  -- One turn of `run`'s loop while no other thread acts; the idle fiber's counts cancel out.
  unfoldable pub turn : (F → Bool) → Bool → ℤ → TaskList F C → Execution F C × TaskList F C
  unfolding take execute settled
  turn has_ended idle_ended thread s =
      let r = take thread s in (execute has_ended idle_ended r.0, settled r.0 r.1)

  -- A thread about to run its idle fiber, and after it.
  unfoldable pub begin_idle : TaskList F C → TaskList F C
  begin_idle s = record s { idle = add64 s.idle 1 }

  unfoldable pub end_idle : TaskList F C → TaskList F C
  end_idle s = record s { idle = sub64 s.idle 1 }

  -- The turns of one thread, with which fibers have ended at each: what it does, and the tasks then.
  unfoldable pub turns :
      List (F → Bool) → Bool → ℤ → TaskList F C → List (Execution F C) × TaskList F C
  unfolding turn
  turns [] idle_ended thread s = ([], s)
  turns (has_ended ∷ es) idle_ended thread s =
      let r = turn has_ended idle_ended thread s in
      let rest = turns es idle_ended thread r.1 in (r.0 ∷ rest.0, rest.1)

abbrev pub no_tasks : {F C : Type 0} → TaskList F C
no_tasks = record { tasks = []; active = 0; idle = 0; stopping = false; wakes = 0 }
