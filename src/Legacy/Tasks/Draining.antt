-- ===== src/Legacy/Tasks/Draining.antt =====
-- fiber_lib/6hook/scheduler.cpp: one thread that works through the list of tasks.
use coroutine_library.Prelude.{◌≡◌, Bool, some, if◌then◌else◌, List, [], ◌∷◌}
use coroutine_library.Prelude.Int.{ℤ}
use coroutine_library.Legacy.Tasks.{
  ScheduleTask, TaskList, Execution, find_task, turn, execute, may_run,
}

module _ {F C : Type 0} where
  -- The executions of these tasks, one for each turn.
  abbrev pub executions : List (F → Bool) → Bool → List (ScheduleTask F C) → List (Execution F C)
  executions [] idle_ended ts = []
  executions (has_ended ∷ es) idle_ended [] = []
  executions (has_ended ∷ es) idle_ended (t ∷ ts) =
      execute has_ended idle_ended (some t) ∷ executions es idle_ended ts

module _ {F C : Type 0} (thread : ℤ) where
  -- The tasks that the thread may run, and the others.
  abbrev pub runnable : List (ScheduleTask F C) → List (ScheduleTask F C)
  runnable [] = []
  runnable (t ∷ ts) = if may_run thread t then t ∷ runnable ts else runnable ts

  abbrev pub others : List (ScheduleTask F C) → List (ScheduleTask F C)
  others [] = []
  others (t ∷ ts) = if may_run thread t then others ts else t ∷ others ts

  -- The walk finds the first task that the thread may run and leaves the others as they were.
  record Finds (ts : List (ScheduleTask F C)) (t : ScheduleTask F C) (rs : List (ScheduleTask F C))
      : Type 0 where
    task : (find_task thread ts).task ≡ some t
    rest : runnable (find_task thread ts).left ≡ rs
    same : others (find_task thread ts).left ≡ others ts

  -- What one turn does when there is a task for the thread.
  record Turns (has_ended : F → Bool) (idle_ended : Bool) (s : TaskList F C) (t : ScheduleTask F C)
      (rs : List (ScheduleTask F C)) : Type 0 where
    did : (turn has_ended idle_ended thread s).0 ≡ execute has_ended idle_ended (some t)
    rest : runnable (turn has_ended idle_ended thread s).1.tasks ≡ rs
    same : others (turn has_ended idle_ended thread s).1.tasks ≡ others s.tasks
    active : (turn has_ended idle_ended thread s).1.active ≡ s.active
