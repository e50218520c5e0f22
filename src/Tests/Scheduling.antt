-- ===== src/Tests/Scheduling.antt =====
-- The scheduler on concrete inputs: two workers, whose tasks are numbers.
use coroutine_library.Prelude.{
  ℕ, ◌+◌, ◌<◌, ◌≡◌, refl, true, false, none, some, List, [], ◌∷◌, length, arith,
}
use coroutine_library.Prelude.Int.{minus_one}
use coroutine_library.Prelude.Words.{size_mod}
use coroutine_library.Floats.{Fixed, millionths}
use coroutine_library.Deque.{Deque, push, empty_deque}
use coroutine_library.Deque.Sequential.{empty_deque-Holds}
use coroutine_library.Deque.Runs.{unsnoc}
use coroutine_library.Deque.Sequential.{Holds, push-Holds}
use coroutine_library.Ingress.{drain}
use coroutine_library.Scheduler.{RunnableTask, Worker, Scheduler, accepted, submit}
use coroutine_library.Scheduler.Take.{fetch}
use coroutine_library.Scheduler.Fetch.{Contents, spec_fetch, fetch-spec_fetch}
use coroutine_library.Scheduler.Conserving.{Stored, AllContents, Conserves, take_task-Conserves}
use coroutine_library.Scheduler.Take.{take_task}
use coroutine_library.Scheduler.Submission.{Received, submit-Received}
use coroutine_library.Scheduler.Run.{worker_loop, Readings}
use coroutine_library.Scheduler.Draining.{rounds_of, worker_loop-stopped}
use mathlib.Core.List.{reverse}
use coroutine_library.Prelude.{get_elem?}
use coroutine_library.Tests.Balancing.{settings, settings-valid, worker_with, fresh_collector}

abbrev task : ℕ → RunnableTask ℕ
task n = record { function = n; submitted_worker = 0 }

abbrev worker : ℕ → List (RunnableTask ℕ) → Worker Fixed ℕ
worker id tasks = record {
  id = id;
  local = empty_deque;
  ingress = record { head = tasks; is_closed = false };
  snapshot = worker_with id 0;
  cpu_id = minus_one;
  alive = true;
}

abbrev two_workers : Scheduler Fixed ℕ
two_workers = record {
  config = settings;
  load_balancer = record { config = settings; round_robin_index = 0 };
  workers = worker 0 (task 2 ∷ task 1 ∷ []) ∷ worker 1 [] ∷ [];
  running = true;
  stopping = false;
  collector = fresh_collector;
  submitted_count = 2;
  completed_count = 0;
  steal_count = 0;
}

first_worker-Contents : Contents (worker 0 (task 2 ∷ task 1 ∷ [])) [] (task 1 ∷ task 2 ∷ [])
unfolding drain
first_worker-Contents = record { local = empty_deque-Holds; pending = refl }

first_worker-small :
    (worker 0 (task 2 ∷ task 1 ∷ [])).local.bottom + length (task 1 ∷ task 2 ∷ []) < size_mod
unfolding empty_deque
first_worker-small = omega arith

fetch-spec_fetch_example :
    ((fetch (worker 0 (task 2 ∷ task 1 ∷ []))).0
      ≡ (spec_fetch (unsnoc []) (task 1 ∷ task 2 ∷ [])).0)
    × Contents
        (fetch (worker 0 (task 2 ∷ task 1 ∷ []))).1
        (spec_fetch (unsnoc []) (task 1 ∷ task 2 ∷ [])).1
        (spec_fetch (unsnoc []) (task 1 ∷ task 2 ∷ [])).2
fetch-spec_fetch_example =
    fetch-spec_fetch (worker 0 (task 2 ∷ task 1 ∷ [])) [] (task 1 ∷ task 2 ∷ [])
      first_worker-Contents first_worker-small

submit-Received_example :
    (i : ℕ) × (s' : Scheduler Fixed ℕ) × (submit millionths (some 7) none two_workers
      ≡ some (accepted, s'))
    × (i < length two_workers.workers)
    × Received i 7 two_workers s'
submit-Received_example =
    submit-Received millionths 7 none two_workers refl refl (omega arith) settings-valid
      (refl, (refl, tt))

-- A stopped scheduler whose first worker has two tasks in its deque and two that wait.
abbrev filled : Deque (RunnableTask ℕ)
filled = (push (some (task 6)) (push (some (task 5)) empty_deque).1).1

filled-Holds : Holds filled (task 5 ∷ task 6 ∷ [])
unfolding push empty_deque
filled-Holds =
    (push-Holds _ (task 5 ∷ []) (task 6)
      (push-Holds empty_deque [] (task 5) empty_deque-Holds (omega arith) (omega arith)).1
      (omega arith) (omega arith)).1

abbrev loaded : Worker Fixed ℕ
loaded = record (worker 0 (task 2 ∷ task 1 ∷ [])) { local = filled }

loaded-Contents : Contents loaded (task 5 ∷ task 6 ∷ []) (task 1 ∷ task 2 ∷ [])
unfolding drain
loaded-Contents = record { local = filled-Holds; pending = refl }

abbrev at_stop : Scheduler Fixed ℕ
at_stop = record two_workers { workers = loaded ∷ []; running = false; stopping = true }

-- The second worker has nothing and takes from the first.
abbrev thief_and_loaded : Scheduler Fixed ℕ
thief_and_loaded = record two_workers { workers = loaded ∷ worker 1 [] ∷ [] }

abbrev all_tasks : List (Stored ℕ)
all_tasks =
    record { deque = task 5 ∷ task 6 ∷ []; pending = task 1 ∷ task 2 ∷ [] }
    ∷ record { deque = []; pending = [] }
    ∷ []

all_tasks-AllContents : AllContents thief_and_loaded.workers all_tasks
unfolding drain
all_tasks-AllContents =
    (loaded-Contents, (record { local = empty_deque-Holds; pending = refl }, tt))

thief-small : (worker 1 []).local.bottom + 0 < size_mod
unfolding empty_deque
thief-small = omega arith

take_task-Conserves_example :
    Conserves (take_task 1 thief_and_loaded).0 (take_task 1 thief_and_loaded).1.workers all_tasks
take_task-Conserves_example =
    take_task-Conserves 1 thief_and_loaded all_tasks (worker 1 [])
      (record { deque = []; pending = [] }) all_tasks-AllContents refl refl (omega arith)
      thief-small

theft : (take_task 1 thief_and_loaded).0 ≡ some (task 5)
unfolding take_task fetch coroutine_library.Deque.pop empty_deque
    coroutine_library.Scheduler.Take.push_all drain coroutine_library.Scheduler.Take.steal_first
    coroutine_library.Deque.steal push
theft = refl

abbrev clock : Readings
clock = record { idle_at = 1; started = 2; finished = 3; ended = 4 }

worker_loop-stopped_example :
    (s' : Scheduler Fixed ℕ) × (w' : Worker Fixed ℕ) × (worker_loop millionths 0
        (clock ∷ clock ∷ [])
        at_stop
      ≡ some (rounds_of (reverse (task 5 ∷ task 6 ∷ [])), s'))
    × (get_elem? s'.workers 0 ≡ some w')
    × Contents w' [] (task 1 ∷ task 2 ∷ [])
worker_loop-stopped_example =
    worker_loop-stopped millionths 0 (clock ∷ clock ∷ []) at_stop loaded (task 5 ∷ task 6 ∷ [])
      (task 1 ∷ task 2 ∷ []) refl refl loaded-Contents (omega arith)
