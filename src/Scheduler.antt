-- ===== src/Scheduler.antt =====
-- include/coroutine/scheduler.h, src/scheduler.cpp: the workers, the way a task takes to one, and the
-- life of the scheduler. A task is a value of `T`, an empty `std::function` is `none`. Each function
-- is one step: what other threads do while it runs is left to the modules of the two queues.
pub mod Take
pub mod Fetch
pub mod Conserving
pub mod Submission
pub mod Lifecycle
pub mod Run
pub mod Draining
use coroutine_library.Prelude.{
  ℕ, zero, suc, ◌+◌, ◌-◌, Bool, true, false, Option, none, some, if◌then◌else◌, List, [], ◌∷◌, ltb,
  leb, ◌==◌, length, get_elem?, set, map, not, ◌||◌, ◌&&◌,
}
use coroutine_library.Prelude.Int.{ℤ, pos, minus_one}
use coroutine_library.Prelude.Words.{add64, size_max}
use coroutine_library.Floats.{Double}
use coroutine_library.Config.{RuntimeConfig, validate_config, effective_worker_count, ConfigError}
use coroutine_library.LoadBalancer.{
  WorkerLoadSnapshot, LoadBalancer, SelectionResult, chosen, refused, select,
}
use coroutine_library.Metrics.{
  MetricsCollector, RuntimeMetrics, Source, Counts, make_collector, collect,
}
use coroutine_library.Metrics
use coroutine_library.Deque.{Deque, empty_deque, pop, push, steal, approximate_size}
use coroutine_library.Ingress.{Ingress, empty_ingress, drain}
use coroutine_library.Ingress

pub record RunnableTask (T : Type 0) : Type 0 where
  pub function : T
  pub submitted_worker : ℕ

-- `alive` is `thread.joinable()`.
pub record Worker (D T : Type 0) : Type 0 where
  pub id : ℕ
  pub local : Deque (RunnableTask T)
  pub ingress : Ingress (RunnableTask T)
  pub snapshot : WorkerLoadSnapshot D
  pub cpu_id : ℤ
  pub alive : Bool

pub record Scheduler (D T : Type 0) : Type 0 where
  pub config : RuntimeConfig D
  pub load_balancer : LoadBalancer D
  pub workers : List (Worker D T)
  pub running : Bool
  pub stopping : Bool
  pub collector : MetricsCollector D
  pub submitted_count : ℕ
  pub completed_count : ℕ
  pub steal_count : ℕ

pub data SubmitResult : Type 0 where
  accepted stopped invalid_worker invalid_task queue_full : SubmitResult

module _ (F : Double) {T : Type 0} where
  open F use {D, decimal}

  new_worker : ℕ → Worker D T
  new_worker index = record {
    id = index;
    local = empty_deque;
    ingress = empty_ingress;
    snapshot = record {
      worker_id = index;
      cpu_id = minus_one;
      queue_depth = 0;
      cpu_usage = decimal 0 0;
      completed_count = 0;
      total_queue_wait = 0;
      running = false;
      idle = true;
      last_update = 0;
    };
    cpu_id = minus_one;
    alive = false;
  }

  -- The workers `index`, `index + 1`, and so on, `count` in all.
  pub new_workers : ℕ → ℕ → List (Worker D T)
  unfolding new_worker
  new_workers index zero = []
  new_workers index (suc count) = new_worker index ∷ new_workers (suc index) count

  make_with :
      Option (MetricsCollector D)
      → Option ConfigError
      → ℕ
      → RuntimeConfig D
      → Option (Scheduler D T)
  make_with none e hardware config = none
  make_with (some collector) (some e) hardware config = none
  make_with (some collector) none hardware config = some (record {
    config = config;
    load_balancer = record { config = config; round_robin_index = 0 };
    workers = new_workers 0 (effective_worker_count F hardware config);
    running = false;
    stopping = false;
    collector = collector;
    submitted_count = 0;
    completed_count = 0;
    steal_count = 0;
  })

  -- The constructor; `none` where it throws.
  unfoldable pub make_scheduler : ℕ → RuntimeConfig D → Option (Scheduler D T)
  unfolding new_workers make_with
  make_scheduler hardware config =
      make_with (make_collector config.metrics_interval) (validate_config F config) hardware config

start_collector :
    {D : Type 0} → Option (MetricsCollector D) → MetricsCollector D → MetricsCollector D
start_collector none m = m
start_collector (some m') m = m'

module _ {D T : Type 0} where
  worker_snapshot : Worker D T → WorkerLoadSnapshot D
  worker_snapshot w = record w.snapshot { queue_depth = approximate_size w.local }

  unfoldable pub load_snapshot : Scheduler D T → List (WorkerLoadSnapshot D)
  unfolding worker_snapshot
  load_snapshot s = map worker_snapshot s.workers

  launch : Worker D T → Worker D T
  launch w = record w { alive = true }

  halt : Worker D T → Worker D T
  halt w = record w { ingress = Ingress.close w.ingress; alive = false }

  -- `source` is what the lambda around `load_snapshot` will answer as time goes on.
  unfoldable pub start : Source D → Scheduler D T → Scheduler D T
  unfolding launch start_collector
  start source s = if s.running then s else record s {
    running = true;
    stopping = false;
    workers = map launch s.workers;
    collector = start_collector (Metrics.start (some source) s.collector) s.collector;
  }

  -- Up to the joins: the flags, the closed ingress queues and the collector. Joined threads have
  -- left their loop.
  unfoldable pub stop : Scheduler D T → Scheduler D T
  unfolding halt
  stop s =
      if s.running
      then record s {
        running = false;
        stopping = true;
        workers = map halt s.workers;
        collector = Metrics.stop s.collector;
      }
      else s

  unfoldable pub is_running : Scheduler D T → Bool
  is_running s = s.running

  enqueue_result :
      ℕ
      → Scheduler D T
      → Worker D T
      → Bool × Ingress (RunnableTask T)
      → SubmitResult × Scheduler D T
  enqueue_result worker s w (true, ingress) = (
    accepted,
    record s {
      workers = set s.workers worker (record w { ingress = ingress });
      submitted_count = add64 s.submitted_count 1;
    },
  )
  enqueue_result worker s w (false, ingress) =
      (stopped, record s { workers = set s.workers worker (record w { ingress = ingress }) })

  enqueue_at : ℕ → T → Scheduler D T → Option (Worker D T) → Option (SubmitResult × Scheduler D T)
  unfolding enqueue_result
  enqueue_at worker task s none = none
  enqueue_at worker task s (some w) = some (
      if s.stopping
      then (stopped, s)
      else enqueue_result worker s w
          (Ingress.push (some (record { function = task; submitted_worker = worker })) w.ingress))

  -- `none` is a read behind the end of `workers_`.
  unfoldable pub enqueue : ℕ → T → Scheduler D T → Option (SubmitResult × Scheduler D T)
  unfolding enqueue_at
  enqueue worker task s = enqueue_at worker task s (get_elem? s.workers worker)

  unfoldable pub submit_to : ℕ → Option T → Scheduler D T → Option (SubmitResult × Scheduler D T)
  unfolding enqueue
  submit_to worker none s = some (invalid_task, s)
  submit_to worker (some task) s =
      if leb (length s.workers) worker
      then some (invalid_worker, s)
      else if not s.running || s.stopping
      then some (stopped, s)
      else enqueue worker task s

module _ (F : Double) {T : Type 0} where
  open F use {D}

  submit_selected :
      T → Scheduler D T → SelectionResult × LoadBalancer D → Option (SubmitResult × Scheduler D T)
  submit_selected task s (chosen worker, b) = enqueue worker task (record s { load_balancer = b })
  submit_selected task s (refused e, b) = some (stopped, record s { load_balancer = b })

  unfoldable pub submit :
      Option T → Option ℕ → Scheduler D T → Option (SubmitResult × Scheduler D T)
  unfolding submit_selected
  submit none affinity s = some (invalid_task, s)
  submit (some task) affinity s =
      if not s.running || s.stopping
      then some (stopped, s)
      else submit_selected task s (select F s.load_balancer (load_snapshot s) affinity)
