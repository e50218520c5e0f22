-- ===== src/Scheduler/Run.antt =====
-- src/scheduler.cpp: the loop of a worker thread and the snapshots that it writes. What a task does
-- is left out: the loop reports the tasks that it runs, in order, and each idle round, in which it
-- calls its event loop.
use coroutine_library.Prelude.{
  ℕ, ◌-◌, ◌%◌, Bool, true, false, Option, none, some, if◌then◌else◌, List, [], ◌∷◌, not, ◌&&◌, ◌==◌,
  length, get_elem?, set,
}
use coroutine_library.Prelude.Int.{ℤ, minus_one}
use coroutine_library.Prelude.Words.{add64}
use coroutine_library.Floats.{Double}
use coroutine_library.LoadBalancer.{clamp}
use coroutine_library.Metrics.{RuntimeMetrics, MetricsCollector, make_collector, collect}
use coroutine_library.CpuAffinity.{bind_current_thread}
use coroutine_library.Deque.{approximate_size}
use coroutine_library.Scheduler.{RunnableTask, Worker, Scheduler, load_snapshot}
use coroutine_library.Scheduler.Take.{take_task, keeps_running}

-- What one round of the loop did.
pub data Round (T : Type 0) : Type 0 where
  polled : Round T
  ran : T → Round T

-- The clock as a round reads it: when it goes idle, before the task, after it, and at its end.
pub record Readings : Type 0 where
  pub idle_at : ℕ
  pub started : ℕ
  pub finished : ℕ
  pub ended : ℕ

-- `cpus[worker.id % cpus.size()]`.
chosen_cpu : ℤ → Option ℤ → ℤ
chosen_cpu old none = old
chosen_cpu old (some cpu) = cpu

module _ {D T : Type 0} where
  unfoldable pub update_found :
      ℕ → (Worker D T → Worker D T) → Scheduler D T → Option (Worker D T) → Scheduler D T
  update_found index f s none = s
  update_found index f s (some w) = record s { workers = set s.workers index (f w) }

  -- A write to the worker at `index`.
  unfoldable pub update_worker : ℕ → (Worker D T → Worker D T) → Scheduler D T → Scheduler D T
  unfolding update_found
  update_worker index f s = update_found index f s (get_elem? s.workers index)

  -- The part of `run_worker` before the loop.
  unfoldable pub begin_worker : List ℤ → (ℤ → Bool) → Bool → ℕ → Worker D T → Worker D T
  unfolding chosen_cpu
  begin_worker cpus set_affinity pin now w =
      let picked : ℤ =
        if length cpus == 0
        then w.cpu_id
        else chosen_cpu w.cpu_id (get_elem? cpus (w.id % length cpus)) in
      let cpu : ℤ =
        if not (length cpus == 0) && (pin && not (bind_current_thread set_affinity picked))
        then minus_one
        else picked in
      record w {
        cpu_id = cpu;
        snapshot = record w.snapshot {
          running = true;
          cpu_id = cpu;
          idle = false;
          last_update = now;
        };
      }

  unfoldable pub mark_idle : ℕ → Worker D T → Worker D T
  mark_idle now w = record w {
    snapshot = record w.snapshot {
      idle = true;
      queue_depth = approximate_size w.local;
      last_update = now;
    };
  }

  unfoldable pub mark_busy : Worker D T → Worker D T
  mark_busy w = record w {
    snapshot = record w.snapshot { idle = false; queue_depth = approximate_size w.local };
  }

  -- The part after the loop.
  unfoldable pub end_worker : Worker D T → Worker D T
  end_worker w = record w { snapshot = record w.snapshot { running = false; idle = true } }

  unfoldable pub test_found : Scheduler D T → Option (Worker D T) → Bool
  test_found s none = false
  test_found s (some w) = keeps_running s w

  -- The test of the loop of the worker at `index`.
  unfoldable pub loop_test : ℕ → Scheduler D T → Bool
  unfolding test_found
  loop_test index s = test_found s (get_elem? s.workers index)

module _ (F : Double) where
  open F use {D, div, of_nat, decimal}

  -- The share of 10 ms that the task took, at most 1.
  unfoldable pub usage : ℕ → ℕ → D
  usage started finished =
      clamp F (div (div (of_nat (finished - started)) (decimal 1_000_000_000 0)) (decimal 1 2))
        (decimal 0 0) (decimal 1 0)

module _ (F : Double) {T : Type 0} where
  open F use {D}

  unfoldable pub mark_done : Readings → Worker D T → Worker D T
  unfolding usage
  mark_done t w = record w {
    snapshot = record w.snapshot {
      completed_count = add64 w.snapshot.completed_count 1;
      cpu_usage = usage F t.started t.finished;
      queue_depth = approximate_size w.local;
      last_update = t.ended;
    };
  }

  unfoldable pub after_take :
      ℕ → Readings → Option (RunnableTask T) × Scheduler D T → Round T × Scheduler D T
  after_take index t (none, s) = (polled, update_worker index (mark_idle t.idle_at) s)
  after_take index t (some task, s) = (
    ran task.function,
    update_worker index (λ w. mark_done t (mark_busy w))
        (record s { completed_count = add64 s.completed_count 1 }),
  )

  -- One round of the loop of the worker at `index`.
  unfoldable pub worker_round : ℕ → Readings → Scheduler D T → Round T × Scheduler D T
  unfolding after_take
  worker_round index t s = after_take index t (take_task index s)

  unfoldable pub cons_round :
      Round T → Option (List (Round T) × Scheduler D T) → Option (List (Round T) × Scheduler D T)
  cons_round r none = none
  cons_round r (some (rounds, s)) = some (r ∷ rounds, s)

  -- The loop, for as many rounds as there are clock readings; `none` if it has not ended by then.
  unfoldable pub worker_loop :
      ℕ → List Readings → Scheduler D T → Option (List (Round T) × Scheduler D T)
  unfolding worker_round loop_test cons_round
  worker_loop index [] s = if loop_test index s then none else some ([], s)
  worker_loop index (t ∷ ts) s =
      let r = worker_round index t s in
      let rest = worker_loop index ts r.1 in
      if loop_test index s then cons_round r.0 rest else some ([], s)

  metrics_with :
      ℕ
      → Scheduler D T
      → Option (MetricsCollector D)
      → Option (RuntimeMetrics D × MetricsCollector D)
  metrics_with now s none = none
  metrics_with now s (some collector) =
      collect now (some (λ _. load_snapshot s))
        (record {
          submitted = s.submitted_count;
          steals = s.steal_count;
          switches = 0;
          waiting_io = 0;
        })
        collector

  -- `metrics_snapshot`, which samples with a collector of its own; `none` where that throws.
  unfoldable pub metrics_snapshot :
      ℕ → Scheduler D T → Option (RuntimeMetrics D × MetricsCollector D)
  unfolding metrics_with
  metrics_snapshot now s = metrics_with now s (make_collector s.config.metrics_interval)
