-- ===== src/Metrics.antt =====
-- include/coroutine/metrics.h, src/metrics_collector.cpp: the collector and its sampling thread.
-- A snapshot source is what it answers when it is called; `none` is an empty `std::function`.
pub mod Sampling
use coroutine_library.Prelude.{
  ℕ, ◌+◌, Bool, true, false, Option, none, some, if◌then◌else◌, List, [], ◌∷◌, ◌==◌, ◌≡◌,
}
use coroutine_library.Prelude.Int.{ℤ, pos, pos_part}
use coroutine_library.Prelude.Words.{add64}
use coroutine_library.LoadBalancer.{WorkerLoadSnapshot}

pub record RuntimeMetrics (D : Type 0) : Type 0 where
  pub workers : List (WorkerLoadSnapshot D)
  pub sampled_at : ℕ
  pub completed_count : ℕ
  pub steal_count : ℕ
  pub submitted_count : ℕ
  pub context_switch_count : ℕ
  pub waiting_io_count : ℕ

abbrev pub Source : Type 0 → Type 0
Source D = ℕ → List (WorkerLoadSnapshot D)

-- `alive` is `thread_.joinable()`: the thread was started and was not joined.
pub record MetricsCollector (D : Type 0) : Type 0 where
  pub interval : ℤ
  pub latest : RuntimeMetrics D
  pub alive : Bool
  pub stopping : Bool
  pub source : Option (Source D)

-- The counts that the caller of `collect` passes.
pub record Counts : Type 0 where
  pub submitted : ℕ
  pub steals : ℕ
  pub switches : ℕ
  pub waiting_io : ℕ

abbrev pub no_counts : Counts
no_counts = record { submitted = 0; steals = 0; switches = 0; waiting_io = 0 }

module _ {D : Type 0} where
  -- `RuntimeMetrics{}`.
  abbrev pub no_metrics : RuntimeMetrics D
  no_metrics = record {
    workers = [];
    sampled_at = 0;
    completed_count = 0;
    steal_count = 0;
    submitted_count = 0;
    context_switch_count = 0;
    waiting_io_count = 0;
  }

  -- `none` where the constructor throws.
  unfoldable pub make_collector : ℤ → Option (MetricsCollector D)
  make_collector interval =
      if pos_part interval == 0
      then none
      else some (record {
        interval = interval;
        latest = no_metrics;
        alive = false;
        stopping = false;
        source = none;
      })

  unfoldable pub accumulate : ℕ → List (WorkerLoadSnapshot D) → ℕ
  accumulate total [] = total
  accumulate total (w ∷ ws) = accumulate (add64 total w.completed_count) ws

  -- `none` where `collect` throws; `now` is the clock when it samples.
  unfoldable pub collect :
      ℕ
      → Option (Source D)
      → Counts
      → MetricsCollector D
      → Option (RuntimeMetrics D × MetricsCollector D)
  unfolding accumulate
  collect now none k m = none
  collect now (some source) k m =
      let result : RuntimeMetrics D = record {
        workers = source now;
        sampled_at = now;
        completed_count = accumulate 0 (source now);
        steal_count = k.steals;
        submitted_count = k.submitted;
        context_switch_count = k.switches;
        waiting_io_count = k.waiting_io;
      } in
      some (result, record m { latest = result })

  -- The join ends the thread, which sees `stopping_` before it samples again.
  unfoldable pub stop : MetricsCollector D → MetricsCollector D
  stop m = record m { stopping = true; alive = false }

  unfoldable pub start : Option (Source D) → MetricsCollector D → Option (MetricsCollector D)
  unfolding stop
  start none m = none
  start (some source) m =
      some (record (stop m) { source = some source; stopping = false; alive = true })

  unfoldable pub snapshot : MetricsCollector D → RuntimeMetrics D
  snapshot m = m.latest

  unfoldable pub tick_with :
      Option (RuntimeMetrics D × MetricsCollector D) → MetricsCollector D → MetricsCollector D
  tick_with none m = m
  tick_with (some (r, m')) m = m'

  -- One round of the sampling thread.
  unfoldable pub tick : ℕ → MetricsCollector D → MetricsCollector D
  unfolding collect tick_with
  tick now m =
      if m.alive
      then (if m.stopping
          then record m { alive = false }
          else tick_with (collect now m.source no_counts m) m)
      else m

  unfoldable pub ticks : List ℕ → MetricsCollector D → MetricsCollector D
  unfolding tick
  ticks [] m = m
  ticks (now ∷ nows) m = ticks nows (tick now m)
