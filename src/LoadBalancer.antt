-- ===== src/LoadBalancer.antt =====
-- include/coroutine/load_balancer.h, src/load_balancer.cpp: which worker gets a task.
-- Durations are counts of microseconds and time points counts of nanoseconds, never negative.
pub mod Least
pub mod Strategies
use coroutine_library.Prelude.{
  ℕ, zero, suc, ◌+◌, ◌%◌, Bool, true, false, Option, none, some, if◌then◌else◌, List, [], ◌∷◌, ltb,
  ◌==◌, max, length, get_elem?, ◌&&◌,
}
use coroutine_library.Prelude.Int.{ℤ}
use coroutine_library.Prelude.Words.{add64}
use coroutine_library.Floats.{Double}
use coroutine_library.Config.{
  RuntimeConfig, SchedulingStrategy, round_robin, least_load, affinity_first, adaptive,
  validate_config, ConfigError,
}

pub record WorkerLoadSnapshot (D : Type 0) : Type 0 where
  pub worker_id : ℕ
  pub cpu_id : ℤ
  pub queue_depth : ℕ
  pub cpu_usage : D
  pub completed_count : ℕ
  pub total_queue_wait : ℕ
  pub running : Bool
  pub idle : Bool
  pub last_update : ℕ

pub data SelectionError : Type 0 where
  empty_snapshot invalid_configuration : SelectionError

-- `worker` has a value, or `error` says why not.
pub data SelectionResult : Type 0 where
  chosen : ℕ → SelectionResult
  refused : SelectionError → SelectionResult

pub record LoadBalancer (D : Type 0) : Type 0 where
  pub config : RuntimeConfig D
  pub round_robin_index : ℕ

module _ (F : Double) where
  open F use {D, add, sub, mul, div, of_nat, decimal, infinity, lt, le, is_finite}

  -- `std::clamp(v, lo, hi)`.
  abbrev pub clamp : D → D → D → D
  clamp v lo hi = if lt v lo then lo else if lt hi v then hi else v

  abbrev pub bounded : D → D
  bounded v = clamp (if is_finite v then v else decimal 1 0) (decimal 0 0) (decimal 1 0)

  unfoldable pub score : WorkerLoadSnapshot D → RuntimeConfig D → ℕ → ℕ → D
  score worker config max_queue max_wait =
      let queue : D =
        if max_queue == 0
        then decimal 0 0
        else bounded (div (of_nat worker.queue_depth) (of_nat max_queue)) in
      let wait : D =
        if max_wait == 0
        then decimal 0 0
        else bounded (div (of_nat worker.total_queue_wait) (of_nat max_wait)) in
      let history : D =
        if worker.completed_count == 0
        then decimal 0 0
        else bounded (div (decimal 1 0) (add (decimal 1 0) (of_nat worker.completed_count))) in
      add
        (add
          (add (mul config.queue_depth_weight queue)
            (mul config.cpu_usage_weight (bounded worker.cpu_usage)))
          (mul config.wait_time_weight wait))
        (mul config.history_weight history)

  unfoldable pub max_queue_of : List (WorkerLoadSnapshot D) → ℕ → ℕ
  max_queue_of [] m = m
  max_queue_of (w ∷ ws) m = max_queue_of ws (max m w.queue_depth)

  unfoldable pub max_wait_of : List (WorkerLoadSnapshot D) → ℕ → ℕ
  max_wait_of [] m = m
  max_wait_of (w ∷ ws) m = max_wait_of ws (max m w.total_queue_wait)

  -- The loop over the workers: the position reached, the choice so far and its value.
  unfoldable pub pick_loop :
      (ℕ → WorkerLoadSnapshot D → D) → ℕ → List (WorkerLoadSnapshot D) → ℕ → D → ℕ
  pick_loop value index [] selected best = selected
  pick_loop value index (w ∷ ws) selected best =
      let better = lt (value index w) best in
      pick_loop value (suc index) ws (if better then index else selected)
        (if better then value index w else best)

  unfoldable pub least_loaded : List (WorkerLoadSnapshot D) → RuntimeConfig D → ℕ
  unfolding pick_loop
  least_loaded snapshot config =
      pick_loop (λ index w. score w config (max_queue_of snapshot 0) (max_wait_of snapshot 0)) 0
        snapshot 0 infinity

  pub affinity_is_usable : List (WorkerLoadSnapshot D) → RuntimeConfig D → Option ℕ → Bool
  affinity_is_usable snapshot config none = false
  affinity_is_usable snapshot config (some worker) = elim (get_elem? snapshot worker) [
    | none ↦ false
    | some w ↦ le w.cpu_usage config.affinity_max_load
  ]

  is_affinity : Option ℕ → ℕ → Bool
  is_affinity none index = false
  is_affinity (some worker) index = worker == index

  -- The value that the adaptive strategy compares: the score with both maxima 0, and the bonus.
  unfoldable pub adaptive_value : RuntimeConfig D → Option ℕ → ℕ → WorkerLoadSnapshot D → D
  unfolding is_affinity
  adaptive_value config affinity index w =
      if is_affinity affinity index && le w.cpu_usage config.affinity_max_load
      then sub (score w config 0 0) config.affinity_bonus
      else score w config 0 0

  pub score_at : List (WorkerLoadSnapshot D) → RuntimeConfig D → ℕ → D
  score_at snapshot config index = elim (get_elem? snapshot index) [
    | none ↦ infinity
    | some w ↦ score w config 0 0
  ]

  unfoldable pub select_adaptive : List (WorkerLoadSnapshot D) → RuntimeConfig D → Option ℕ → ℕ
  unfolding least_loaded score_at
  select_adaptive snapshot config affinity =
      let selected = least_loaded snapshot config in
      pick_loop (adaptive_value config affinity) 0 snapshot selected
        (score_at snapshot config selected)

  select_by :
      SchedulingStrategy
      → LoadBalancer D
      → List (WorkerLoadSnapshot D)
      → Option ℕ
      → ℕ × LoadBalancer D
  select_by round_robin b snapshot affinity = (
    b.round_robin_index % length snapshot,
    record b { round_robin_index = add64 b.round_robin_index 1 },
  )
  select_by least_load b snapshot affinity = (least_loaded snapshot b.config, b)
  select_by affinity_first b snapshot none = (least_loaded snapshot b.config, b)
  select_by affinity_first b snapshot (some worker) =
      if affinity_is_usable snapshot b.config (some worker)
      then (worker, b)
      else (least_loaded snapshot b.config, b)
  select_by adaptive b snapshot affinity = (select_adaptive snapshot b.config affinity, b)

  select_checked :
      Option ConfigError
      → LoadBalancer D
      → List (WorkerLoadSnapshot D)
      → Option ℕ
      → SelectionResult × LoadBalancer D
  select_checked (some error) b snapshot affinity = (refused invalid_configuration, b)
  select_checked none b snapshot affinity =
      let r = select_by b.config.strategy b snapshot affinity in (chosen r.0, r.1)

  unfoldable pub select :
      LoadBalancer D → List (WorkerLoadSnapshot D) → Option ℕ → SelectionResult × LoadBalancer D
  unfolding select_by select_checked
  select b [] affinity = (refused empty_snapshot, b)
  select b (w ∷ ws) affinity = select_checked (validate_config F b.config) b (w ∷ ws) affinity

  unfoldable pub update : LoadBalancer D → RuntimeConfig D → LoadBalancer D
  update b config = record b { config = config }
