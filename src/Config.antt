-- ===== src/Config.antt =====
-- include/coroutine/config.h, src/config.cpp: the settings of the runtime and their validation.
-- `hardware_concurrency()` is an argument.
pub mod Validation
use coroutine_library.Prelude.{
  ℕ, ◌*◌, Bool, true, false, Option, none, some, if◌then◌else◌, List, [], ◌∷◌, ltb, ◌==◌, not, ◌&&◌,
  ◌||◌,
}
use coroutine_library.Prelude.Int.{ℤ, pos}
use coroutine_library.Floats.{Double}

pub data SchedulingStrategy : Type 0 where
  round_robin least_load affinity_first adaptive : SchedulingStrategy

pub record RuntimeConfig (D : Type 0) : Type 0 where
  pub worker_count : ℕ
  pub strategy : SchedulingStrategy
  pub metrics_interval : ℤ
  pub affinity_max_load : D
  pub overload_threshold : D
  pub idle_threshold : D
  pub queue_depth_weight : D
  pub cpu_usage_weight : D
  pub wait_time_weight : D
  pub history_weight : D
  pub affinity_bonus : D
  pub pin_workers : Bool
  pub stack_initial_size : ℕ
  pub stack_max_size : ℕ
  pub stack_pool_enabled : Bool

pub data ConfigError : Type 0 where
  interval_not_positive stack_too_small stack_max_too_small : ConfigError
  value_out_of_range weights_do_not_sum idle_above_overload : ConfigError

unfoldable pub default_worker_count : ℕ → ℕ
default_worker_count count = if count == 0 then 1 else count

not_positive : ℤ → Bool
not_positive (pos n) = n == 0
not_positive _ = true

module _ (F : Double) where
  open F use {D, add, sub, abs, decimal, lt, is_finite}

  unfoldable pub default_config : RuntimeConfig D
  default_config = record {
    worker_count = 0;
    strategy = round_robin;
    metrics_interval = pos 100;
    affinity_max_load = decimal 7 1;
    overload_threshold = decimal 9 1;
    idle_threshold = decimal 2 1;
    queue_depth_weight = decimal 40 2;
    cpu_usage_weight = decimal 30 2;
    wait_time_weight = decimal 20 2;
    history_weight = decimal 10 2;
    affinity_bonus = decimal 10 2;
    pin_workers = false;
    stack_initial_size = 64 * 1024;
    stack_max_size = 1024 * 1024;
    stack_pool_enabled = false;
  }

  unfoldable pub effective_worker_count : ℕ → RuntimeConfig D → ℕ
  unfolding default_worker_count
  effective_worker_count hardware c =
      if c.worker_count == 0 then default_worker_count hardware else c.worker_count

  -- `!std::isfinite(value) || value < 0.0 || value > 1.0`.
  abbrev pub out_of_range : D → Bool
  out_of_range v = not (is_finite v) || (lt v (decimal 0 0) || lt (decimal 1 0) v)

  any_out_of_range : List D → Bool
  any_out_of_range [] = false
  any_out_of_range (v ∷ vs) = if out_of_range v then true else any_out_of_range vs

  abbrev pub values : RuntimeConfig D → List D
  values c =
      c.affinity_max_load ∷ c.overload_threshold ∷ c.idle_threshold ∷ c.queue_depth_weight
      ∷ c.cpu_usage_weight ∷ c.wait_time_weight ∷ c.history_weight ∷ c.affinity_bonus ∷ []

  abbrev pub weight_sum : RuntimeConfig D → D
  weight_sum c =
      add (add (add c.queue_depth_weight c.cpu_usage_weight) c.wait_time_weight) c.history_weight

  -- `none` for true; otherwise the message that `fail` writes.
  unfoldable pub validate_config : RuntimeConfig D → Option ConfigError
  unfolding not_positive any_out_of_range
  validate_config c =
      if not_positive c.metrics_interval
      then some interval_not_positive
      else if ltb c.stack_initial_size (16 * 1024)
      then some stack_too_small
      else if ltb c.stack_max_size c.stack_initial_size
      then some stack_max_too_small
      else if any_out_of_range (values c)
      then some value_out_of_range
      else if lt (decimal 1 9) (abs (sub (weight_sum c) (decimal 1 0)))
      then some weights_do_not_sum
      else if lt c.overload_threshold c.idle_threshold
      then some idle_above_overload
      else none
