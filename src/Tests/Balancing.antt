-- ===== src/Tests/Balancing.antt =====
-- The configuration, the load balancer, the metrics and the scheduler on concrete inputs.
use coroutine_library.Prelude.{
  ◌++◌, ◌↔◌, ℕ, ◌<◌, ◌≡◌, refl, true, false, none, some, List, [], ◌∷◌, length, get_elem?,
}
use coroutine_library.Prelude.Int.{pos, minus_one}
use coroutine_library.Floats.{Fixed, fixed, fixed_map, fixed_lt, fixed_le, fixed_finite, millionths}
use coroutine_library.Config.{
  RuntimeConfig, SchedulingStrategy, least_load, adaptive, default_config, validate_config,
}
use coroutine_library.Config.Validation.{IsSound, validate_config_iff}
use coroutine_library.LoadBalancer.{
  WorkerLoadSnapshot, LoadBalancer, chosen, select, score, max_queue_of, max_wait_of,
}
use coroutine_library.LoadBalancer.Least.{NoneBelow}
use coroutine_library.LoadBalancer.Strategies.{select-in_bounds, select-least_load}
use coroutine_library.Metrics.{
  MetricsCollector, Source, Counts, no_counts, no_metrics, collect, snapshot, start, stop, tick,
  ticks,
}
use coroutine_library.Metrics.Sampling.{Sampled, ticks-start-stop}

abbrev pub settings : RuntimeConfig Fixed
settings = default_config millionths

pub settings-valid : validate_config millionths settings ≡ none
unfolding validate_config default_config fixed_map fixed_lt fixed_le fixed_finite
settings-valid = refl

validate_config_iff_example :
    (validate_config millionths settings ≡ none) ↔ IsSound millionths settings
validate_config_iff_example = validate_config_iff millionths settings

abbrev pub worker_with : ℕ → ℕ → WorkerLoadSnapshot Fixed
worker_with id depth = record {
  worker_id = id;
  cpu_id = minus_one;
  queue_depth = depth;
  cpu_usage = fixed 500_000;
  completed_count = 3;
  total_queue_wait = 0;
  running = true;
  idle = false;
  last_update = 0;
}

abbrev busy : WorkerLoadSnapshot Fixed
busy = worker_with 0 9

abbrev calm : List (WorkerLoadSnapshot Fixed)
calm = worker_with 1 2 ∷ []

abbrev balancer : SchedulingStrategy → LoadBalancer Fixed
balancer s = record { config = record settings { strategy = s }; round_robin_index = 4 }

settings-valid_any :
    (s : SchedulingStrategy) → validate_config millionths (balancer s).config ≡ none
unfolding validate_config default_config fixed_map fixed_lt fixed_le fixed_finite
settings-valid_any s = refl

select-in_bounds_example :
    (i : ℕ) × ((select millionths (balancer adaptive) (busy ∷ calm) (some 1)).0 ≡ chosen i)
    × (i < length (busy ∷ calm))
select-in_bounds_example =
    select-in_bounds millionths (balancer adaptive) busy calm (some 1) (settings-valid_any adaptive)

select-least_load_example :
    (i : ℕ) × (v : WorkerLoadSnapshot Fixed) × (select millionths
        (balancer least_load)
        (busy ∷ calm)
        none
      ≡ (chosen i, balancer least_load))
    × (get_elem? (busy ∷ calm) i ≡ some v)
    × NoneBelow millionths
        (λ j u.
          score millionths u
            (balancer least_load).config
            (max_queue_of millionths (busy ∷ calm) 0)
            (max_wait_of millionths (busy ∷ calm) 0))
        (score millionths v
          (balancer least_load).config
          (max_queue_of millionths (busy ∷ calm) 0)
          (max_wait_of millionths (busy ∷ calm) 0))
        0
        (busy ∷ calm)
select-least_load_example =
    select-least_load millionths (balancer least_load) busy calm none refl
      (settings-valid_any least_load)

abbrev pub rising : Source Fixed
rising now = worker_with 0 now ∷ worker_with 1 0 ∷ []

abbrev pub fresh_collector : MetricsCollector Fixed
fresh_collector = record {
  interval = pos 100;
  latest = no_metrics;
  alive = false;
  stopping = false;
  source = none;
}

-- What a caller passes to `collect`, with a source of its own.
abbrev two_counts : Counts
two_counts = record { submitted = 6; steals = 2; switches = 4; waiting_io = 1 }

ticks-start-stop_example :
    (m' : MetricsCollector Fixed) × (start (some rising) fresh_collector ≡ some m')
    × (let w = ticks ((1 ∷ 2 ∷ []) ++ 3 ∷ []) m' in
        Sampled 3 rising no_counts (snapshot w)
        × ((w' : MetricsCollector Fixed) × (collect 4 (some (λ n. calm)) two_counts w
              ≡ some (snapshot w', w'))
            × Sampled 4 (λ n. calm) two_counts (snapshot w')
            × Sampled 5 rising no_counts (snapshot (tick 5 w')))
        × (snapshot (ticks (6 ∷ 7 ∷ []) (stop w)) ≡ snapshot w))
ticks-start-stop_example =
    ticks-start-stop (1 ∷ 2 ∷ []) (6 ∷ 7 ∷ []) 3 4 5 rising (λ n. calm) two_counts fresh_collector
