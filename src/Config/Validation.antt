-- ===== src/Config/Validation.antt =====
-- src/config.cpp: exactly which configurations are accepted, and how many workers they give.
use coroutine_library.Prelude.{
  ℕ, ◌*◌, ◌≤◌, ◌<◌, ◌≡◌, ◌↔◌, refl, Bool, true, false, Option, none, some, if◌then◌else◌, List, [],
  ◌∷◌, ltb, All, arith, Bool-cases, inl, inr,
}
use coroutine_library.Prelude.Int.{ℤ, pos, negsuc, pos_part}
use coroutine_library.Floats.{Double}
use coroutine_library.Config.{
  RuntimeConfig, ConfigError, interval_not_positive, stack_too_small, stack_max_too_small,
  value_out_of_range, weights_do_not_sum, idle_above_overload, not_positive, any_out_of_range,
  validate_config, out_of_range, values, effective_worker_count,
}

-- The chain of early returns, as a function of its six tests.
abbrev first_error : (a b c d e f : Bool) → Option ConfigError
first_error a b c d e f =
    if a
    then some interval_not_positive
    else if b
    then some stack_too_small
    else if c
    then some stack_max_too_small
    else if d
    then some value_out_of_range
    else if e
    then some weights_do_not_sum
    else if f
    then some idle_above_overload
    else none

first_error-none :
    (a b c d e f : Bool)
    → first_error a b c d e f ≡ none
    → (a ≡ false) × (b ≡ false) × (c ≡ false) × (d ≡ false) × (e ≡ false) × (f ≡ false)
first_error-none a b c d e f h = ground arith

module _ (F : Double) where
  open F use {D, add, sub, abs, decimal, lt, is_finite}

  -- A finite value from 0 to 1; of NaN only the first test fails.
  abbrev pub IsUnitValue : D → Type 0
  IsUnitValue v = (is_finite v ≡ true) × (lt v (decimal 0 0) ≡ false) × (lt (decimal 1 0) v ≡ false)

  -- What the documentation asks of a configuration, setting by setting.
  pub record IsSound (c : RuntimeConfig D) : Type 0 where
    pub interval : 0 < pos_part c.metrics_interval
    pub stack : 16_384 ≤ c.stack_initial_size
    pub stack_max : c.stack_initial_size ≤ c.stack_max_size
    pub affinity_load : IsUnitValue c.affinity_max_load
    pub overload : IsUnitValue c.overload_threshold
    pub idle : IsUnitValue c.idle_threshold
    pub queue_depth : IsUnitValue c.queue_depth_weight
    pub cpu_usage : IsUnitValue c.cpu_usage_weight
    pub waiting_time : IsUnitValue c.wait_time_weight
    pub history : IsUnitValue c.history_weight
    pub bonus : IsUnitValue c.affinity_bonus
    pub weights :
        lt (decimal 1 9) (
          abs (
            sub
              (add
                (add (add c.queue_depth_weight c.cpu_usage_weight) c.wait_time_weight)
                c.history_weight)
              (decimal 1 0)))
        ≡ false
    pub thresholds : lt c.overload_threshold c.idle_threshold ≡ false

  not_positive_iff : (i : ℤ) → (not_positive i ≡ false) ↔ (0 < pos_part i)
  unfolding not_positive
  not_positive_iff (pos n) = ground arith
  not_positive_iff (negsuc n) = ground arith

  out_of_range_iff : (v : D) → (out_of_range F v ≡ false) ↔ IsUnitValue v
  out_of_range_iff v = ground arith

  any_out_of_range_iff : (vs : List D) → (any_out_of_range F vs ≡ false) ↔ All IsUnitValue vs
  unfolding any_out_of_range
  any_out_of_range_iff [] = (λ h. tt, λ h. refl)
  any_out_of_range_iff (v ∷ vs) =
      let ih = any_out_of_range_iff vs in
      let here = out_of_range_iff v in
      elim (Bool-cases (out_of_range F v)) [
        | inl b ↦ rw b (λ h. cc, λ h. absurd (let no = here.1 h.0 in cc))
        | inr b ↦ rw b (λ h. (here.0 b, ih.0 h), λ h. ih.1 h.1)
      ]

  -- `validate_config` finds no error exactly where the interval is positive, the stack is at least
  -- 16 KiB and at most its maximum, each of the eight values is finite and in [0, 1], the four weights
  -- add up to 1 within 1e-9, and the idle threshold does not exceed the overload threshold. The eight
  -- values and the four weights are named one by one.
  pub validate_config_iff : (c : RuntimeConfig D) → (validate_config F c ≡ none) ↔ IsSound c
  unfolding validate_config
  validate_config_iff c = (
    λ h.
        let (a, b, m, d, e, f) = first_error-none _ _ _ _ _ _ h in
        let (u, (v, (w, (x, (y, (z, (p, (q, _)))))))) = (any_out_of_range_iff (values F c)).0 d in
        record {
          interval = (not_positive_iff c.metrics_interval).0 a;
          stack = ground (arith, b);
          stack_max = ground (arith, m);
          affinity_load = u;
          overload = v;
          idle = w;
          queue_depth = x;
          cpu_usage = y;
          waiting_time = z;
          history = p;
          bonus = q;
          weights = e;
          thresholds = f;
        },
    λ s.
        let a = (not_positive_iff c.metrics_interval).1 s.interval in
        let b : ltb c.stack_initial_size (16 * 1024) ≡ false = ground (arith, s.stack) in
        let m : ltb c.stack_max_size c.stack_initial_size ≡ false = ground (arith, s.stack_max) in
        let d = (any_out_of_range_iff (values F c)).1 (
          s.affinity_load,
          (
            s.overload,
            (s.idle, (s.queue_depth, (s.cpu_usage, (s.waiting_time, (s.history, (s.bonus, tt)))))),
          ),
        ) in
        rw (a, b, m) (rw d (rw (s.weights, s.thresholds))),
  )

  -- The number of workers is positive for every configuration, also where the number of processors
  -- is not known.
  pub effective_worker_count-pos :
      (hardware : ℕ) (c : RuntimeConfig D) → 0 < effective_worker_count F hardware c
  unfolding effective_worker_count
  effective_worker_count-pos hardware c = ground arith
