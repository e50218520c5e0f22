-- ===== src/LoadBalancer/Strategies.antt =====
-- src/load_balancer.cpp: what `select` answers under each strategy.
use coroutine_library.Prelude.{
  ℕ, zero, suc, ◌+◌, ◌%◌, ◌<◌, ◌≡◌, ◌⊎◌, inl, inr, refl, ap, ◌∙◌, true, false, Option, none, some,
  List, [], ◌∷◌, length, get_elem?, arith, Bool-cases,
}
use coroutine_library.Prelude.Words.{add64, size_mod}
use coroutine_library.Floats.{Double}
use coroutine_library.Config.{
  RuntimeConfig, SchedulingStrategy, round_robin, least_load, affinity_first, adaptive,
  validate_config,
}
use coroutine_library.LoadBalancer.{
  WorkerLoadSnapshot, LoadBalancer, chosen, score, max_queue_of, max_wait_of, least_loaded,
  affinity_is_usable, adaptive_value, score_at, select_adaptive, select_by, select,
}
use coroutine_library.LoadBalancer.Least.{
  pick_loop-bound, pick_loop-least, NoneBelow, pick_best, pick_best-le, pick_loop-Outcome, Outcome,
  kept, found,
}

module _ (F : Double) where
  open F use {D, lt, le, is_nan}

  -- The workers of a snapshot, seen by one call with a valid configuration.
  least_loaded-lt :
      (w : WorkerLoadSnapshot D) (ws : List (WorkerLoadSnapshot D)) (c : RuntimeConfig D)
      → least_loaded F (w ∷ ws) c < length (w ∷ ws)
  unfolding least_loaded
  least_loaded-lt w ws c = ground (
    arith,
    pick_loop-bound F
        (λ index v. score F v c (max_queue_of F (w ∷ ws) 0) (max_wait_of F (w ∷ ws) 0)) 0 (w ∷ ws) 0
        F.infinity,
  )

  select_adaptive-lt :
      (w : WorkerLoadSnapshot D) (ws : List (WorkerLoadSnapshot D)) (c : RuntimeConfig D)
      (affinity : Option ℕ)
      → select_adaptive F (w ∷ ws) c affinity < length (w ∷ ws)
  unfolding select_adaptive
  select_adaptive-lt w ws c affinity = ground (
    arith,
    least_loaded-lt w ws c,
    pick_loop-bound F (adaptive_value F c affinity) 0 (w ∷ ws) (least_loaded F (w ∷ ws) c)
        (score_at F (w ∷ ws) c (least_loaded F (w ∷ ws) c)),
  )

  usable-lt :
      (ws : List (WorkerLoadSnapshot D)) (c : RuntimeConfig D) (worker : ℕ)
      → affinity_is_usable F ws c (some worker) ≡ true
      → worker < length ws
  unfolding affinity_is_usable
  usable-lt [] c worker h = cc
  usable-lt (w ∷ ws) c zero h = omega arith
  usable-lt (w ∷ ws) c (suc worker) h = omega (arith, usable-lt ws c worker h)

  select_by-lt :
      (s : SchedulingStrategy) (b : LoadBalancer D) (w : WorkerLoadSnapshot D)
      (ws : List (WorkerLoadSnapshot D)) (affinity : Option ℕ)
      → (select_by F s b (w ∷ ws) affinity).0 < length (w ∷ ws)
  unfolding select_by
  select_by-lt round_robin b w ws affinity = ground arith
  select_by-lt least_load b w ws affinity = least_loaded-lt w ws b.config
  select_by-lt affinity_first b w ws none = least_loaded-lt w ws b.config
  select_by-lt affinity_first b w ws (some worker) =
      elim (Bool-cases (affinity_is_usable F (w ∷ ws) b.config (some worker))) [
        | inl u ↦ rw u (usable-lt (w ∷ ws) b.config worker u)
        | inr u ↦ rw u (least_loaded-lt w ws b.config)
      ]
  select_by-lt adaptive b w ws affinity = select_adaptive-lt w ws b.config affinity

  -- On a snapshot with a worker and with a valid configuration, `select` chooses a worker of the
  -- snapshot, whatever the strategy, the affinity and the loads are.
  pub select-in_bounds :
      (b : LoadBalancer D) (w : WorkerLoadSnapshot D) (ws : List (WorkerLoadSnapshot D))
      (affinity : Option ℕ)
      → validate_config F b.config ≡ none
      → (i : ℕ) × ((select F b (w ∷ ws) affinity).0 ≡ chosen i) × (i < length (w ∷ ws))
  unfolding select
  select-in_bounds b w ws affinity v = (
    (select_by F b.config.strategy b (w ∷ ws) affinity).0,
    rw v refl,
    select_by-lt b.config.strategy b w ws affinity,
  )

  select-select_by :
      (s : SchedulingStrategy) (b : LoadBalancer D) (w : WorkerLoadSnapshot D)
      (ws : List (WorkerLoadSnapshot D)) (affinity : Option ℕ)
      → b.config.strategy ≡ s
      → validate_config F b.config ≡ none
      → select F b (w ∷ ws) affinity
        ≡ (let r = select_by F s b (w ∷ ws) affinity in (chosen r.0, r.1))
  unfolding select
  select-select_by s b w ws affinity e valid =
      rw valid (ap (λ t. let r = select_by F t b (w ∷ ws) affinity in (chosen r.0, r.1)) e)

  -- Under `least_load` and a valid configuration, the chosen worker is one of the snapshot and no
  -- worker of it has a lower score; the balancer is left as it was.
  pub select-least_load :
      (b : LoadBalancer D) (w : WorkerLoadSnapshot D) (ws : List (WorkerLoadSnapshot D))
      (affinity : Option ℕ)
      → b.config.strategy ≡ least_load
      → validate_config F b.config ≡ none
      → (i : ℕ) × (v : WorkerLoadSnapshot D) × (select F b (w ∷ ws) affinity ≡ (chosen i, b))
        × (get_elem? (w ∷ ws) i ≡ some v)
        × NoneBelow F
            (λ j u. score F u b.config (max_queue_of F (w ∷ ws) 0) (max_wait_of F (w ∷ ws) 0))
            (score F v b.config (max_queue_of F (w ∷ ws) 0) (max_wait_of F (w ∷ ws) 0))
            0
            (w ∷ ws)
  unfolding select least_loaded
  select-least_load b w ws affinity s valid =
      let (v, e, h) =
        pick_loop-least F
          (λ j u. score F u b.config (max_queue_of F (w ∷ ws) 0) (max_wait_of F (w ∷ ws) 0)) w ws in
      (
        least_loaded F (w ∷ ws) b.config,
        v,
        select-select_by least_load b w ws affinity s valid,
        e,
        h,
      )

  -- `k` calls of `select` on the same workers.
  pub after : ℕ → LoadBalancer D → List (WorkerLoadSnapshot D) → Option ℕ → LoadBalancer D
  after zero b ws affinity = b
  after (suc k) b ws affinity = after k (select F b ws affinity).1 ws affinity

  rotate-step :
      (b : LoadBalancer D) (w : WorkerLoadSnapshot D) (ws : List (WorkerLoadSnapshot D))
      (affinity : Option ℕ)
      → b.config.strategy ≡ round_robin
      → validate_config F b.config ≡ none
      → select F b (w ∷ ws) affinity ≡ (
        chosen (b.round_robin_index % length (w ∷ ws)),
        record b { round_robin_index = add64 b.round_robin_index 1 },
      )
  unfolding select
  rotate-step b w ws affinity s valid = select-select_by round_robin b w ws affinity s valid

  -- Under `round_robin`, a valid configuration and an index that does not wrap, the call after `k`
  -- others on the same workers chooses the worker `k` places on, modulo their number.
  pub select-round_robin :
      (k : ℕ) (b : LoadBalancer D) (w : WorkerLoadSnapshot D) (ws : List (WorkerLoadSnapshot D))
      (affinity : Option ℕ)
      → b.config.strategy ≡ round_robin
      → validate_config F b.config ≡ none
      → b.round_robin_index + k < size_mod
      → (select F (after k b (w ∷ ws) affinity) (w ∷ ws) affinity).0
        ≡ chosen ((b.round_robin_index + k) % length (w ∷ ws))
  unfolding after
  select-round_robin zero b w ws affinity s valid small =
      rw (rotate-step b w ws affinity s valid)
        (ap (λ i. chosen (i % length (w ∷ ws))) (omega arith))
  select-round_robin (suc k) b w ws affinity s valid small =
      let next : LoadBalancer D = record b { round_robin_index = add64 b.round_robin_index 1 } in
      rw (rotate-step b w ws affinity s valid) (
        select-round_robin k next w ws affinity s valid (omega arith)
        ∙ ap (λ i. chosen (i % length (w ∷ ws))) (omega arith))

  -- Neither the queue depth nor the queue wait of a worker enters the value that `adaptive`
  -- compares at last.
  pub adaptive_value-queue :
      (c : RuntimeConfig D) (affinity : Option ℕ) (index depth wait : ℕ) (w : WorkerLoadSnapshot D)
      → adaptive_value F c affinity index
          (record w { queue_depth = depth; total_queue_wait = wait })
        ≡ adaptive_value F c affinity index w
  unfolding adaptive_value score
  adaptive_value-queue c affinity index depth wait w = refl

  -- The last loop of `adaptive`, started from the least loaded worker `selected`: the chosen worker
  -- is in the snapshot, and no worker has an adaptive value below the least one found, which is the
  -- value of the chosen worker, or the score of `selected` if that was kept. It holds where the
  -- score of `selected` is a number.
  pub select_adaptive-least :
      (w : WorkerLoadSnapshot D) (ws : List (WorkerLoadSnapshot D)) (c : RuntimeConfig D)
      (affinity : Option ℕ)
      → is_nan (score_at F (w ∷ ws) c (least_loaded F (w ∷ ws) c)) ≡ false
      → (least : D) × NoneBelow F (adaptive_value F c affinity) least 0 (w ∷ ws)
        × (((k : ℕ) × (v : WorkerLoadSnapshot D) × (select_adaptive F (w ∷ ws) c affinity ≡ k)
              × (get_elem? (w ∷ ws) k ≡ some v)
              × (adaptive_value F c affinity k v ≡ least))
            ⊎ ((select_adaptive F (w ∷ ws) c affinity ≡ least_loaded F (w ∷ ws) c)
                × (least ≡ score_at F (w ∷ ws) c (least_loaded F (w ∷ ws) c))))
  unfolding select_adaptive
  select_adaptive-least w ws c affinity n =
      let best = score_at F (w ∷ ws) c (least_loaded F (w ∷ ws) c) in
      let (_, below, _) = pick_best-le F (adaptive_value F c affinity) 0 (w ∷ ws) best n in
      (
        pick_best F (adaptive_value F c affinity) 0 (w ∷ ws) best,
        below,
        settle (
            pick_loop-Outcome F (adaptive_value F c affinity) 0 (w ∷ ws) (least_loaded F (w ∷ ws) c)
              best),
      )
    where
      settle :
          {selected chosen : ℕ} {best least : D}
          → Outcome F (adaptive_value F c affinity) 0 (w ∷ ws) selected best chosen least
          → ((k : ℕ) × (v : WorkerLoadSnapshot D) × (chosen ≡ k)
              × (get_elem? (w ∷ ws) k ≡ some v)
              × (adaptive_value F c affinity k v ≡ least))
            ⊎ ((chosen ≡ selected) × (least ≡ best))
      settle (kept e l) = inr (e, l)
      settle {chosen = i} (found k v e g l) =
          let e' : i ≡ k = omega (arith, e) in inl (k, v, e', g, rw e' at l)
