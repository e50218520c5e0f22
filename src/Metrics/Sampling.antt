-- ===== src/Metrics/Sampling.antt =====
-- src/metrics_collector.cpp: what a sample holds and when the sampling thread publishes one.
use coroutine_library.Prelude.{
  if_true, if_false, ◌∙◌, ◌<◌, ℕ, ◌+◌, ◌%◌, ◌≡◌, refl, ap, true, false, some, List, [], ◌∷◌, ◌++◌,
  arith,
}
use coroutine_library.Prelude.Words.{add64, size_mod}
use coroutine_library.LoadBalancer.{WorkerLoadSnapshot}
use coroutine_library.Metrics.{
  RuntimeMetrics, Source, MetricsCollector, Counts, no_counts, accumulate, collect, stop, start,
  snapshot, tick, tick_with, ticks,
}

module _ {D : Type 0} where
  pub completed_sum : List (WorkerLoadSnapshot D) → ℕ
  completed_sum [] = 0
  completed_sum (w ∷ ws) = w.completed_count + completed_sum ws

  -- A sample of the source at a time, with the counts that `collect` was given.
  pub record Sampled (now : ℕ) (source : Source D) (k : Counts) (r : RuntimeMetrics D)
      : Type 0 where
    pub workers : r.workers ≡ source now
    pub time : r.sampled_at ≡ now
    pub submitted : r.submitted_count ≡ k.submitted
    pub steals : r.steal_count ≡ k.steals
    pub switches : r.context_switch_count ≡ k.switches
    pub waiting : r.waiting_io_count ≡ k.waiting_io
    pub completed : r.completed_count ≡ completed_sum (source now) % size_mod

  accumulate-sum :
      (total : ℕ) (ws : List (WorkerLoadSnapshot D))
      → total < size_mod
      → accumulate total ws ≡ (total + completed_sum ws) % size_mod
  unfolding accumulate completed_sum
  accumulate-sum total [] h = omega arith
  accumulate-sum total (w ∷ ws) h =
      omega (arith, accumulate-sum (add64 total w.completed_count) ws (omega arith))

  -- The collector after a sample: what it publishes, and that its thread goes on as before.
  record Follows (now : ℕ) (source : Source D) (k : Counts) (m m' : MetricsCollector D)
      : Type 0 where
    sampled : Sampled now source k (snapshot m')
    source_kept : m'.source ≡ m.source
    alive_kept : m'.alive ≡ m.alive
    stopping_kept : m'.stopping ≡ m.stopping

  collect-Follows :
      (now : ℕ) (source : Source D) (k : Counts) (m : MetricsCollector D)
      → (m' : MetricsCollector D) × (collect now (some source) k m ≡ some (snapshot m', m'))
        × Follows now source k m m'
  unfolding collect snapshot
  collect-Follows now source k m = (
    _,
    refl,
    record {
      sampled = record {
        workers = refl;
        time = refl;
        submitted = refl;
        steals = refl;
        switches = refl;
        waiting = refl;
        completed = omega (arith, accumulate-sum 0 (source now) (omega arith));
      };
      source_kept = refl;
      alive_kept = refl;
      stopping_kept = refl;
    },
  )

  -- The thread is between two rounds.
  abbrev IsRunning : Source D → MetricsCollector D → Type 0
  IsRunning source m = (m.source ≡ some source) × (m.alive ≡ true) × (m.stopping ≡ false)

  tick-IsRunning :
      (now : ℕ) (source : Source D) (m : MetricsCollector D)
      → IsRunning source m
      → IsRunning source (tick now m) × Sampled now source no_counts (snapshot (tick now m))
  unfolding tick
  tick-IsRunning now source m (s, a, t) =
      let (m', e, f) = collect-Follows now source no_counts m in
      let same : tick now m ≡ m' =
        if_true _ _ a
        ∙ if_false _ _ t
        ∙ ap (λ o. tick_with (collect now o no_counts m) m) s
        ∙ ap (λ o. tick_with o m) e in
      rw same ((f.source_kept ∙ s, f.alive_kept ∙ a, f.stopping_kept ∙ t), f.sampled)

  ticks-IsRunning :
      (nows : List ℕ) (now : ℕ) (source : Source D) (m : MetricsCollector D)
      → IsRunning source m
      → IsRunning source (ticks (nows ++ now ∷ []) m)
        × Sampled now source no_counts (snapshot (ticks (nows ++ now ∷ []) m))
  unfolding ticks
  ticks-IsRunning [] now source m h = tick-IsRunning now source m h
  ticks-IsRunning (n ∷ nows) now source m h =
      ticks-IsRunning nows now source (tick n m) (tick-IsRunning n source m h).0

  ticks-joined : (nows : List ℕ) (m : MetricsCollector D) → m.alive ≡ false → ticks nows m ≡ m
  unfolding ticks
  ticks-joined [] m a = refl
  ticks-joined (n ∷ nows) m a =
      let idle : tick n m ≡ m = unfold tick in rw a refl in rw idle (ticks-joined nows m a)

  -- A started collector has published, after one or more rounds of its thread, the sample of its
  -- source at the last round's time, with the four counts zero. A caller's `collect`, from a source
  -- of its own and with counts of its own, answers that sample with these counts, and `snapshot`
  -- answers it too, up to the next round, which publishes the thread's own sample again. From
  -- `stop` on no round changes what `snapshot` answers. In a sample the completed tasks are the sum
  -- over the workers, modulo 2 ^ 64.
  pub ticks-start-stop :
      (nows later : List ℕ) (now at next : ℕ) (source own : Source D) (k : Counts)
      (m : MetricsCollector D)
      → (m' : MetricsCollector D) × (start (some source) m ≡ some m')
        × (let w = ticks (nows ++ now ∷ []) m' in
            Sampled now source no_counts (snapshot w)
            × ((w' : MetricsCollector D) × (collect at (some own) k w ≡ some (snapshot w', w'))
                × Sampled at own k (snapshot w')
                × Sampled next source no_counts (snapshot (tick next w')))
            × (snapshot (ticks later (stop w)) ≡ snapshot w))
  unfolding start stop ticks snapshot
  ticks-start-stop nows later now at next source own k m =
      let started = record (stop m) { source = some source; stopping = false; alive = true } in
      let ((s, a, t), sampled) = ticks-IsRunning nows now source started (refl, refl, refl) in
      let w = ticks (nows ++ now ∷ []) started in
      let (w', e, f) = collect-Follows at own k w in
      let again =
        tick-IsRunning next source w' (f.source_kept ∙ s, f.alive_kept ∙ a, f.stopping_kept ∙ t) in
      (_, refl, (sampled, (w', e, f.sampled, again.1), ap snapshot (ticks-joined later _ refl)))
