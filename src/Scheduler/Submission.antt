-- ===== src/Scheduler/Submission.antt =====
-- src/scheduler.cpp: what becomes of a submitted task.
use mathlib.Core.Option.{some-injective}
use coroutine_library.Prelude.{
  ℕ, zero, suc, ◌<◌, ◌≡◌, refl, ap, ◌∙◌, subst, true, false, Option, none, some, List, [], ◌∷◌,
  ◌++◌, length, length-map, get_elem?, get_elem?_lt, set, not, ◌||◌, arith, All, if_false,
}
use coroutine_library.Prelude.Words.{add64}
use coroutine_library.Floats.{Double}
use coroutine_library.Config.{validate_config}
use coroutine_library.LoadBalancer.{LoadBalancer, chosen, select}
use coroutine_library.LoadBalancer.Strategies.{select-in_bounds}
use coroutine_library.Ingress.{drain}
use coroutine_library.Ingress.Order.{push-open, drain-cons}
use coroutine_library.Scheduler.{
  RunnableTask, Worker, Scheduler, accepted, worker_snapshot, load_snapshot, enqueue, enqueue_at,
  enqueue_result, submit, submit_selected,
}

-- The node that `enqueue` makes.
abbrev pub task_for : {T : Type 0} → ℕ → T → RunnableTask T
task_for i task = record { function = task; submitted_worker = i }

list-cons {ℓ} : {A : Type ℓ} (xs : List A) → 0 < length xs → (x : A) × (ys : List A) × (xs ≡ x ∷ ys)
list-cons [] h = elim h [ ]
list-cons (x ∷ xs) h = (x, xs, refl)

module _ {D T : Type 0} where
  -- Every worker takes tasks; no worker does.
  abbrev pub AllOpen : List (Worker D T) → Type 0
  AllOpen ws = All (λ w. w.ingress.is_closed ≡ false) ws

  abbrev pub AllClosed : List (Worker D T) → Type 0
  AllClosed ws = All (λ w. w.ingress.is_closed ≡ true) ws

  pub All-get :
      (P : Worker D T → Type 0) (ws : List (Worker D T)) (i : ℕ) (w : Worker D T)
      → All P ws
      → get_elem? ws i ≡ some w
      → P w
  All-get P [] i w a e = cc
  All-get P (v ∷ ws) zero w a e = subst P (some-injective v w e) a.0
  All-get P (v ∷ ws) (suc i) w a e = All-get P ws i w a.1 e

  -- The worker at `i` has `task` last among its pending tasks, the other workers are as they were,
  -- and the task is counted.
  pub record Received (i : ℕ) (task : T) (s s' : Scheduler D T) : Type 0 where
    pub before : Worker D T
    pub after : Worker D T
    pub found : get_elem? s.workers i ≡ some before
    pub placed : s'.workers ≡ set s.workers i after
    pub pending :
        (drain after.ingress).0
        ≡ (drain before.ingress).0 ++ record { function = task; submitted_worker = i } ∷ []
    pub deque : after.local ≡ before.local
    pub counted : s'.submitted_count ≡ add64 s.submitted_count 1

  enqueue-open :
      (i : ℕ) (task : T) (s : Scheduler D T) (w : Worker D T)
      → get_elem? s.workers i ≡ some w
      → s.stopping ≡ false
      → w.ingress.is_closed ≡ false
      → enqueue i task s
        ≡ some (
          accepted,
          record s {
            workers = set s.workers i (record w {
              ingress = record (w.ingress) { head = task_for i task ∷ w.ingress.head };
            });
            submitted_count = add64 s.submitted_count 1;
          },
        )
  unfolding enqueue
  enqueue-open i task s w e t o =
      ap (enqueue_at i task s) e
      ∙ ap some (if_false _ _ t)
      ∙ ap (λ r. some (enqueue_result i s w r)) (push-open (task_for i task) w.ingress o)

  enqueue-Received :
      (i : ℕ) (task : T) (s : Scheduler D T)
      → i < length s.workers
      → s.stopping ≡ false
      → AllOpen s.workers
      → (s' : Scheduler D T) × (enqueue i task s ≡ some (accepted, s')) × Received i task s s'
  enqueue-Received i task s h t open_all =
      let (w, e) = get_elem?_lt s.workers i h in
      let o = All-get (λ v. v.ingress.is_closed ≡ false) s.workers i w open_all e in
      (
        _,
        enqueue-open i task s w e t o,
        record {
          before = w;
          after = record w {
            ingress = record (w.ingress) { head = task_for i task ∷ w.ingress.head };
          };
          found = e;
          placed = refl;
          pending = drain-cons (task_for i task) w.ingress;
          deque = refl;
          counted = refl;
        },
      )

  length-load_snapshot : (s : Scheduler D T) → length (load_snapshot s) ≡ length s.workers
  unfolding load_snapshot
  length-load_snapshot s = length-map s.workers worker_snapshot

module _ (F : Double) {T : Type 0} where
  open F use {D}

  -- What `select` answers on the workers of a scheduler, and the balancer that it leaves.
  pub select-load_snapshot :
      (s : Scheduler D T) (affinity : Option ℕ)
      → 0 < length s.workers
      → validate_config F s.load_balancer.config ≡ none
      → (i : ℕ) × (b : LoadBalancer D) × (select F s.load_balancer (load_snapshot s) affinity
          ≡ (chosen i, b))
        × (i < length s.workers)
  select-load_snapshot s affinity h v =
      let (w, ws, e) = list-cons (load_snapshot s) (omega (arith, length-load_snapshot s)) in
      let (i, c, lt) = select-in_bounds F s.load_balancer w ws affinity v in
      let n = length-load_snapshot s in
      (
        i,
        (select F s.load_balancer (load_snapshot s) affinity).1,
        ap (λ r. (r, (select F s.load_balancer (load_snapshot s) affinity).1)) (rw e c),
        omega (arith, n, ap length e),
      )

  -- A running scheduler with a valid configuration, at least one worker and open ingress queues
  -- accepts any task: one of its workers then has the task behind those that were pending there, its
  -- deque and the other workers are as they were, and the count of submitted tasks goes up by one,
  -- modulo 2 ^ 64.
  pub submit-Received :
      (task : T) (affinity : Option ℕ) (s : Scheduler D T)
      → s.running ≡ true
      → s.stopping ≡ false
      → 0 < length s.workers
      → validate_config F s.load_balancer.config ≡ none
      → AllOpen s.workers
      → (i : ℕ) × (s' : Scheduler D T) × (submit F (some task) affinity s ≡ some (accepted, s'))
        × (i < length s.workers)
        × Received i task s s'
  unfolding submit
  submit-Received task affinity s r t h v o =
      let (i, b, e, lt) = select-load_snapshot s affinity h v in
      let (s', q, got) = enqueue-Received i task (record s { load_balancer = b }) lt t o in
      (
        i,
        s',
        if_false {b = not s.running || s.stopping} _ _ (rw (r, t))
            ∙ ap (submit_selected F task s) e
            ∙ q,
        lt,
        record {
          before = got.before;
          after = got.after;
          found = got.found;
          placed = got.placed;
          pending = got.pending;
          deque = got.deque;
          counted = got.counted;
        },
      )
