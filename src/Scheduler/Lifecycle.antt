-- ===== src/Scheduler/Lifecycle.antt =====
-- src/scheduler.cpp: what becomes of tasks when the scheduler is stopped, and after a new start.
use coroutine_library.Prelude.{
  ℕ, ◌<◌, ◌≡◌, inl, inr, refl, sym, ap, ◌∙◌, subst, true, false, Option, none, some, List, [], ◌∷◌,
  map, length, length-map, get_elem?_lt, set, not, ◌||◌, arith, Bool-cases, if_true, if_false,
}
use coroutine_library.Floats.{Double}
use coroutine_library.Config.{validate_config}
use coroutine_library.Ingress.{Ingress, drain}
use coroutine_library.Ingress.Order.{push-closed}
use coroutine_library.Ingress
use coroutine_library.Metrics.{Source}
use coroutine_library.Scheduler.{
  Worker, Scheduler, stopped, launch, halt, start, stop, enqueue, enqueue_at, enqueue_result,
  submit, submit_selected,
}
use coroutine_library.Scheduler.Submission.{AllClosed, All-get, task_for, select-load_snapshot}

module _ {D T : Type 0} where
  enqueue-closed :
      (i : ℕ) (task : T) (s : Scheduler D T)
      → i < length s.workers
      → AllClosed s.workers
      → (s' : Scheduler D T) × (enqueue i task s ≡ some (stopped, s'))
  unfolding enqueue
  enqueue-closed i task s h c =
      let (w, e) = get_elem?_lt s.workers i h in
      let o = All-get (λ v. v.ingress.is_closed ≡ true) s.workers i w c e in
      elim (Bool-cases s.stopping) [
        | inl t ↦ (s, ap (enqueue_at i task s) e ∙ ap some (if_true _ _ t))
        | inr t ↦ (
          record s { workers = set s.workers i w },
          ap (enqueue_at i task s) e
              ∙ ap some (if_false _ _ t)
              ∙ ap (λ r. some (enqueue_result i s w r)) (push-closed (task_for i task) w.ingress o),
        )
      ]

  halt-AllClosed : (ws : List (Worker D T)) → AllClosed (map halt ws)
  unfolding halt Ingress.close
  halt-AllClosed [] = tt
  halt-AllClosed (w ∷ ws) = (refl, halt-AllClosed ws)

  launch-AllClosed : (ws : List (Worker D T)) → AllClosed ws → AllClosed (map launch ws)
  unfolding launch
  launch-AllClosed [] c = tt
  launch-AllClosed (w ∷ ws) c = (c.0, launch-AllClosed ws c.1)

  stop_eq :
      (s : Scheduler D T)
      → s.running ≡ true
      → ((stop s).running ≡ false)
        × ((stop s).stopping ≡ true)
        × ((stop s).workers ≡ map halt s.workers)
        × ((stop s).load_balancer ≡ s.load_balancer)
  unfolding stop
  stop_eq s r = simp r (refl, refl, refl, refl)

  start_eq :
      (source : Source D) (s : Scheduler D T)
      → s.running ≡ false
      → ((start source s).running ≡ true)
        × ((start source s).stopping ≡ false)
        × ((start source s).workers ≡ map launch s.workers)
        × ((start source s).load_balancer ≡ s.load_balancer)
  unfolding start
  start_eq source s r = simp r (refl, refl, refl, refl)

module _ (F : Double) {T : Type 0} where
  open F use {D}

  submit-AllClosed :
      (task : T) (affinity : Option ℕ) (s : Scheduler D T)
      → s.running ≡ true
      → s.stopping ≡ false
      → 0 < length s.workers
      → validate_config F s.load_balancer.config ≡ none
      → AllClosed s.workers
      → (s' : Scheduler D T) × (submit F (some task) affinity s ≡ some (stopped, s'))
  unfolding submit
  submit-AllClosed task affinity s r t h v c =
      let (i, b, e, lt) = select-load_snapshot F s affinity h v in
      let (s', q) = enqueue-closed i task (record s { load_balancer = b }) lt c in
      (
        s',
        if_false {b = not s.running || s.stopping} _ _ (rw (r, t))
            ∙ ap (submit_selected F task s) e
            ∙ q,
      )

  submit-stopped :
      (task : T) (affinity : Option ℕ) (s : Scheduler D T)
      → s.running ≡ false
      → submit F (some task) affinity s ≡ some (stopped, s)
  unfolding submit
  submit-stopped task affinity s r = if_true {b = not s.running || s.stopping} _ _ (rw r)

  -- A running scheduler with a worker and a valid configuration, once stopped, refuses every task
  -- and is left as it was. Started again it runs, and refuses every task all the same.
  pub submit-stop-start :
      (task : T) (affinity : Option ℕ) (source : Source D) (s : Scheduler D T)
      → s.running ≡ true
      → 0 < length s.workers
      → validate_config F s.load_balancer.config ≡ none
      → (submit F (some task) affinity (stop s) ≡ some (stopped, stop s))
        × ((start source (stop s)).running ≡ true)
        × ((s' : Scheduler D T) × (submit F (some task) affinity (start source (stop s))
              ≡ some (stopped, s')))
  submit-stop-start task affinity source s r h v =
      let (r', t', ws, lb) = stop_eq s r in
      let (r'', t'', ws', lb') = start_eq source (stop s) r' in
      let n : length (start source (stop s)).workers ≡ length s.workers =
        ap length ws'
        ∙ length-map (stop s).workers launch
        ∙ ap length ws
        ∙ length-map s.workers halt in
      (
        submit-stopped task affinity (stop s) r',
        r'',
        submit-AllClosed task affinity (start source (stop s)) r'' t'' (omega arith)
            (ap (λ b. validate_config F b.config) (lb' ∙ lb) ∙ v)
            (subst AllClosed (sym (ws' ∙ ap (map launch) ws))
              (launch-AllClosed _ (halt-AllClosed s.workers))),
      )
