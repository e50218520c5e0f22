-- ===== src/Legacy/Pool/Stopped.antt =====
-- fiber_lib/6hook/scheduler.cpp: what `stop` has done when it returns.
use coroutine_library.Prelude.{
  ℕ, ◌+◌, ◌≤◌, ◌<◌, ◌≡◌, refl, sym, ap, ◌∙◌, Bool, true, false, some, List, [], ◌∷◌, length,
  get_elem?, ltb, ◌&&◌, Bool-cases, inl, inr, arith, if_true, if_false,
}
use coroutine_library.Prelude.Int.{ℤ}
use coroutine_library.Prelude.Words.{size_mod}
use coroutine_library.Legacy.Tasks.{ScheduleTask}
use coroutine_library.Legacy.Pool.{
  Pool, PoolWorker, Caller, outside_stop, in_fiber, in_joins, returned, PoolEvent, worker_acts,
  spawns, arrives, starts, stop_acts, construct, is_working, has_ended, pool_step, caller_act,
  first_ended, all_ended,
}
use coroutine_library.Legacy.Pool.Counts.{
  one_if, is_released, is_live, count_if, count_if-get_elem?, all_ended-count_if,
}
use coroutine_library.Legacy.Pool.Orderly.{Orderly, worker_step-Orderly, is_called}
use coroutine_library.Legacy.Pool.Beginning.{
  is_joins, carry, submit_task-Orderly, not_released_before, spawn_found-Orderly, start-Orderly,
  stop_begins-Orderly,
}

module _ {F C : Type 0} where
  caller_act-Orderly :
      (c : Caller) (here : Bool) (p q : Pool F C)
      → p.caller ≡ c
      → caller_act c here p ≡ some q
      → Orderly p
      → Orderly q
  unfolding caller_act
  caller_act-Orderly outside_stop here p q c h o =
      stop_begins-Orderly here p q (o.begun ∙ ap is_called c) h o
  caller_act-Orderly in_fiber here p q c h o =
      carry _ q h (elim (Bool-cases (first_ended (get_elem? p.workers 0))) [
        | inl e ↦ rw e (record {
          bounded = o.bounded;
          room = λ a b. absurd (let on = o.begun ∙ ap is_called c in cc);
          active = o.active;
          quiet = o.quiet;
          begun = o.begun ∙ ap is_called c;
          joined = λ r. absurd (let joins = ap is_joins r in cc);
          books = o.books;
        })
        | inr e ↦ rw e o
      ])
  caller_act-Orderly in_joins here p q c h o =
      carry _ q h (elim (Bool-cases (all_ended p.workers)) [
        | inl e ↦ rw e (record {
          bounded = o.bounded;
          room = o.room;
          active = o.active;
          quiet = o.quiet;
          begun = o.begun ∙ ap is_called c;
          joined = λ r. all_ended-count_if p.workers e;
          books = o.books;
        })
        | inr e ↦ rw e o
      ])
  caller_act-Orderly returned here p q c h o = carry p q h o

  -- Submissions by other code than the tasks that run come before `stop`.
  abbrev pub IsOnTime : PoolEvent F C → Pool F C → Type 0
  IsOnTime (worker_acts i) p = Unit {0}
  IsOnTime (spawns i t) p = Unit {0}
  IsOnTime (arrives t) p = p.list.stopping ≡ false
  IsOnTime (starts ids) p = Unit {0}
  IsOnTime (stop_acts here) p = Unit {0}

  -- The schedulers that steps lead to, from a new one.
  pub data PoolReached : Pool F C → Type 0 where
    constructed :
        {p : Pool F C} (threads : ℕ) (use_caller free : Bool) (root : ℤ)
        → threads < size_mod
        → construct threads use_caller free root ≡ some p
        → PoolReached p
    advanced :
        {p q : Pool F C} (e : PoolEvent F C)
        → PoolReached p
        → IsOnTime e p
        → pool_step e p ≡ some q
        → PoolReached q

  step-Orderly :
      (e : PoolEvent F C) (p q : Pool F C)
      → IsOnTime e p
      → pool_step e p ≡ some q
      → Orderly p
      → Orderly q
  unfolding pool_step
  step-Orderly (worker_acts i) p q t h o = carry _ q h (worker_step-Orderly i p o)
  step-Orderly (spawns i t) p q k h o =
      carry _ q h (spawn_found-Orderly i t p (get_elem? p.workers i) refl o)
  step-Orderly (arrives t) p q k h o =
      carry _ q h (submit_task-Orderly t p (not_released_before p k o) o)
  step-Orderly (starts ids) p q k h o = start-Orderly ids p q h o
  step-Orderly (stop_acts here) p q k h o = caller_act-Orderly p.caller here p q refl h o

  construct-Orderly :
      (threads : ℕ) (use_caller free : Bool) (root : ℤ) (p : Pool F C)
      → threads < size_mod
      → construct threads use_caller free root ≡ some p
      → Orderly p
  unfolding construct is_working has_ended
  construct-Orderly threads use_caller free root p b h = elim (Bool-cases (ltb 0 threads && free)) [
    | inl e ↦ carry _ p (sym (if_true _ _ e) ∙ h) (elim (Bool-cases use_caller) [
      | inl u ↦ rw u (ground (arith, b, e))
      | inr u ↦ rw u (ground (arith, b, e))
    ])
    | inr e ↦ absurd (let no = sym (if_false _ _ e) ∙ h in cc)
  ]

  pub PoolReached-Orderly : (p : Pool F C) → PoolReached p → Orderly p
  PoolReached-Orderly p (constructed threads u f root b h) =
      construct-Orderly threads u f root p b h
  PoolReached-Orderly p (advanced {p = before} e r t h) =
      step-Orderly e before p t h (PoolReached-Orderly before r)

  nil_length : (ts : List (ScheduleTask F C)) → length ts ≡ 0 → ts ≡ []
  nil_length [] h = refl
  nil_length (t ∷ ts) h = absurd (omega (arith, h))

  live_or_released :
      (ws : List (PoolWorker F C)) → length ws ≤ count_if is_live ws + count_if is_released ws
  unfolding has_ended
  live_or_released [] = omega arith
  live_or_released (w ∷ ws) = ground (arith, live_or_released ws)

  idle_if : (w : PoolWorker F C) → one_if (is_working w) ≤ 0 → is_working w ≡ false
  idle_if w h = ground (arith, h)

  -- A scheduler of fewer than 2 ^ 64 threads that any steps of its threads have led to, in any order,
  -- where only tasks that run submit tasks once `stop` has begun. If a thread has left `run`, `stop` has begun, the list has no
  -- task, and no thread executes one.
  pub ended-quiet :
      (p : Pool F C) (i : ℕ) (w : PoolWorker F C)
      → PoolReached p
      → get_elem? p.workers i ≡ some w
      → has_ended w ≡ true
      → (p.list.stopping ≡ true)
        × (p.list.tasks ≡ [])
        × ((j : ℕ) (v : PoolWorker F C) → get_elem? p.workers j ≡ some v → is_working v ≡ false)
  ended-quiet p i w r h e =
      let o = PoolReached-Orderly p r in
      let there = count_if-get_elem? is_released p.workers i w h in
      let (on, empty, none_work) = o.quiet (ground (arith, e, there)) in
      (
        on,
        nil_length p.list.tasks empty,
        λ j v k. idle_if v (let n = count_if-get_elem? is_working p.workers j v k in omega arith),
      )

  -- A scheduler of fewer than 2 ^ 64 threads that any steps of its threads have led to, in any order,
  -- where only tasks that run submit tasks once `stop` has begun. When `stop`, which is called once,
  -- has returned to its caller, and there is a thread, the list has no task, and threads have executed
  -- as many tasks as the list has taken.
  pub stop-executions :
      (p : Pool F C)
      → PoolReached p
      → p.caller ≡ returned
      → 0 < length p.workers
      → (p.list.tasks ≡ []) × (p.executions ≡ p.submissions)
  stop-executions p r c n =
      let o = PoolReached-Orderly p r in
      let live = o.joined c in
      let some_released = live_or_released p.workers in
      let (on, empty, none_work) = o.quiet (omega (arith, n)) in
      (nil_length p.list.tasks empty, omega arith)
