-- ===== src/Legacy/Pool/Counts.antt =====
-- fiber_lib/6hook/scheduler.cpp: how many threads are in a part of `run`, and how long the list is.
use coroutine_library.Prelude.{
  zero, suc, ℕ, ◌+◌, ◌≤◌, ◌≡◌, refl, ap, Bool, true, false, some, if◌then◌else◌, List, [], ◌∷◌,
  ◌++◌, length, get_elem?, set, is_some, not, ◌||◌, Bool-cases, inl, inr, arith, length-append,
}
use coroutine_library.Prelude.Int.{ℤ}
use coroutine_library.Prelude.Words.{add64}
use coroutine_library.Legacy.Tasks.{
  ScheduleTask, TaskList, has_work, schedule_lock, tickle_if, take, taken, find_task, may_run,
  passed_over,
}
use coroutine_library.Legacy.Pool.{PoolWorker, is_working, has_ended, new_workers, all_ended}

abbrev pub one_if : Bool → ℕ
one_if true = 1
one_if false = 0

module _ {F C : Type 0} where
  -- Whether a thread has left the loop or its next turn without a task will leave it.
  abbrev pub is_released : PoolWorker F C → Bool
  is_released w = w.idle_ended || has_ended w

  abbrev pub is_live : PoolWorker F C → Bool
  is_live w = not (has_ended w)

  abbrev pub count_if : (PoolWorker F C → Bool) → List (PoolWorker F C) → ℕ
  count_if f [] = 0
  count_if f (w ∷ ws) = one_if (f w) + count_if f ws

  from_some : {x : PoolWorker F C} (y : PoolWorker F C) → some x ≡ some y → x ≡ y
  from_some y e = cc

  module _ (f : PoolWorker F C → Bool) where
    pub count_if-set :
        (ws : List (PoolWorker F C)) (i : ℕ) (w v : PoolWorker F C)
        → get_elem? ws i ≡ some w
        → count_if f (set ws i v) + one_if (f w) ≡ count_if f ws + one_if (f v)
    count_if-set [] i w v h = cc
    count_if-set (x ∷ ws) zero w v h =
        let same : x ≡ w = from_some w h in omega (arith, ap (λ y. one_if (f y)) same)
    count_if-set (x ∷ ws) (suc i) w v h = omega (arith, count_if-set ws i w v h)

    pub count_if-get_elem? :
        (ws : List (PoolWorker F C)) (i : ℕ) (w : PoolWorker F C)
        → get_elem? ws i ≡ some w
        → one_if (f w) ≤ count_if f ws
    count_if-get_elem? [] i w h = cc
    count_if-get_elem? (x ∷ ws) zero w h =
        let same : x ≡ w = from_some w h in omega (arith, ap (λ y. one_if (f y)) same)
    count_if-get_elem? (x ∷ ws) (suc i) w h = omega (arith, count_if-get_elem? ws i w h)

    pub count_if-length : (ws : List (PoolWorker F C)) → count_if f ws ≤ length ws
    count_if-length [] = omega arith
    count_if-length (x ∷ ws) = ground (arith, count_if-length ws)

    pub count_if-append :
        (ws vs : List (PoolWorker F C)) → count_if f (ws ++ vs) ≡ count_if f ws + count_if f vs
    count_if-append [] vs = omega arith
    count_if-append (x ∷ ws) vs = omega (arith, count_if-append ws vs)

  pub append-new_workers :
      (ws : List (PoolWorker F C)) (n : ℕ) (ids : ℕ → ℤ)
      → (count_if is_working (ws ++ new_workers n ids) ≡ count_if is_working ws)
        × (count_if is_released (ws ++ new_workers n ids) ≡ count_if is_released ws)
        × (length (ws ++ new_workers n ids) ≡ length ws + n)
  unfolding new_workers is_working has_ended
  append-new_workers [] zero ids = (refl, refl, refl)
  append-new_workers [] (suc n) ids =
      let (a, b, c) = append-new_workers [] n (λ i. ids (suc i)) in
      (omega arith, omega arith, omega arith)
  append-new_workers (w ∷ ws) n ids =
      let (a, b, c) = append-new_workers ws n ids in (omega arith, omega arith, omega arith)

  pub all_ended-count_if :
      (ws : List (PoolWorker F C)) → all_ended ws ≡ true → count_if is_live ws ≡ 0
  unfolding all_ended
  all_ended-count_if [] h = refl
  all_ended-count_if (w ∷ ws) h = ground (arith, all_ended-count_if ws)

  find_task-length :
      (thread : ℤ) (ts : List (ScheduleTask F C))
      → length (find_task thread ts).left + one_if (is_some (find_task thread ts).task) ≡ length ts
  unfolding find_task passed_over
  find_task-length thread [] = omega arith
  find_task-length thread (t ∷ ts) = elim (Bool-cases (may_run thread t)) [
    | inl e ↦ rw e (omega arith)
    | inr e ↦ rw e (omega (arith, find_task-length thread ts))
  ]

  pub take-length :
      (thread : ℤ) (l : TaskList F C)
      → length (take thread l).1.tasks + one_if (is_some (take thread l).0) ≡ length l.tasks
  unfolding take tickle_if taken
  take-length thread l = ground (arith, find_task-length thread l.tasks)

  pub take-active :
      (thread : ℤ) (l : TaskList F C)
      → ((take thread l).1.active
          ≡ (if is_some (take thread l).0 then add64 l.active 1 else l.active))
        × ((take thread l).1.stopping ≡ l.stopping)
  unfolding take tickle_if taken
  take-active thread l = (ground arith, ground arith)

  pub schedule_lock-length :
      (t : ScheduleTask F C) (l : TaskList F C)
      → (length (schedule_lock t l).tasks ≡ length l.tasks + one_if (has_work t))
        × ((schedule_lock t l).active ≡ l.active)
        × ((schedule_lock t l).stopping ≡ l.stopping)
  unfolding schedule_lock tickle_if
  schedule_lock-length t l =
      (ground (arith, length-append l.tasks (t ∷ [])), ground arith, ground arith)
