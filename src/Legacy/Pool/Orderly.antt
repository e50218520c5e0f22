-- ===== src/Legacy/Pool/Orderly.antt =====
-- fiber_lib/6hook/scheduler.cpp: what holds of the scheduler after any steps of its threads, while
-- nothing but a task that runs submits a task once `stop` has begun.
use coroutine_library.Prelude.{
  ℕ, ◌+◌, ◌≤◌, ◌<◌, ◌≡◌, refl, sym, ap, ◌∙◌, Bool, true, false, Option, none, some, if◌then◌else◌,
  List, [], ◌∷◌, length, get_elem?, set, is_some, ◌||◌, Bool-cases, inl, inr, arith, length-set,
}
use coroutine_library.Prelude.Int.{ℤ}
use coroutine_library.Prelude.Words.{add64, sub64, size_mod}
use coroutine_library.Legacy.Tasks.{
  ScheduleTask, TaskList, is_empty_list, take, executed, is_stopping, begin_idle, end_idle,
}
use coroutine_library.Legacy.Pool.{
  Pool, PoolWorker, Phase, unstarted, seeking, working, unoccupied, idling, rested, ended, Caller,
  outside_stop, in_fiber, in_joins, returned, sought, worker_act, put_worker, worker_found,
  worker_step, is_working, has_ended,
}
use coroutine_library.Legacy.Pool.Counts.{
  one_if, is_released, is_live, count_if, count_if-set, count_if-get_elem?, count_if-length,
  take-length, take-active,
}

abbrev pub is_called : Caller → Bool
is_called outside_stop = false
is_called in_fiber = true
is_called in_joins = true
is_called returned = true

count_active :
    (b c : Bool) (a a' n n' : ℕ)
    → a' ≡ (if c then (if b then a else add64 a 1) else if b then sub64 a 1 else a)
    → a ≡ n
    → n' + one_if b ≡ n + one_if c
    → n' < size_mod
    → n < size_mod
    → one_if b ≤ n
    → a' ≡ n'
count_active true true a a' n n' h e k l m w = omega arith
count_active false true a a' n n' h e k l m w = ground arith
count_active true false a a' n n' h e k l m w = ground arith
count_active false false a a' n n' h e k l m w = omega arith

module _ {F C : Type 0} where
  -- `quiet`: once a thread is to leave, `stop` has begun and there is no task in the list or at a
  -- thread. `books`: a task that was submitted is executed, at a thread or in the list.
  pub record Orderly (p : Pool F C) : Type 0 where
    pub bounded : length p.workers < size_mod
    pub room : p.list.stopping ≡ false → p.held ≡ 0 → length p.workers + p.thread_count < size_mod
    pub active : p.list.active ≡ count_if is_working p.workers
    pub quiet :
        0 < count_if is_released p.workers
        → (p.list.stopping ≡ true) × (length p.list.tasks ≡ 0) × (count_if is_working p.workers ≡ 0)
    pub begun : p.list.stopping ≡ is_called p.caller
    pub joined : p.caller ≡ returned → count_if is_live p.workers ≡ 0
    pub books : p.submissions ≡ p.executions + length p.list.tasks + count_if is_working p.workers

  empty_length : (ts : List (ScheduleTask F C)) → is_empty_list ts ≡ true → length ts ≡ 0
  empty_length [] h = refl
  empty_length (t ∷ ts) h = cc

  -- A change of one thread, in numbers.
  pub record Swapped (ws : List (PoolWorker F C)) (i : ℕ) (w v : PoolWorker F C) : Type 0 where
    pub same_length : length (set ws i v) ≡ length ws
    pub at_work :
        count_if is_working (set ws i v) + one_if (is_working w)
        ≡ count_if is_working ws + one_if (is_working v)
    pub works : one_if (is_working w) ≤ count_if is_working ws
    pub fits : count_if is_working (set ws i v) ≤ length (set ws i v)
    pub fitted : count_if is_working ws ≤ length ws
    pub leaving :
        count_if is_released (set ws i v) + one_if (is_released w)
        ≡ count_if is_released ws + one_if (is_released v)
    pub living :
        count_if is_live (set ws i v) + one_if (is_live w)
        ≡ count_if is_live ws + one_if (is_live v)
    pub lives : one_if (is_live w) ≤ count_if is_live ws

  pub swapped :
      (ws : List (PoolWorker F C)) (i : ℕ) (w v : PoolWorker F C)
      → get_elem? ws i ≡ some w
      → Swapped ws i w v
  swapped ws i w v h = record {
    same_length = length-set ws i v;
    at_work = count_if-set is_working ws i w v h;
    works = count_if-get_elem? is_working ws i w h;
    fits = count_if-length is_working (set ws i v);
    fitted = count_if-length is_working ws;
    leaving = count_if-set is_released ws i w v h;
    living = count_if-set is_live ws i w v h;
    lives = count_if-get_elem? is_live ws i w h;
  }

  abbrev worker : ℤ → Phase F C → Bool → PoolWorker F C
  worker n ph b = record { thread = n; phase = ph; idle_ended = b }

  stopping-Empty :
      (l : TaskList F C)
      → is_stopping l ≡ true
      → (l.stopping ≡ true) × (length l.tasks ≡ 0) × (l.active ≡ 0)
  unfolding is_stopping
  stopping-Empty l h = (ground arith, empty_length l.tasks (ground arith), ground arith)

  -- What one step of a thread does to the counters and the list.
  record Passes (p q : Pool F C) (i : ℕ) (w v : PoolWorker F C) : Type 0 where
    workers : q.workers ≡ set p.workers i v
    caller : (q.caller ≡ p.caller) × (q.held ≡ p.held) × (q.thread_count ≡ p.thread_count)
    stopping : (q.list.stopping ≡ p.list.stopping) × (q.submissions ≡ p.submissions)
    active : q.list.active ≡ (
        if is_working v
        then (if is_working w then p.list.active else add64 p.list.active 1)
        else if is_working w
        then sub64 p.list.active 1
        else p.list.active)
    carried :
        q.executions + length q.list.tasks + one_if (is_working v)
        ≡ p.executions + length p.list.tasks + one_if (is_working w)
    no_longer : length q.list.tasks ≤ length p.list.tasks
    from_list : one_if (is_working v) ≤ one_if (is_working w) + length p.list.tasks
    living : one_if (is_live v) ≤ one_if (is_live w)
    leaving : one_if (is_released v) ≤ one_if (is_released w) + one_if (is_stopping p.list)

  put-Orderly :
      (i : ℕ) (w v : PoolWorker F C) (p q : Pool F C)
      → get_elem? p.workers i ≡ some w
      → Passes p q i w v
      → Orderly p
      → Orderly q
  put-Orderly i w v p q h s o =
      let c = swapped p.workers i w v h in
      let (same_caller, same_held, same_count) = s.caller in
      let (same_stop, same_sub) = s.stopping in
      record {
        bounded = rw s.workers (omega arith);
        room = λ a b.
            rw (s.workers, same_count)
              (let r = o.room (sym same_stop ∙ a) (sym same_held ∙ b) in omega arith);
        active = rw s.workers (
            count_active _ _ _ _ _ _ s.active o.active c.at_work (omega arith) (omega arith)
              c.works);
        quiet = λ some_released.
            rw (s.workers, same_stop)
              (elim (Bool-cases (is_stopping p.list)) [
                | inl e ↦
                    let (on, empty, idle) = stopping-Empty p.list e in
                    (on, omega arith, omega arith)
                | inr e ↦
                    let before = rw e at s.leaving in
                    let now = rw s.workers at some_released in
                    let (on, empty, idle) = o.quiet (omega arith) in (on, omega arith, omega arith)
              ]);
        begun = same_stop ∙ o.begun ∙ ap is_called (sym same_caller);
        joined = λ a. rw s.workers (let r = o.joined (sym same_caller ∙ a) in omega arith);
        books = rw (s.workers, same_sub) (omega arith);
      }

  sought-Orderly :
      (i : ℕ) (n : ℤ) (b : Bool) (p : Pool F C) (r : Option (ScheduleTask F C) × TaskList F C)
      → get_elem? p.workers i ≡ some (worker n seeking b)
      → length r.1.tasks + one_if (is_some r.0) ≡ length p.list.tasks
      → (r.1.active ≡ (if is_some r.0 then add64 p.list.active 1 else p.list.active))
        × (r.1.stopping ≡ p.list.stopping)
      → Orderly p
      → Orderly (put_worker i (sought (worker n seeking b) r p))
  unfolding sought put_worker is_working has_ended
  sought-Orderly i n b p (none, l) h len act o =
      put-Orderly i _ (worker n unoccupied b) p _ h (ground arith) o
  sought-Orderly i n b p (some t, l) h len act o =
      put-Orderly i _ (worker n (working t) b) p _ h (ground arith) o

  -- One step of a thread, by where it is.
  act-Orderly :
      (i : ℕ) (n : ℤ) (ph : Phase F C) (b : Bool) (p : Pool F C)
      → get_elem? p.workers i ≡ some (worker n ph b)
      → Orderly p
      → Orderly (put_worker i (worker_act ph (worker n ph b) p))
  unfolding worker_act put_worker is_working has_ended begin_idle end_idle executed
  act-Orderly i n unstarted b p h o = put-Orderly i _ (worker n unstarted b) p _ h (ground arith) o
  act-Orderly i n seeking b p h o =
      sought-Orderly i n b p (take n p.list) h (take-length n p.list) (take-active n p.list) o
  act-Orderly i n (working t) b p h o = put-Orderly i _ (worker n seeking b) p _ h (ground arith) o
  act-Orderly i n unoccupied true p h o =
      put-Orderly i _ (worker n ended true) p _ h (ground arith) o
  act-Orderly i n unoccupied false p h o =
      put-Orderly i _ (worker n idling false) p _ h (ground arith) o
  act-Orderly i n idling b p h o =
      put-Orderly i _ (worker n rested (b || is_stopping p.list)) p _ h (ground arith) o
  act-Orderly i n rested b p h o = put-Orderly i _ (worker n seeking b) p _ h (ground arith) o
  act-Orderly i n ended b p h o = put-Orderly i _ (worker n ended b) p _ h (ground arith) o

  worker_found-Orderly :
      (i : ℕ) (p : Pool F C) (o : Option (PoolWorker F C))
      → get_elem? p.workers i ≡ o
      → Orderly p
      → Orderly (worker_found i p o)
  unfolding worker_found
  worker_found-Orderly i p none h o = o
  worker_found-Orderly i p (some w) h o = act-Orderly i w.thread w.phase w.idle_ended p h o

  pub worker_step-Orderly : (i : ℕ) (p : Pool F C) → Orderly p → Orderly (worker_step i p)
  unfolding worker_step
  worker_step-Orderly i p o = worker_found-Orderly i p (get_elem? p.workers i) refl o
