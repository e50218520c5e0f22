-- ===== src/Legacy/Pool/Beginning.antt =====
-- fiber_lib/6hook/scheduler.cpp: submissions, `start`, and the first part of `stop`.
use coroutine_library.Prelude.{
  ℕ, ◌+◌, ◌≤◌, ◌≡◌, refl, sym, ap, ◌∙◌, Bool, true, false, Option, none, some, ◌++◌, length,
  get_elem?, set, not, ◌==◌, Bool-cases, inl, inr, arith, if_true, if_false,
}
use coroutine_library.Prelude.Int.{ℤ}
use coroutine_library.Legacy.Tasks.{ScheduleTask, TaskList, is_stopping}
use coroutine_library.Legacy.Pool.{
  Pool, PoolWorker, Phase, unstarted, seeking, working, unoccupied, idling, rested, ended, Caller,
  outside_stop, in_fiber, in_joins, returned, start, new_workers, submit_task, is_working,
  has_ended, is_unstarted, spawn_found, stop_begins, resume_root, wake_all,
}
use coroutine_library.Legacy.Pool.Counts.{
  one_if, is_released, count_if, count_if-get_elem?, append-new_workers, schedule_lock-length,
}
use coroutine_library.Legacy.Pool.Orderly.{Orderly, swapped, is_called}

abbrev pub is_joins : Caller → Bool
is_joins outside_stop = false
is_joins in_fiber = true
is_joins in_joins = true
is_joins returned = false

module _ {F C : Type 0} where
  from_some : {p : Pool F C} (q : Pool F C) → some p ≡ some q → p ≡ q
  from_some q e = cc

  pub carry : (p q : Pool F C) → some p ≡ some q → Orderly p → Orderly q
  carry p q e o = rw (sym (from_some q e)) o

  pub submit_task-Orderly :
      (t : ScheduleTask F C) (p : Pool F C)
      → count_if is_released p.workers ≡ 0
      → Orderly p
      → Orderly (submit_task t p)
  unfolding submit_task
  submit_task-Orderly t p h o =
      let (longer, active, stopping) = schedule_lock-length t p.list in
      record {
        bounded = o.bounded;
        room = λ a. o.room (sym stopping ∙ a);
        active = active ∙ o.active;
        quiet = λ n. absurd (omega (arith, h));
        begun = stopping ∙ o.begun;
        joined = o.joined;
        books = ground (arith, longer);
      }

  -- No thread is to leave while a task is executed, or before `stop`.
  not_released :
      (p : Pool F C)
      → 1 ≤ count_if is_working p.workers
      → Orderly p
      → count_if is_released p.workers ≡ 0
  not_released p h o = grind (arith, o.quiet)

  pub not_released_before :
      (p : Pool F C) → p.list.stopping ≡ false → Orderly p → count_if is_released p.workers ≡ 0
  not_released_before p h o = grind (arith, o.quiet)

  pub spawn_found-Orderly :
      (i : ℕ) (t : ScheduleTask F C) (p : Pool F C) (w : Option (PoolWorker F C))
      → get_elem? p.workers i ≡ w
      → Orderly p
      → Orderly (spawn_found t p w)
  unfolding spawn_found
  spawn_found-Orderly i t p none h o = o
  spawn_found-Orderly i t p (some w) h o = elim (Bool-cases (is_working w)) [
    | inl e ↦ rw e (
        submit_task-Orderly t p
          (let n = count_if-get_elem? is_working p.workers i w h in
            not_released p (omega (arith, ap one_if e)) o)
          o)
    | inr e ↦ rw e o
  ]

  started :
      (p : Pool F C) (ids : ℕ → ℤ)
      → p.list.stopping ≡ false
      → p.held ≡ 0
      → Orderly p
      → Orderly (record p {
        workers = p.workers ++ new_workers p.thread_count ids;
        held = p.thread_count;
      })
  started p ids e z o =
      let (at_work, released, longer) = append-new_workers p.workers p.thread_count ids in
      let room = o.room e z in
      let none_released = not_released_before p e o in
      record {
        bounded = omega arith;
        room = λ a b. omega (arith, b);
        active = o.active ∙ sym at_work;
        quiet = λ n. absurd (omega (arith, n));
        begun = o.begun;
        joined = λ r. absurd (let called = ap is_called r in cc);
        books = omega (arith, o.books);
      }

  pub start-Orderly : (ids : ℕ → ℤ) (p q : Pool F C) → start ids p ≡ some q → Orderly p → Orderly q
  unfolding start
  start-Orderly ids p q h o = elim (Bool-cases p.list.stopping) [
    | inl e ↦ carry p q (sym (if_true _ _ e) ∙ h) o
    | inr e ↦ elim (Bool-cases (p.held == 0)) [
      | inl z ↦
          carry _ q (sym (if_false _ _ e ∙ if_false _ _ (ap not z)) ∙ h)
            (started p ids e (ground arith) o)
      | inr z ↦ absurd (let no = sym (if_false _ _ e ∙ if_true _ _ (ap not z)) ∙ h in cc)
    ]
  ]

  unstarted_parts :
      (n : ℤ) (ph : Phase F C) (b : Bool)
      → is_unstarted (record { thread = n; phase = ph; idle_ended = b }) ≡ true
      → (is_working (record { thread = n; phase = ph; idle_ended = b }) ≡ false)
        × (has_ended (record { thread = n; phase = ph; idle_ended = b }) ≡ false)
  unfolding is_unstarted is_working has_ended
  unstarted_parts n unstarted b h = (refl, refl)
  unstarted_parts n seeking b h = absurd (cc)
  unstarted_parts n (working t) b h = absurd (cc)
  unstarted_parts n unoccupied b h = absurd (cc)
  unstarted_parts n idling b h = absurd (cc)
  unstarted_parts n rested b h = absurd (cc)
  unstarted_parts n ended b h = absurd (cc)

  root_begins :
      (n : ℕ) (p : Pool F C) (w : PoolWorker F C)
      → get_elem? p.workers 0 ≡ some w
      → is_unstarted w ≡ true
      → p.list.stopping ≡ false
      → Orderly p
      → Orderly (record p {
        list = wake_all n (record p.list { stopping = true });
        workers = set p.workers 0 (record w { phase = seeking });
        caller = in_fiber;
      })
  unfolding wake_all is_working has_ended
  root_begins n p w h u e o =
      let c = swapped p.workers 0 w (record w { phase = seeking }) h in
      let (not_working, not_ended) = unstarted_parts w.thread w.phase w.idle_ended u in
      let same_work : count_if is_working (set p.workers 0 (record w { phase = seeking }))
          ≡ count_if is_working p.workers =
        ground (arith, not_working, c.at_work) in
      let same_released = not_released_before p e o in
      record {
        bounded = omega (arith, c.same_length);
        room = λ a b. absurd (cc);
        active = o.active ∙ sym same_work;
        quiet = λ n. absurd (ground (arith, not_ended, c.leaving, n, same_released));
        begun = refl;
        joined = λ r. absurd (let joins = ap is_joins r in cc);
        books = o.books ∙ ap (λ k. p.executions + length p.list.tasks + k) (sym same_work);
      }

  joins_begin :
      (n : ℕ) (p : Pool F C)
      → p.list.stopping ≡ false
      → Orderly p
      → Orderly (record p {
        list = wake_all n (record p.list { stopping = true });
        held = 0;
        caller = in_joins;
      })
  unfolding wake_all
  joins_begin n p e o =
      let none_released = not_released_before p e o in
      record {
        bounded = o.bounded;
        room = λ a b. absurd (cc);
        active = o.active;
        quiet = λ n. absurd (omega (arith, n));
        begun = refl;
        joined = λ r. absurd (let called = ap is_joins r in cc);
        books = o.books;
      }

  resume_root-Orderly :
      (n : ℕ) (p q : Pool F C) (w : Option (PoolWorker F C))
      → get_elem? p.workers 0 ≡ w
      → p.list.stopping ≡ false
      → resume_root (record p { list = wake_all n (record p.list { stopping = true }) }) w ≡ some q
      → Orderly p
      → Orderly q
  unfolding resume_root
  resume_root-Orderly n p q none h e r o = absurd (cc)
  resume_root-Orderly n p q (some w) h e r o = elim (Bool-cases (is_unstarted w)) [
    | inl u ↦ carry _ q (sym (if_true _ _ u) ∙ r) (root_begins n p w h u e o)
    | inr u ↦ absurd (let no = sym (if_false _ _ u) ∙ r in cc)
  ]

  not_stopping : (l : TaskList F C) → l.stopping ≡ false → is_stopping l ≡ false
  unfolding is_stopping
  not_stopping l h = ground arith

  pub stop_begins-Orderly :
      (here : Bool) (p q : Pool F C)
      → p.list.stopping ≡ false
      → stop_begins here p ≡ some q
      → Orderly p
      → Orderly q
  unfolding stop_begins
  stop_begins-Orderly here p q e h o =
      let r = sym (if_false _ _ (not_stopping p.list e)) ∙ h in
      elim (Bool-cases p.use_caller) [
        | inl u ↦ elim (Bool-cases here) [
          | inl t ↦
              resume_root-Orderly (p.thread_count + 1) p q _ refl e
                (sym (if_true _ _ u ∙ if_true _ _ t) ∙ r) o
          | inr t ↦ absurd (let no = sym (if_true _ _ u ∙ if_false _ _ t) ∙ r in cc)
        ]
        | inr u ↦ elim (Bool-cases here) [
          | inl t ↦ absurd (let no = sym (if_false _ _ u ∙ if_true _ _ t) ∙ r in cc)
          | inr t ↦
              carry _ q (sym (if_false _ _ u ∙ if_false _ _ t) ∙ r)
                (joins_begin p.thread_count p e o)
        ]
      ]
