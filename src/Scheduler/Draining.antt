-- ===== src/Scheduler/Draining.antt =====
-- src/scheduler.cpp: the loop of a worker after `stop`.
use mathlib.Core.List.{reverse, reverse-append}
use coroutine_library.Prelude.{
  ℕ, zero, suc, ◌+◌, ◌≤◌, ◌<◌, ◌≡◌, ◌⊎◌, inl, inr, refl, sym, ap, ◌∙◌, subst, true, false, some,
  List, [], ◌∷◌, ◌++◌, length, length-append, get_elem?, get_elem?-set_self, length-set, set, not,
  ◌==◌, arith,
}
use coroutine_library.Prelude.Words.{add64}
use coroutine_library.Floats.{Double}
use coroutine_library.Deque.{pop}
use coroutine_library.Deque.Sequential.{pop-Holds, approximate_size-length}
use coroutine_library.Deque.Runs.{snoc-cases}
use coroutine_library.Scheduler.{RunnableTask, Worker, Scheduler}
use coroutine_library.Scheduler.Take.{take_task, keeps_running}
use coroutine_library.Scheduler.Fetch.{Contents, fetch-hit}
use coroutine_library.Scheduler.Run.{
  Round, ran, Readings, update_worker, mark_busy, mark_done, worker_round, cons_round, after_take,
  update_found, test_found, loop_test, worker_loop,
}

get_elem?-bound {ℓ} :
    {A : Type ℓ} (xs : List A) (i : ℕ) (a : A) → get_elem? xs i ≡ some a → i < length xs
get_elem?-bound [] i a e = cc
get_elem?-bound (x ∷ xs) zero a e = omega arith
get_elem?-bound (x ∷ xs) (suc i) a e = omega (arith, get_elem?-bound xs i a e)

-- The rounds that run tasks, in this order.
abbrev pub rounds_of : {T : Type 0} → List (RunnableTask T) → List (Round T)
rounds_of [] = []
rounds_of (task ∷ tasks) = ran task.function ∷ rounds_of tasks

module _ {D T : Type 0} where
  loop_test-stopped :
      (index : ℕ) (s : Scheduler D T) (w : Worker D T) (xs ys : List (RunnableTask T))
      → get_elem? s.workers index ≡ some w
      → s.running ≡ false
      → Contents w xs ys
      → loop_test index s ≡ not (length xs == 0)
  unfolding loop_test test_found keeps_running
  loop_test-stopped index s w xs ys e r c =
      ap (test_found s) e ∙ (rw (r, approximate_size-length w.local xs c.local) refl)

  take_task-hit :
      (index : ℕ) (s : Scheduler D T) (w : Worker D T) (xs ys : List (RunnableTask T))
      (x : RunnableTask T)
      → get_elem? s.workers index ≡ some w
      → Contents w (xs ++ x ∷ []) ys
      → take_task index s ≡ (
        some x,
        record s { workers = set s.workers index (record w { local = (pop w.local).1 }) },
      )
  unfolding take_task
  take_task-hit index s w xs ys x e c =
      let h = pop-Holds w.local xs x c.local in
      rw (e, fetch-hit w x (pop w.local).1 (ap (λ a. (a, (pop w.local).1)) h.0)) refl

module _ {D T : Type 0} where
  update_worker_eq :
      (index : ℕ) (f : Worker D T → Worker D T) (s : Scheduler D T) (w : Worker D T)
      → get_elem? s.workers index ≡ some w
      → update_worker index f s ≡ record s { workers = set s.workers index (f w) }
  unfolding update_worker update_found
  update_worker_eq index f s w e = ap (update_found index f s) e

not_empty {ℓ} : {A : Type ℓ} (xs : List A) → 0 < length xs → not (length xs == 0) ≡ true
not_empty [] h = absurd (omega arith)
not_empty (x ∷ xs) h = ground arith

module _ (F : Double) {T : Type 0} where
  open F use {D}

  -- A round of a worker whose deque is not empty.
  worker_round-hit :
      (index : ℕ) (t : Readings) (s : Scheduler D T) (w : Worker D T)
      (xs ys : List (RunnableTask T)) (x : RunnableTask T)
      → get_elem? s.workers index ≡ some w
      → Contents w (xs ++ x ∷ []) ys
      → (s' : Scheduler D T) × (w' : Worker D T) × (worker_round F index t s ≡ (ran x.function, s'))
        × (get_elem? s'.workers index ≡ some w')
        × (s'.running ≡ s.running)
        × Contents w' xs ys
  unfolding worker_round after_take mark_busy mark_done
  worker_round-hit index t s w xs ys x e c =
      let w' : Worker D T = record w { local = (pop w.local).1 } in
      let s' : Scheduler D T = record s {
        workers = set s.workers index w';
        completed_count = add64 s.completed_count 1;
      } in
      let b = get_elem?-bound s.workers index w e in
      let n = length-set s.workers index w' in
      (
        _,
        _,
        ap (after_take F index t) (take_task-hit index s w xs ys x e c)
            ∙ ap (λ u. (ran x.function, u))
                (update_worker_eq index (λ v. mark_done F t (mark_busy v)) s' w'
                  (get_elem?-set_self s.workers index w' b)),
        get_elem?-set_self s'.workers index _ (omega (arith, b, n)),
        refl,
        record { local = (pop-Holds w.local xs x c.local).1; pending = c.pending },
      )

  worker_loop-step :
      (index : ℕ) (t : Readings) (ts : List Readings) (s : Scheduler D T)
      → loop_test index s ≡ true
      → worker_loop F index (t ∷ ts) s
        ≡ cons_round F
            (worker_round F index t s).0
            (worker_loop F index ts (worker_round F index t s).1)
  unfolding worker_loop
  worker_loop-step index t ts s b = rw b refl

  -- The loop of a worker in a scheduler that has been stopped, with `xs` in the deque and `ys` in
  -- the ingress queue, oldest first, while no other worker steals from it: within as many rounds as
  -- there are tasks in the deque the loop ends. It has then run exactly those tasks, newest first,
  -- and those of the ingress queue are still there.
  pub worker_loop-stopped :
      (index : ℕ) (ts : List Readings) (s : Scheduler D T) (w : Worker D T)
      (xs ys : List (RunnableTask T))
      → get_elem? s.workers index ≡ some w
      → s.running ≡ false
      → Contents w xs ys
      → length xs ≤ length ts
      → (s' : Scheduler D T) × (w' : Worker D T) × (worker_loop F index ts s
          ≡ some (rounds_of (reverse xs), s'))
        × (get_elem? s'.workers index ≡ some w')
        × Contents w' [] ys
  unfolding worker_loop
  worker_loop-stopped index [] s w [] ys e r c n =
      (s, w, (rw (loop_test-stopped index s w [] ys e r c) refl), e, c)
  worker_loop-stopped index [] s w (x ∷ xs) ys e r c n = absurd (omega (arith, n))
  worker_loop-stopped index (t ∷ ts) s w xs ys e r c n =
      go (worker_loop-stopped index ts) (snoc-cases xs)
    where
      go :
          ((s : Scheduler D T) (w : Worker D T) (xs ys : List (RunnableTask T))
            → get_elem? s.workers index ≡ some w
            → s.running ≡ false
            → Contents w xs ys
            → length xs ≤ length ts
            → (s' : Scheduler D T) × (w' : Worker D T) × (worker_loop F index ts s
                ≡ some (rounds_of (reverse xs), s'))
              × (get_elem? s'.workers index ≡ some w')
              × Contents w' [] ys)
          → (xs ≡ []) ⊎ ((zs : List (RunnableTask T)) × (z : RunnableTask T) × (xs ≡ zs ++ z ∷ []))
          → (s' : Scheduler D T) × (w' : Worker D T) × (worker_loop F index (t ∷ ts) s
              ≡ some (rounds_of (reverse xs), s'))
            × (get_elem? s'.workers index ≡ some w')
            × Contents w' [] ys
      go ih (inl q) =
          let k = loop_test-stopped index s w xs ys e r c in
          (s, w, (rw (k, q) refl), e, subst (λ l. Contents w l ys) q c)
      go ih (inr (zs, z, q)) =
          let c' = subst (λ l. Contents w l ys) q c in
          let m : length xs ≡ length zs + 1 = ap length q ∙ length-append zs (z ∷ []) in
          let (s', w', a, e', r', d) = worker_round-hit index t s w zs ys z e c' in
          let (s'', w'', a', e'', d') = ih s' w' zs ys e' (r' ∙ r) d (omega (arith, m, n)) in
          let busy : loop_test index s ≡ true =
            loop_test-stopped index s w xs ys e r c ∙ not_empty xs (omega (arith, m)) in
          let order : reverse xs ≡ z ∷ reverse zs = ap reverse q ∙ reverse-append zs (z ∷ []) in
          (
            s'',
            w'',
            worker_loop-step index t ts s busy
                ∙ ap (λ o. cons_round F o.0 (worker_loop F index ts o.1)) a
                ∙ ap (cons_round F (ran z.function)) a'
                ∙ ap (λ l. some (rounds_of l, s'')) (sym order),
            e'',
            d',
          )
