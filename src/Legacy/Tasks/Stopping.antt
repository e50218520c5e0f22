-- ===== src/Legacy/Tasks/Stopping.antt =====
-- fiber_lib/6hook/scheduler.cpp: what `stopping` says of a history.
use coroutine_library.Prelude.{
  suc, ◌+◌, ◌-◌, ◌%◌, ◌≤◌, ◌<◌, ◌≡◌, refl, sym, ap, ◌∙◌, true, Option, none, some, if◌then◌else◌,
  List, [], ◌∷◌, ◌++◌, is_some, length, length-append, Bool-cases, inl, inr, append-nil, arith,
}
use coroutine_library.Prelude.Int.{ℤ}
use coroutine_library.Prelude.Words.{add64, size_mod}
use coroutine_library.Legacy.Tasks.{
  ScheduleTask, TaskList, schedule_lock, take, taken, executed, is_stopping, tickle_if,
  is_empty_list,
}
use coroutine_library.Legacy.Tasks.Order.{
  list_of, pinned, Move, submits, takes, finishes, stops, History, begin, move, moves, submitted,
  moves-fifo,
}

module _ {F C : Type 0} where
  empty_list : (l : List (ScheduleTask F C)) → is_empty_list l ≡ true → l ≡ []
  empty_list [] e = refl
  empty_list (x ∷ xs) e = cc

  is_stopping-parts :
      (s : TaskList F C)
      → is_stopping s ≡ true
      → (s.stopping ≡ true) × (s.tasks ≡ []) × (s.active ≡ 0)
  unfolding is_stopping
  is_stopping-parts s h = (ground arith, empty_list s.tasks (ground arith), ground arith)

  -- The counter of active tasks, and that no more were finished than taken.
  record Counted (h : History F C) : Type 0 where
    counts : h.list.active ≡ (length h.gone - h.finished) % size_mod
    bounded : h.finished ≤ length h.gone

  take-active :
      (thread : ℤ) (s : TaskList F C)
      → (take thread s).1.active
        ≡ (if is_some (take thread s).0 then add64 s.active 1 else s.active)
  unfolding take tickle_if taken
  take-active thread s = ground arith

  schedule_lock-active :
      (t : ScheduleTask F C) (s : TaskList F C) → (schedule_lock t s).active ≡ s.active
  unfolding schedule_lock tickle_if
  schedule_lock-active t s = ground arith

  length-list_of :
      (o : Option (ScheduleTask F C)) → length (list_of o) ≡ (if is_some o then 1 else 0)
  length-list_of none = refl
  length-list_of (some t) = refl

  length-take :
      (thread : ℤ) (h : History F C)
      → length (move (takes thread) h).gone
        ≡ length h.gone + (if is_some (take thread h.list).0 then 1 else 0)
  unfolding move
  length-take thread h =
      length-append h.gone (list_of (take thread h.list).0)
      ∙ ap (λ n. length h.gone + n) (length-list_of (take thread h.list).0)

  move-Counted : (m : Move F C) (h : History F C) → Counted h → Counted (move m h)
  unfolding move executed
  move-Counted (submits t) h c = ground (arith, schedule_lock-active t h.list)
  move-Counted (takes thread) h c =
      let n = length-take thread h in
      let a = take-active thread h.list in
      elim (Bool-cases (is_some (take thread h.list).0)) [
        | inl e ↦
            let a' = rw e at a in
            let n' = rw e at n in record { counts = omega arith; bounded = omega arith }
        | inr e ↦
            let a' = rw e at a in
            let n' = rw e at n in record { counts = omega arith; bounded = omega arith }
      ]
  move-Counted finishes h c = ground arith
  move-Counted stops h c = record { counts = c.counts; bounded = c.bounded }

  move-length : (m : Move F C) (h : History F C) → length (move m h).gone ≤ suc (length h.gone)
  unfolding move
  move-length (submits t) h = omega arith
  move-length (takes thread) h = ground (arith, length-take thread h)
  move-length finishes h = ground arith
  move-length stops h = omega arith

  moves-Counted :
      (ms : List (Move F C)) (h : History F C)
      → Counted h
      → Counted (moves ms h) × (length (moves ms h).gone ≤ length ms + length h.gone)
  unfolding moves
  moves-Counted [] h c = (c, omega arith)
  moves-Counted (m ∷ ms) h c =
      let (k, n) = moves-Counted ms (move m h) (move-Counted m h c) in
      (k, omega (arith, move-length m h))

  -- After a history of fewer than 2 ^ 64 moves from the empty list, `stopping` is true only if the
  -- scheduler was stopped, no task is left, every task that was taken has been executed, and for
  -- each thread number, and for -1, those taken are those submitted, in order.
  pub moves-is_stopping :
      (ms : List (Move F C))
      → length ms < size_mod
      → is_stopping (moves ms begin).list ≡ true
      → ((moves ms begin).list.stopping ≡ true)
        × ((moves ms begin).list.tasks ≡ [])
        × ((moves ms begin).finished ≡ length (moves ms begin).gone)
        × ((v : ℤ) → pinned v (moves ms begin).gone ≡ pinned v (submitted ms))
  moves-is_stopping ms few h =
      let r : History F C = moves ms begin in
      let (k, n) = moves-Counted ms begin (record { counts = refl; bounded = omega arith }) in
      let (stopped, none_left, none_active) = is_stopping-parts r.list h in
      (
        stopped,
        none_left,
        omega arith,
        λ v.
            sym (ap (pinned v) (append-nil r.gone))
            ∙ ap (λ l. pinned v (r.gone ++ l)) (sym none_left)
            ∙ moves-fifo v ms,
      )
