-- ===== src/Legacy/Tasks/Order.antt =====
-- fiber_lib/6hook/scheduler.cpp: histories of submissions, and of tasks that the threads take and
-- finish, in any order.
use coroutine_library.Prelude.{
  ℕ, ◌+◌, ◌≡◌, refl, sym, ap, ◌∙◌, Bool, true, false, Option, none, some, if◌then◌else◌, List, [],
  ◌∷◌, ◌++◌, ◌||◌, ltb, length, Bool-cases, inl, inr, ◌≡⟨◌⟩◌, ◌∎, append_assoc, append-nil, arith,
  if_true, if_false,
}
use coroutine_library.Prelude.Int.{ℤ, minus_one, int_eq, int_eq_iff}
use coroutine_library.Legacy.Tasks.{
  ScheduleTask, TaskList, Found, has_work, schedule_lock, find_task, take, taken, executed, may_run,
  no_tasks, tickle_if,
}

abbrev pub list_of {ℓ} : {A : Type ℓ} → Option A → List A
list_of none = []
list_of (some x) = x ∷ []

module _ {F C : Type 0} where
  -- The tasks that are for thread `v`, or for any thread with -1.
  abbrev pub pinned : ℤ → List (ScheduleTask F C) → List (ScheduleTask F C)
  pinned v [] = []
  pinned v (t ∷ ts) = if int_eq t.thread v then t ∷ pinned v ts else pinned v ts

  pinned-append :
      (v : ℤ) (xs ys : List (ScheduleTask F C)) → pinned v (xs ++ ys) ≡ pinned v xs ++ pinned v ys
  pinned-append v [] ys = refl
  pinned-append v (x ∷ xs) ys = elim (Bool-cases (int_eq x.thread v)) [
    | inl e ↦ rw (e, pinned-append v xs ys)
    | inr e ↦ rw (e, pinned-append v xs ys)
  ]

  -- A thread that is not to run a task finds one that is for another thread.
  found_may_run :
      (thread : ℤ) (ts : List (ScheduleTask F C)) (t : ScheduleTask F C)
      → (find_task thread ts).task ≡ some t
      → may_run thread t ≡ true
  unfolding find_task
  found_may_run thread [] t h = cc
  found_may_run thread (x ∷ xs) t h = ground (arith, found_may_run thread xs t)

  may_run-same :
      (thread v : ℤ) (t x : ScheduleTask F C)
      → int_eq t.thread v ≡ true
      → int_eq x.thread v ≡ true
      → may_run thread t ≡ may_run thread x
  unfolding may_run
  may_run-same thread v t x p q =
      let e : t.thread ≡ x.thread =
        (int_eq_iff t.thread v).0 p ∙ sym ((int_eq_iff x.thread v).0 q) in
      ap (λ w. int_eq w minus_one || int_eq w thread) e

  -- A task that was found before one that is passed over is not for the same thread.
  passed-pinned :
      (thread v : ℤ) (x : ScheduleTask F C) (o : Option (ScheduleTask F C))
      (left xs : List (ScheduleTask F C))
      → ((t : ScheduleTask F C) → o ≡ some t → may_run thread t ≡ true)
      → may_run thread x ≡ false
      → pinned v (list_of o ++ left) ≡ pinned v xs
      → pinned v (list_of o ++ x ∷ left) ≡ pinned v (x ∷ xs)
  passed-pinned thread v x none left xs m n ih = elim (Bool-cases (int_eq x.thread v)) [
    | inl e ↦ rw (e, ih)
    | inr e ↦ rw (e, ih)
  ]
  passed-pinned thread v x (some t) left xs m n ih = elim (Bool-cases (int_eq x.thread v)) [
    | inl e ↦ elim (Bool-cases (int_eq t.thread v)) [
      | inl d ↦ absurd (let same = may_run-same thread v t x d e in let runs = m t refl in cc)
      | inr d ↦ cc
    ]
    | inr e ↦ cc
  ]

  find_task-pinned :
      (thread v : ℤ) (ts : List (ScheduleTask F C))
      → pinned v (list_of (find_task thread ts).task ++ (find_task thread ts).left) ≡ pinned v ts
  unfolding find_task
  find_task-pinned thread v [] = refl
  find_task-pinned thread v (x ∷ xs) = elim (Bool-cases (may_run thread x)) [
    | inl e ↦ rw e
    | inr e ↦ rw e (
        passed-pinned thread v x (find_task thread xs).task (find_task thread xs).left xs
          (found_may_run thread xs) e (find_task-pinned thread v xs))
  ]

-- A history: tasks are submitted, a thread takes one, and a thread finishes the one it has taken.
pub data Move (F C : Type 0) : Type 0 where
  submits : ScheduleTask F C → Move F C
  takes : ℤ → Move F C
  finishes : Move F C
  stops : Move F C

-- The list, the tasks that were taken, oldest first, and how many of them have been executed.
pub record History (F C : Type 0) : Type 0 where
  pub list : TaskList F C
  pub gone : List (ScheduleTask F C)
  pub finished : ℕ

module _ {F C : Type 0} where
  abbrev pub begin : History F C
  begin = record { list = no_tasks; gone = []; finished = 0 }

  unfoldable pub move : Move F C → History F C → History F C
  move (submits t) h = record h { list = schedule_lock t h.list }
  move (takes thread) h =
      let r = take thread h.list in record h { list = r.1; gone = h.gone ++ list_of r.0 }
  move finishes h =
      if ltb h.finished (length h.gone)
      then record h { list = executed h.list; finished = h.finished + 1 }
      else h
  move stops h = record h { list = record h.list { stopping = true } }

  unfoldable pub moves : List (Move F C) → History F C → History F C
  moves [] h = h
  moves (m ∷ ms) h = moves ms (move m h)

  -- The tasks with a fiber or a callback that a history submits.
  abbrev pub submitted : List (Move F C) → List (ScheduleTask F C)
  submitted [] = []
  submitted (submits t ∷ ms) = if has_work t then t ∷ submitted ms else submitted ms
  submitted (takes thread ∷ ms) = submitted ms
  submitted (finishes ∷ ms) = submitted ms
  submitted (stops ∷ ms) = submitted ms

  abbrev pub all_of : History F C → List (ScheduleTask F C)
  all_of h = h.gone ++ h.list.tasks

  tickle_if-tasks : (b : Bool) (s : TaskList F C) → (tickle_if b s).tasks ≡ s.tasks
  unfolding tickle_if
  tickle_if-tasks b s = ground arith

  schedule_lock-tasks :
      (t : ScheduleTask F C) (s : TaskList F C)
      → (schedule_lock t s).tasks ≡ (if has_work t then s.tasks ++ t ∷ [] else s.tasks)
  unfolding schedule_lock tickle_if
  schedule_lock-tasks t s = ground arith

  take-tasks :
      (thread : ℤ) (s : TaskList F C) → (take thread s).1.tasks ≡ (find_task thread s.tasks).left
  unfolding take tickle_if taken
  take-tasks thread s = ground arith

  kept : (v : ℤ) (h : History F C) → pinned v (all_of h) ≡ pinned v (all_of h ++ [])
  kept v h = ap (pinned v) (sym (append-nil (all_of h)))

  submitted-cons :
      (m : Move F C) (ms : List (Move F C))
      → submitted (m ∷ []) ++ submitted ms ≡ submitted (m ∷ ms)
  submitted-cons (submits t) ms = ground arith
  submitted-cons (takes thread) ms = refl
  submitted-cons finishes ms = refl
  submitted-cons stops ms = refl

  took :
      (v thread : ℤ) (h : History F C)
      → pinned v (all_of (move (takes thread) h)) ≡ pinned v (all_of h ++ [])
  unfolding move take
  took v thread h =
      let f : Found F C = find_task thread h.list.tasks in
      pinned v ((h.gone ++ list_of f.task) ++ (take thread h.list).1.tasks)
      ≡⟨ ap (λ l. pinned v ((h.gone ++ list_of f.task) ++ l)) (take-tasks thread h.list) ⟩
        pinned v ((h.gone ++ list_of f.task) ++ f.left)
      ≡⟨ ap (pinned v) (append_assoc h.gone (list_of f.task) f.left) ⟩
        pinned v (h.gone ++ (list_of f.task ++ f.left))
      ≡⟨ pinned-append v h.gone (list_of f.task ++ f.left) ⟩
        pinned v h.gone ++ pinned v (list_of f.task ++ f.left)
      ≡⟨ ap (λ l. pinned v h.gone ++ l) (find_task-pinned thread v h.list.tasks) ⟩
        pinned v h.gone ++ pinned v h.list.tasks
      ≡⟨ sym (pinned-append v h.gone h.list.tasks) ⟩ pinned v (all_of h)
      ≡⟨ kept v h ⟩ pinned v (all_of h ++ []) ∎

  move-pinned :
      (v : ℤ) (m : Move F C) (h : History F C)
      → pinned v (all_of (move m h)) ≡ pinned v (all_of h ++ submitted (m ∷ []))
  unfolding move executed
  move-pinned v (submits t) h = elim (Bool-cases (has_work t)) [
    | inl e ↦
        rw (e, schedule_lock-tasks t h.list, e)
          (ap (pinned v) (sym (append_assoc h.gone h.list.tasks (t ∷ []))))
    | inr e ↦ rw (e, schedule_lock-tasks t h.list, e, append-nil) refl
  ]
  move-pinned v (takes thread) h = took v thread h
  move-pinned v finishes h = elim (Bool-cases (ltb h.finished (length h.gone))) [
    | inl e ↦ ap (λ k. pinned v (all_of k)) (if_true _ _ e) ∙ kept v h
    | inr e ↦ ap (λ k. pinned v (all_of k)) (if_false _ _ e) ∙ kept v h
  ]
  move-pinned v stops h = kept v h

  moves-pinned :
      (v : ℤ) (ms : List (Move F C)) (h : History F C)
      → pinned v (all_of (moves ms h)) ≡ pinned v (all_of h ++ submitted ms)
  unfolding moves
  moves-pinned v [] h = kept v h
  moves-pinned v (m ∷ ms) h =
      pinned v (all_of (moves ms (move m h)))
      ≡⟨ moves-pinned v ms (move m h) ⟩ pinned v (all_of (move m h) ++ submitted ms)
      ≡⟨ pinned-append v (all_of (move m h)) (submitted ms) ⟩
        pinned v (all_of (move m h)) ++ pinned v (submitted ms)
      ≡⟨ ap (λ l. l ++ pinned v (submitted ms)) (move-pinned v m h) ⟩
        pinned v (all_of h ++ submitted (m ∷ [])) ++ pinned v (submitted ms)
      ≡⟨ sym (pinned-append v (all_of h ++ submitted (m ∷ [])) (submitted ms)) ⟩
        pinned v ((all_of h ++ submitted (m ∷ [])) ++ submitted ms)
      ≡⟨ ap (pinned v) (append_assoc (all_of h) (submitted (m ∷ [])) (submitted ms)) ⟩
        pinned v (all_of h ++ (submitted (m ∷ []) ++ submitted ms))
      ≡⟨ ap (λ l. pinned v (all_of h ++ l)) (submitted-cons m ms) ⟩
        pinned v (all_of h ++ submitted (m ∷ ms)) ∎

  -- After any history from the empty list, for each thread number, and for -1: the tasks for it that
  -- the threads have taken, in the order in which they took them, and then those still in the list,
  -- are the tasks for it that were submitted with a fiber or a callback, in that order.
  pub moves-fifo :
      (v : ℤ) (ms : List (Move F C))
      → pinned v ((moves ms begin).gone ++ (moves ms begin).list.tasks) ≡ pinned v (submitted ms)
  moves-fifo v ms = moves-pinned v ms begin
