-- ===== src/Scheduler/Take.antt =====
-- src/scheduler.cpp: how a worker finds its next task: its own deque, its ingress queue, the others'
-- deques.
use coroutine_library.Prelude.{
  ℕ, Bool, Option, none, some, if◌then◌else◌, List, [], ◌∷◌, ◌==◌, get_elem?, set, not, ◌||◌,
}
use coroutine_library.Prelude.Words.{add64}
use coroutine_library.Deque.{Deque, pop, push, steal, approximate_size}
use coroutine_library.Ingress.{Ingress, drain}
use coroutine_library.Scheduler.{RunnableTask, Worker, Scheduler}

module _ {T : Type 0} where
  -- The loop that moves drained tasks to the local deque; the answer of `push` is not looked at.
  unfoldable pub push_all : List (RunnableTask T) → Deque (RunnableTask T) → Deque (RunnableTask T)
  push_all [] d = d
  push_all (task ∷ rest) d = push_all rest (push (some task) d).1

module _ {D T : Type 0} where
  refill_with :
      Worker D T
      → List (RunnableTask T) × Ingress (RunnableTask T)
      → Option (RunnableTask T) × Worker D T
  refill_with w (tasks, ingress) =
      let r = pop (push_all tasks w.local) in (r.0, record w { local = r.1; ingress = ingress })

  fetch_popped :
      Worker D T
      → Option (RunnableTask T) × Deque (RunnableTask T)
      → Option (RunnableTask T) × Worker D T
  unfolding refill_with
  fetch_popped w (some task, local) = (some task, record w { local = local })
  fetch_popped w (none, local) = refill_with (record w { local = local }) (drain w.ingress)

  -- `take_task` up to the loop over the other workers.
  unfoldable pub fetch : Worker D T → Option (RunnableTask T) × Worker D T
  unfolding fetch_popped
  fetch w = fetch_popped w (pop w.local)

  -- The loop over the candidates: the first task stolen from a worker with another id.
  unfoldable pub steal_first : ℕ → List (Worker D T) → Option (RunnableTask T) × List (Worker D T)
  steal_first id [] = (none, [])
  steal_first id (w ∷ ws) =
      let rest = steal_first id ws in
      let r = steal w.local in
      let kept : Option (RunnableTask T) × List (Worker D T) = (rest.0, w ∷ rest.1) in
      if w.id == id then kept else elim r.0 [
        | none ↦ (rest.0, record w { local = r.1 } ∷ rest.1)
        | some task ↦ (some task, record w { local = r.1 } ∷ ws)
      ]

  unfoldable pub take_stolen :
      Scheduler D T
      → Option (RunnableTask T) × List (Worker D T)
      → Option (RunnableTask T) × Scheduler D T
  take_stolen s (none, ws) = (none, record s { workers = ws })
  take_stolen s (some task, ws) =
      (some task, record s { workers = ws; steal_count = add64 s.steal_count 1 })

  unfoldable pub take_fetched :
      ℕ
      → Scheduler D T
      → Option (RunnableTask T) × Worker D T
      → Option (RunnableTask T) × Scheduler D T
  unfolding take_stolen
  take_fetched index s (some task, w) = (some task, record s { workers = set s.workers index w })
  take_fetched index s (none, w) =
      let s' : Scheduler D T = record s { workers = set s.workers index w } in
      take_stolen s' (steal_first w.id s'.workers)

  unfoldable pub take_at :
      ℕ → Scheduler D T → Option (Worker D T) → Option (RunnableTask T) × Scheduler D T
  unfolding take_fetched
  take_at index s none = (none, s)
  take_at index s (some w) = take_fetched index s (fetch w)

  -- `take_task` of the worker at `index`.
  unfoldable pub take_task : ℕ → Scheduler D T → Option (RunnableTask T) × Scheduler D T
  unfolding take_at
  take_task index s = take_at index s (get_elem? s.workers index)

  -- The test of the loop of `run_worker`.
  unfoldable pub keeps_running : Scheduler D T → Worker D T → Bool
  keeps_running s w = s.running || not (approximate_size w.local == 0)
