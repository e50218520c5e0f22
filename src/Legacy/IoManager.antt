-- ===== src/Legacy/IoManager.antt =====
-- fiber_lib/6hook/ioscheduler.h, ioscheduler.cpp: `IOManager`. The contexts are a list by descriptor
-- number; each is on the heap, and a call that has found its context works on it under its mutex.
-- `none` is an assertion that fails, a null pointer or an access out of bounds.
pub mod Books
pub mod History
pub mod Lifecycle
pub mod Shrinking
use coroutine_library.Prelude.{
  ℕ, zero, suc, ◌+◌, ◌*◌, ◌/◌, Bool, true, false, Option, none, some, if◌then◌else◌, List, [], ◌∷◌,
  ltb, length, get_elem?, set, ◌==◌, ◌&&◌, min,
}
use coroutine_library.Prelude.Int.{ℤ, pos, negsuc, minus_one}
use coroutine_library.Prelude.Words.{size_max}
use coroutine_library.Legacy.Tasks.{ScheduleTask, TaskList, schedule_lock, is_stopping, tickle_if}
use coroutine_library.Legacy.Timers.{TimerManager, get_next_timer, list_expired}
use coroutine_library.Legacy.EventSets.{Direction, FdContext, EpollCall, Report}
use coroutine_library.Legacy.Contexts.{
  Locked, new_context, add_event, del_event, cancel_event, cancel_all, handle_report, answer,
}

pub record IoManager (F C : Type 0) : Type 0 where
  pub contexts : List (FdContext F C)
  pub pending : ℕ
  pub given : List (ℕ × ScheduleTask F C)
  pub epoll : List EpollCall

-- One reported event of `idle`: the tickle pipe, or a descriptor with what `epoll_ctl` will say.
pub data Arrival : Type 0 where
  tickled : Arrival
  reported : ℕ → Report → Bool → Arrival

-- The longest that `idle` waits, in milliseconds.
abbrev pub max_timeout : ℕ
max_timeout = 5_000

-- How long `idle` waits, in milliseconds.
unfoldable pub idle_timeout : {C : Type 0} → ℕ → TimerManager C → ℕ × TimerManager C
unfolding get_next_timer
idle_timeout now timers = let r = get_next_timer now timers in (min r.0 max_timeout, r.1)

-- The manager, its timers and its tasks.
pub record World (F C : Type 0) : Type 0 where
  pub manager : IoManager F C
  pub timers : TimerManager C
  pub tasks : TaskList F C

module _ {F C : Type 0} where
  -- `m_fdContexts.resize(n)` with new contexts in the new places; the list starts at number `i`.
  unfoldable pub resize_from : ℕ → ℕ → List (FdContext F C) → List (FdContext F C)
  resize_from i zero cs = []
  resize_from i (suc n) [] = new_context i ∷ resize_from (suc i) n []
  resize_from i (suc n) (c ∷ cs) = c ∷ resize_from (suc i) n cs

  unfoldable pub context_resize : ℕ → IoManager F C → IoManager F C
  unfolding resize_from
  context_resize n m = record m { contexts = resize_from 0 n m.contexts }

  unfoldable pub new_manager : IoManager F C
  unfolding context_resize
  new_manager = context_resize 32 (record { contexts = []; pending = 0; given = []; epoll = [] })

  abbrev pub lock : FdContext F C → IoManager F C → Locked F C
  lock c m = record { context = c; pending = m.pending; given = m.given; epoll = m.epoll }

  unfoldable pub unlock {ℓ} :
      {A : Type ℓ} → ℕ → IoManager F C → Option (A × Locked F C) → Option (A × IoManager F C)
  unlock n m none = none
  unlock n m (some (a, l)) = some (
    a,
    record {
      contexts = set m.contexts n l.context;
      pending = l.pending;
      given = l.given;
      epoll = l.epoll;
    },
  )

  unfoldable pub on_found {ℓ} :
      {A : Type ℓ}
      → ℕ
      → (Locked F C → Option (A × Locked F C))
      → IoManager F C
      → Option (FdContext F C)
      → Option (A × IoManager F C)
  unfolding unlock
  on_found n op m none = none
  on_found n op m (some c) = unlock n m (op (lock c m))

  -- A call under the mutex of the context of descriptor `n`.
  unfoldable pub on_context {ℓ} :
      {A : Type ℓ}
      → ℕ
      → (Locked F C → Option (A × Locked F C))
      → IoManager F C
      → Option (A × IoManager F C)
  unfolding on_found
  on_context n op m = on_found n op m (get_elem? m.contexts n)

  -- `addEvent`, with what other threads do between the test of the size and the write lock. A
  -- negative descriptor passes the test.
  unfoldable pub add_event_with :
      (IoManager F C → IoManager F C)
      → ℤ
      → Direction
      → Option ℕ
      → Option F
      → Option C
      → Bool
      → IoManager F C
      → Option (ℤ × IoManager F C)
  unfolding on_context context_resize
  add_event_with between (negsuc n) d scheduler running cb ctl_ok m = none
  add_event_with between (pos n) d scheduler running cb ctl_ok m =
      let op = add_event d scheduler running cb ctl_ok in
      if ltb n (length m.contexts)
      then on_context n op m
      else on_context n op (context_resize (n * 3 / 2) (between m))

  unfoldable pub manager_add :
      ℤ
      → Direction
      → Option ℕ
      → Option F
      → Option C
      → Bool
      → IoManager F C
      → Option (ℤ × IoManager F C)
  unfolding add_event_with
  manager_add = add_event_with (λ m. m)

  -- `delEvent`, `cancelEvent` and `cancelAll` after they have looked for the context.
  unfoldable pub if_known :
      ℤ → (Locked F C → Option (Bool × Locked F C)) → IoManager F C → Option (Bool × IoManager F C)
  unfolding on_context
  if_known (negsuc n) op m = none
  if_known (pos n) op m = if ltb n (length m.contexts) then on_context n op m else some (false, m)

  unfoldable pub manager_del : ℤ → Direction → Bool → IoManager F C → Option (Bool × IoManager F C)
  unfolding if_known
  manager_del fd d ctl_ok = if_known fd (del_event d ctl_ok)

  unfoldable pub manager_cancel :
      ℤ → Direction → Bool → IoManager F C → Option (Bool × IoManager F C)
  unfolding if_known
  manager_cancel fd d ctl_ok = if_known fd (cancel_event d ctl_ok)

  unfoldable pub manager_cancel_all : ℤ → Bool → IoManager F C → Option (Bool × IoManager F C)
  unfolding if_known
  manager_cancel_all fd ctl_ok = if_known fd (cancel_all ctl_ok)

  state_of {ℓ} : {A : Type ℓ} → Option (A × IoManager F C) → Option (IoManager F C)
  state_of none = none
  state_of (some (a, m)) = some m

  unfoldable pub handle_arrival : Arrival → IoManager F C → Option (IoManager F C)
  unfolding on_context state_of
  handle_arrival tickled m = some m
  handle_arrival (reported n r ctl_ok) m =
      state_of (on_context n (λ l. answer true (handle_report r ctl_ok l)) m)

  then_handle :
      (IoManager F C → Option (IoManager F C)) → Option (IoManager F C) → Option (IoManager F C)
  then_handle k none = none
  then_handle k (some m) = k m

  -- The loop of `idle` over the events of one `epoll_wait`.
  unfoldable pub handle_all : List Arrival → IoManager F C → Option (IoManager F C)
  unfolding handle_arrival then_handle
  handle_all [] m = some m
  handle_all (a ∷ rest) m = then_handle (handle_all rest) (handle_arrival a m)

  -- `IOManager::tickle`: whether a byte is written to the pipe.
  unfoldable pub tickles : TaskList F C → Bool
  tickles s = ltb 0 s.idle

  -- `IOManager::stopping`, at a time.
  unfoldable pub manager_stopping :
      ℕ → TimerManager C → IoManager F C → TaskList F C → Bool × TimerManager C
  unfolding get_next_timer is_stopping
  manager_stopping now timers m s =
      let r = get_next_timer now timers in
      (r.0 == size_max && (m.pending == 0 && is_stopping s), r.1)

  -- The callbacks of expired timers are scheduled for any thread.
  unfoldable pub schedule_all : List (Option C) → TaskList F C → TaskList F C
  unfolding schedule_lock
  schedule_all [] s = s
  schedule_all (cb ∷ cbs) s =
      schedule_all cbs (schedule_lock (record { fiber = none; cb = cb; thread = minus_one }) s)

  idle_handled : TimerManager C → TaskList F C → Option (IoManager F C) → Option (World F C)
  idle_handled timers s none = none
  idle_handled timers s (some m) = some (record { manager = m; timers = timers; tasks = s })

  idle_expired :
      List Arrival → World F C → Option (List (Option C) × TimerManager C) → Option (World F C)
  unfolding idle_handled schedule_all handle_all
  idle_expired arrivals w none = none
  idle_expired arrivals w (some (cbs, timers)) =
      idle_handled timers (schedule_all cbs w.tasks) (handle_all arrivals w.manager)

  -- One round of `idle` from the end of `epoll_wait` to its `yield`; the clock is read twice, and
  -- `fuel` bounds the turns of the loop over expired timers.
  unfoldable pub idle_round : ℕ → ℕ → ℕ → List Arrival → World F C → Option (World F C)
  unfolding idle_expired list_expired
  idle_round fuel now later arrivals w =
      idle_expired arrivals w (list_expired fuel now later w.timers)
