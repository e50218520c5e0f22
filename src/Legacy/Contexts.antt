-- ===== src/Legacy/Contexts.antt =====
-- fiber_lib/6hook/ioscheduler.h, ioscheduler.cpp: `IOManager::FdContext` and what the manager does
-- under a context's mutex. `F` are fibers and `C` callbacks; a scheduler is its number. Whether
-- `epoll_ctl` succeeds is an argument. `none` is an assertion that fails or a null pointer.
pub mod Bookkeeping
pub mod Settling
pub mod Reporting
pub mod Delivery
pub mod Stale
use coroutine_library.Prelude.{
  ℕ, ◌+◌, Bool, true, false, Option, none, some, if◌then◌else◌, List, [], ◌∷◌, ◌++◌, is_some, not,
  ◌&&◌, ◌||◌,
}
use coroutine_library.Prelude.Int.{ℤ, pos, minus_one}
use coroutine_library.Prelude.Words.{add64, sub64}
use coroutine_library.Legacy.EventSets.{
  Direction, reads, writes, EventSet, no_events, holds, with_event, without, is_any, EventContext,
  FdContext, EpollOp, adds, modifies, deletes, EpollCall, left_op, Report, without_all, real_events,
}
use coroutine_library.Legacy.Tasks.{ScheduleTask, has_work}

-- A context whose mutex is held, and of the manager: the count of pending events, the tasks given to
-- schedulers so far and the calls of `epoll_ctl` that succeeded, the latest first.
pub record Locked (F C : Type 0) : Type 0 where
  pub context : FdContext F C
  pub pending : ℕ
  pub given : List (ℕ × ScheduleTask F C)
  pub epoll : List EpollCall

module _ {F C : Type 0} where
  abbrev pub no_context : EventContext F C
  no_context = record { scheduler = none; fiber = none; cb = none }

  unfoldable pub new_context : ℕ → FdContext F C
  new_context fd = record { read = no_context; write = no_context; fd = fd; events = no_events }

  -- `getEventContext`, and a write through the reference that it answers.
  unfoldable pub get_context : Direction → FdContext F C → EventContext F C
  get_context reads c = c.read
  get_context writes c = c.write

  unfoldable pub set_context : Direction → EventContext F C → FdContext F C → FdContext F C
  set_context reads e c = record c { read = e }
  set_context writes e c = record c { write = e }

  -- The task for which `scheduleLock` is called: the callback if there is one, and else the fiber.
  unfoldable pub task_of : EventContext F C → ScheduleTask F C
  task_of e =
      if is_some e.cb
      then record { fiber = none; cb = e.cb; thread = minus_one }
      else record { fiber = e.fiber; cb = none; thread = minus_one }

  give_to : Option ℕ → ScheduleTask F C → Locked F C → Option (Locked F C)
  give_to none t l = none
  give_to (some s) t l = some (if has_work t then record l { given = (s, t) ∷ l.given } else l)

  -- `triggerEvent`: the waiter goes to its scheduler and its place is cleared.
  unfoldable pub trigger_event : Direction → Locked F C → Option (Locked F C)
  unfolding give_to task_of holds get_context set_context without
  trigger_event d l =
      let e = get_context d l.context in
      let cleared =
        set_context d no_context (record l.context { events = without d l.context.events }) in
      if holds d l.context.events
      then give_to e.scheduler (task_of e) (record l { context = cleared })
      else none

  unfoldable pub one_less : Option (Locked F C) → Option (Locked F C)
  one_less none = none
  one_less (some l) = some (record l { pending = sub64 l.pending 1 })

  unfoldable pub answer {ℓ} : {A : Type ℓ} → A → Option (Locked F C) → Option (A × Locked F C)
  answer a none = none
  answer a (some l) = some (a, l)

  -- The record of a successful call.
  unfoldable pub called : EpollOp → EventSet → Locked F C → Locked F C
  called op events l = record l {
    epoll = record { op = op; fd = l.context.fd; events = events } ∷ l.epoll;
  }

  -- Who waits for an event: the scheduler of the calling thread, and the callback, or the thread's
  -- fiber if there is none.
  unfoldable pub waiter : Option ℕ → Option F → Option C → EventContext F C
  waiter scheduler running cb =
      if is_some cb
      then record { scheduler = scheduler; fiber = none; cb = cb }
      else record { scheduler = scheduler; fiber = running; cb = none }

  -- Whether the place for a waiter is free, as `addEvent` asserts.
  unfoldable pub is_free : EventContext F C → Bool
  is_free e = not (is_some e.scheduler) && (not (is_some e.fiber) && not (is_some e.cb))

  -- `addEvent` under the context's mutex. `running` is the thread's fiber, `none` if its state is not
  -- RUNNING, as the last assertion asks.
  unfoldable pub add_event :
      Direction → Option ℕ → Option F → Option C → Bool → Locked F C → Option (ℤ × Locked F C)
  unfolding holds with_event is_any get_context set_context called waiter is_free
  add_event d scheduler running cb ctl_ok l =
      let events = with_event d l.context.events in
      let op = if is_any l.context.events then modifies else adds in
      let l' = called op events l in
      if holds d l.context.events
      then some (minus_one, l)
      else if not ctl_ok
      then some (minus_one, l)
      else if not (is_free (get_context d l.context)) || not (is_some running || is_some cb)
      then none
      else some (
        pos 0,
        record l' {
          pending = add64 l.pending 1;
          context =
              set_context d (waiter scheduler running cb) (record l.context { events = events });
        },
      )

  -- `delEvent` and `cancelEvent`; `return -1` of a function that answers a `bool` is `true`.
  unfoldable pub del_event : Direction → Bool → Locked F C → Option (Bool × Locked F C)
  unfolding holds without is_any set_context called
  del_event d ctl_ok l =
      let events = without d l.context.events in
      let l' = called (left_op events) events l in
      if not (holds d l.context.events)
      then some (false, l)
      else if not ctl_ok
      then some (true, l)
      else some (
        true,
        record l' {
          pending = sub64 l.pending 1;
          context = set_context d no_context (record l.context { events = events });
        },
      )

  unfoldable pub cancel_event : Direction → Bool → Locked F C → Option (Bool × Locked F C)
  unfolding holds without is_any called trigger_event one_less answer
  cancel_event d ctl_ok l =
      let events = without d l.context.events in
      let l' = called (left_op events) events l in
      if not (holds d l.context.events)
      then some (false, l)
      else if not ctl_ok
      then some (true, l)
      else answer true (trigger_event d (record l' { pending = sub64 l.pending 1 }))

  -- One of the two `if` statements that trigger a direction and count it.
  trigger_if : Bool → Direction → Locked F C → Option (Locked F C)
  unfolding trigger_event one_less
  trigger_if b d l = if b then one_less (trigger_event d l) else some l

  trigger_write : (Locked F C → Bool) → Option (Locked F C) → Option (Locked F C)
  unfolding trigger_if
  trigger_write b none = none
  trigger_write b (some l) = trigger_if (b l) writes l

  -- `assert(fd_ctx->events == 0)`.
  all_gone : Option (Locked F C) → Option (Bool × Locked F C)
  all_gone none = none
  all_gone (some l) = if is_any l.context.events then none else some (true, l)

  unfoldable pub cancel_all : Bool → Locked F C → Option (Bool × Locked F C)
  unfolding is_any called trigger_if trigger_write all_gone
  cancel_all ctl_ok l =
      let l' = called deletes no_events l in
      if not (is_any l.context.events)
      then some (false, l)
      else if not ctl_ok
      then some (true, l)
      else all_gone (
          trigger_write (λ k. k.context.events.writing)
            (trigger_if l.context.events.reading reads l'))

  -- The part of `idle` for one reported descriptor, under the context's mutex, once the events that
  -- happen are known.
  unfoldable pub handle_events : EventSet → Bool → Locked F C → Option (Locked F C)
  unfolding called trigger_if trigger_write
  handle_events real ctl_ok l =
      let events = without_all real l.context.events in
      let l' = called (left_op events) events l in
      if not
        ((l.context.events.reading && real.reading) || (l.context.events.writing && real.writing))
      then some l
      else if not ctl_ok
      then some l
      else trigger_write (λ k. real.writing) (trigger_if real.reading reads l')

  unfoldable pub handle_report : Report → Bool → Locked F C → Option (Locked F C)
  unfolding handle_events real_events
  handle_report r ctl_ok l = handle_events (real_events r l.context.events) ctl_ok l
