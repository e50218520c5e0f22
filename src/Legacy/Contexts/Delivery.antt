-- ===== src/Legacy/Contexts/Delivery.antt =====
-- fiber_lib/6hook/ioscheduler.cpp: what becomes of a waiter, and of a call that `epoll_ctl` refuses.
use coroutine_library.Prelude.{
  ℕ, ◌<◌, ◌≡◌, refl, sym, ap, Bool, true, false, Option, none, some, List, ◌∷◌, arith,
}
use coroutine_library.Prelude.Int.{ℤ, pos, minus_one}
use coroutine_library.Prelude.Words.{add64, sub64, size_mod}
use coroutine_library.Legacy.EventSets.{
  Direction, reads, writes, holds, is_any, EventContext, FdContext, EpollCall, Report,
}
use coroutine_library.Legacy.Tasks.{ScheduleTask, has_work}
use coroutine_library.Legacy.Contexts.{
  Locked, no_context, add_event, del_event, cancel_event, cancel_all, handle_report,
}
use coroutine_library.Legacy.Contexts.Bookkeeping.{PlaceFits, Fits, locked, events, is_free_lem}

-- A report of one direction and nothing else.
abbrev pub only : Direction → Report
only reads = record { input = true; output = false; error_or_hangup = false }
only writes = record { input = false; output = true; error_or_hangup = false }

back : (pending : ℕ) → pending < size_mod → sub64 (add64 pending 1) 1 ≡ pending
back pending h = omega arith

module _ {F C : Type 0} where
  -- Where `epoll_ctl` fails, every call leaves the context, the count, the tasks and the books as
  -- they were. `addEvent` answers -1; `delEvent`, `cancelEvent` and `cancelAll` answer true exactly
  -- where there was something to delete, as if they had deleted it.
  pub epoll_failure :
      (d : Direction) (scheduler : Option ℕ) (running : Option F) (cb : Option C) (r : Report)
      (l : Locked F C)
      → (add_event d scheduler running cb false l ≡ some (minus_one, l))
        × (del_event d false l ≡ some (holds d l.context.events, l))
        × (cancel_event d false l ≡ some (holds d l.context.events, l))
        × (cancel_all false l ≡ some (is_any l.context.events, l))
        × (handle_report r false l ≡ some l)
  unfolding add_event del_event cancel_event cancel_all handle_report
  epoll_failure reads scheduler running cb r l =
      (ground arith, ground arith, ground arith, ground arith, ground arith)
  epoll_failure writes scheduler running cb r l =
      (ground arith, ground arith, ground arith, ground arith, ground arith)

  -- The task for a callback, or for a fiber that waits.
  abbrev pub waiting_task : F → Option C → ScheduleTask F C
  waiting_task running none = record { fiber = some running; cb = none; thread = minus_one }
  waiting_task running (some cb) = record { fiber = none; cb = some cb; thread = minus_one }

  free-no_context : (e : EventContext F C) → PlaceFits false e → e ≡ no_context
  free-no_context e h = ground arith

  -- A call that hands the waiter over: the context and the count are as they were before it came.
  abbrev pub HandsOver : Locked F C → ℕ → ScheduleTask F C → Option (Locked F C) → Type 0
  HandsOver l s t none = ⊥
  HandsOver l s t (some l') =
      (l'.context ≡ l.context) × (l'.pending ≡ l.pending) × (l'.given ≡ (s, t) ∷ l.given)

  abbrev locked_of : Option (Bool × Locked F C) → Option (Locked F C)
  locked_of none = none
  locked_of (some (b, l)) = some l

  abbrev pub Delivers :
      Direction → Locked F C → ℕ → ScheduleTask F C → Option (ℤ × Locked F C) → Type 0
  Delivers d l s t none = ⊥
  Delivers d l s t (some (a, l')) =
      (a ≡ pos 0)
      × HandsOver l s t (handle_report (only d) true l')
      × HandsOver l s t (locked_of (cancel_event d true l'))

  abbrev context_with : Bool → Bool → ℕ → EventContext F C → EventContext F C → FdContext F C
  context_with r w fd re we = record { read = re; write = we; fd = fd; events = events r w }

  cleared_read :
      (w : Bool) (re we : EventContext F C) (fd : ℕ)
      → PlaceFits false re
      → context_with false w fd no_context we ≡ context_with false w fd re we
  cleared_read w re we fd h = ap (λ e. context_with false w fd e we) (sym (free-no_context re h))

  cleared_write :
      (r : Bool) (re we : EventContext F C) (fd : ℕ)
      → PlaceFits false we
      → context_with r false fd re no_context ≡ context_with r false fd re we
  cleared_write r re we fd h = ap (context_with r false fd re) (sym (free-no_context we h))

  add_event-locked_reads :
      (s : ℕ) (running : F) (cb : Option C) (w : Bool) (re we : EventContext F C) (fd pending : ℕ)
      (given : List (ℕ × ScheduleTask F C)) (epoll : List EpollCall)
      → PlaceFits false re
      → pending < size_mod
      → Delivers reads (locked false w re we fd pending given epoll) s (waiting_task running cb) (
          add_event reads
            (some s)
            (some running)
            cb
            true
            (locked false w re we fd pending given epoll))
  unfolding add_event handle_report cancel_event has_work
  add_event-locked_reads s running none w re we fd pending given epoll h small =
      rw (is_free_lem re h) (
        refl,
        (cleared_read w re we fd h, back pending small, refl),
        (cleared_read w re we fd h, back pending small, refl),
      )
  add_event-locked_reads s running (some k) w re we fd pending given epoll h small =
      rw (is_free_lem re h) (
        refl,
        (cleared_read w re we fd h, back pending small, refl),
        (cleared_read w re we fd h, back pending small, refl),
      )

  add_event-locked_writes :
      (s : ℕ) (running : F) (cb : Option C) (r : Bool) (re we : EventContext F C) (fd pending : ℕ)
      (given : List (ℕ × ScheduleTask F C)) (epoll : List EpollCall)
      → PlaceFits false we
      → pending < size_mod
      → Delivers writes (locked r false re we fd pending given epoll) s (waiting_task running cb) (
          add_event writes
            (some s)
            (some running)
            cb
            true
            (locked r false re we fd pending given epoll))
  unfolding add_event handle_report cancel_event has_work
  add_event-locked_writes s running none true re we fd pending given epoll h small =
      rw (is_free_lem we h) (
        refl,
        (cleared_write true re we fd h, back pending small, refl),
        (cleared_write true re we fd h, back pending small, refl),
      )
  add_event-locked_writes s running none false re we fd pending given epoll h small =
      rw (is_free_lem we h) (
        refl,
        (cleared_write false re we fd h, back pending small, refl),
        (cleared_write false re we fd h, back pending small, refl),
      )
  add_event-locked_writes s running (some k) true re we fd pending given epoll h small =
      rw (is_free_lem we h) (
        refl,
        (cleared_write true re we fd h, back pending small, refl),
        (cleared_write true re we fd h, back pending small, refl),
      )
  add_event-locked_writes s running (some k) false re we fd pending given epoll h small =
      rw (is_free_lem we h) (
        refl,
        (cleared_write false re we fd h, back pending small, refl),
        (cleared_write false re we fd h, back pending small, refl),
      )

  -- In a context whose books are right and that has no waiter for the direction, `addEvent` succeeds
  -- if `epoll_ctl` does. An event for the direction and nothing else, and a cancellation of it, then
  -- each hand the callback, or else the running fiber, to the scheduler that was named, once, and
  -- leave the context and the count of pending events as they were before.
  pub add_event-Delivers :
      (d : Direction) (s : ℕ) (running : F) (cb : Option C) (l : Locked F C)
      → Fits l
      → l.pending < size_mod
      → holds d l.context.events ≡ false
      → Delivers d l s (waiting_task running cb) (add_event d (some s) (some running) cb true l)
  unfolding holds
  add_event-Delivers d s running cb l f small h =
      by_events d l.context.events.reading l.context.events.writing l.context.read l.context.write
        f.read f.write h
    where
      by_events :
          (k : Direction) (r w : Bool) (re we : EventContext F C)
          → PlaceFits r re
          → PlaceFits w we
          → holds k (events r w) ≡ false
          → Delivers k
              (locked r w re we l.context.fd l.pending l.given l.epoll)
              s
              (waiting_task running cb)
              (add_event k
                (some s)
                (some running)
                cb
                true
                (locked r w re we l.context.fd l.pending l.given l.epoll))
      by_events reads false w re we fr fw e =
          add_event-locked_reads s running cb w re we l.context.fd l.pending l.given l.epoll fr
            small
      by_events writes r false re we fr fw e =
          add_event-locked_writes s running cb r re we l.context.fd l.pending l.given l.epoll fw
            small
      by_events reads true w re we fr fw e = absurd (cc)
      by_events writes r true re we fr fw e = absurd (cc)
