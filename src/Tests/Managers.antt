-- ===== src/Tests/Managers.antt =====
-- Concrete managers and contexts of the earlier library.
use coroutine_library.Prelude.{Bool, ℕ, ◌≡◌, refl, true, false, none, some, [], ◌∷◌, length, arith}
use coroutine_library.Prelude.Int.{ℤ, pos, minus_one}
use coroutine_library.Legacy.EventSets.{
  adds, is_any, Direction, reads, writes, EventContext, Report, holds,
}
use coroutine_library.Legacy.Contexts.{
  Locked, no_context, cancel_event, del_event, cancel_all, handle_report, add_event,
}
use coroutine_library.Legacy.Contexts.Bookkeeping.{Fits, locked}
use coroutine_library.Legacy.Contexts.Delivery.{
  Delivers, waiting_task, epoll_failure, add_event-Delivers,
}
use coroutine_library.Legacy.Contexts.Stale.{cancel_event-handle_report}
use coroutine_library.Legacy.IoManager.{
  IoManager, new_manager, context_resize, add_event_with, manager_del,
}
use coroutine_library.Legacy.IoManager.Books.{
  Books, context_resize-Books, new_manager-Books, length-resize_from,
}
use coroutine_library.Legacy.IoManager.History.{
  IoCall, adds_waiter, started, stepped, CanCome, io_step, Reached-Books-io_step,
}
use coroutine_library.Legacy.IoManager.Shrinking.{add_event_with-shrinks}

abbrev input : Report
input = record { input = true; output = false; error_or_hangup = false }

abbrev both : Report
both = record { input = true; output = true; error_or_hangup = false }

abbrev add_reader : IoCall ℕ ℕ
add_reader = adds_waiter 5 reads 1 70 none true

-- A new manager after one call.
first_step : (m' : IoManager ℕ ℕ) × (io_step add_reader new_manager ≡ some m')
first_step = (Reached-Books-io_step new_manager started).1 add_reader tt

Reached-Books-io_step_example :
    Books first_step.0
    × ((c : IoCall ℕ ℕ)
        → CanCome c first_step.0
        → (m' : IoManager ℕ ℕ) × (io_step c first_step.0 ≡ some m'))
Reached-Books-io_step_example =
    Reached-Books-io_step first_step.0 (stepped add_reader started tt first_step.1)

abbrev reader : EventContext ℕ ℕ
reader = record { scheduler = some 1; fiber = some 70; cb = none }

abbrev writer : EventContext ℕ ℕ
writer = record { scheduler = some 1; fiber = none; cb = some 8 }

-- Descriptor 5 with a writer.
abbrev with_writer : Locked ℕ ℕ
with_writer =
    locked false true no_context writer 5 1 []
      (record { op = adds; fd = 5; events = record { reading = false; writing = true } } ∷ [])

with_writer-Fits : Fits with_writer
unfolding is_any
with_writer-Fits = record { read = (refl, refl, refl); write = (refl, refl); registered = refl }

add_event-Delivers_example :
    Delivers reads with_writer 1
      (waiting_task 70 none)
      (add_event reads (some 1) (some 70) none true with_writer)
unfolding holds
add_event-Delivers_example =
    add_event-Delivers reads 1 70 none with_writer with_writer-Fits (omega arith) refl

-- Descriptor 5 with a reader and a writer.
abbrev with_both : Locked ℕ ℕ
with_both =
    locked true true reader writer 5 2 []
      (record { op = adds; fd = 5; events = record { reading = true; writing = true } } ∷ [])

with_both-Fits : Fits with_both
unfolding is_any
with_both-Fits = record { read = (refl, refl); write = (refl, refl); registered = refl }

cancel_event-handle_report_example :
    (l' : Locked ℕ ℕ) × (cancel_event reads true with_both ≡ some (true, l'))
    × (holds writes l'.context.events ≡ true)
    × (handle_report both true l' ≡ none)
cancel_event-handle_report_example =
    cancel_event-handle_report with_both both with_both-Fits refl refl refl refl

-- A thread adds descriptor 40 while others have grown the table to 150.
abbrev busy : IoManager ℕ ℕ
busy = context_resize 150 new_manager

new_long : length (new_manager {F = ℕ} {C = ℕ}).contexts ≡ 32
unfolding new_manager
new_long = length-resize_from {F = ℕ} {C = ℕ} 0 32 []

busy-Books : Books busy
busy-Books = (context_resize-Books 150 new_manager new_manager-Books (omega (arith, new_long))).0

add_event_with-shrinks_example :
    (r : ℤ) × (m' : IoManager ℕ ℕ) × (add_event_with
        (λ k. busy)
        (pos 40)
        reads
        (some 1)
        (some 70)
        none
        true
        new_manager
      ≡ some (r, m'))
    × (length m'.contexts ≡ 60)
    × ((e : Direction) (ok' : Bool) → manager_del (pos 100) e ok' m' ≡ some (false, m'))
unfolding context_resize
add_event_with-shrinks_example =
    add_event_with-shrinks 40 100 reads 1 70 none true new_manager busy (omega arith)
      (omega (arith, new_long)) (omega arith)
      (omega
        (arith, length-resize_from {F = ℕ} {C = ℕ} 0 150 (new_manager {F = ℕ} {C = ℕ}).contexts))
      busy-Books

epoll_failure_example :
    (add_event reads (some 1) (some 70) none false with_writer ≡ some (minus_one, with_writer))
    × (del_event reads false with_writer ≡ some (false, with_writer))
    × (cancel_event reads false with_writer ≡ some (false, with_writer))
    × (cancel_all false with_writer ≡ some (true, with_writer))
    × (handle_report both false with_writer ≡ some with_writer)
unfolding holds is_any
epoll_failure_example = epoll_failure reads (some 1) (some 70) none both with_writer
