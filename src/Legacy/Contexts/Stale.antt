-- ===== src/Legacy/Contexts/Stale.antt =====
-- fiber_lib/6hook/ioscheduler.cpp: `idle` handles what `epoll_wait` has reported after another thread
-- has cancelled a part of it.
use coroutine_library.Prelude.{
  ℕ, ◌≡◌, refl, subst, ap, ◌∙◌, Bool, true, false, none, some, List, ◌∷◌,
}
use coroutine_library.Prelude.Words.{sub64}
use coroutine_library.Legacy.EventSets.{
  reads, writes, holds, EventContext, Report, EpollCall, modifies,
}
use coroutine_library.Legacy.Tasks.{ScheduleTask}
use coroutine_library.Legacy.Contexts.{Locked, cancel_event, handle_report, answer, no_context}
use coroutine_library.Legacy.Contexts.Bookkeeping.{PlaceFits, Fits, locked, events, trigger_reads}

module _ {F C : Type 0} where
  locked-handle :
      (i o e : Bool) (re we : EventContext F C) (fd pending : ℕ)
      (given : List (ℕ × ScheduleTask F C)) (epoll : List EpollCall)
      → i ≡ true
      → o ≡ true
      → handle_report
          (record { input = i; output = o; error_or_hangup = e })
          true
          (locked false true re we fd pending given epoll)
        ≡ none
  unfolding handle_report
  locked-handle true true e re we fd pending given epoll hi ho = refl
  locked-handle false o e re we fd pending given epoll hi ho = absurd (cc)
  locked-handle true false e re we fd pending given epoll hi ho = absurd (cc)

  cancel-locked :
      (re we : EventContext F C) (fd pending : ℕ) (given : List (ℕ × ScheduleTask F C))
      (epoll : List EpollCall)
      → PlaceFits true re
      → (g : List (ℕ × ScheduleTask F C)) × (cancel_event reads true
            (locked true true re we fd pending given epoll)
          ≡ some (
            true,
            locked false true no_context we fd
                (sub64 pending 1)
                g
                (record { op = modifies; fd = fd; events = events false true } ∷ epoll),
          ))
  unfolding cancel_event
  cancel-locked re we fd pending given epoll h =
      let (s, _, e) =
        trigger_reads true re we fd (sub64 pending 1) given
          (record { op = modifies; fd = fd; events = events false true } ∷ epoll) h in
      (_, ap (answer true) e)

  -- A context with both directions registered, for which `epoll_wait` has reported input and output.
  -- If a cancellation of the reader comes first, it succeeds, and handling the report then fails an
  -- assertion, though the writer is still to be served.
  pub cancel_event-handle_report :
      (l : Locked F C) (r : Report)
      → Fits l
      → l.context.events.reading ≡ true
      → l.context.events.writing ≡ true
      → r.input ≡ true
      → r.output ≡ true
      → (l' : Locked F C) × (cancel_event reads true l ≡ some (true, l'))
        × (holds writes l'.context.events ≡ true)
        × (handle_report r true l' ≡ none)
  unfolding holds
  cancel_event-handle_report l r f hr hw hi ho =
      let c = l.context in
      let (g, e) =
        cancel-locked c.read c.write c.fd l.pending l.given l.epoll
          (subst (λ b. PlaceFits b c.read) hr f.read) in
      let same : l ≡ locked true true c.read c.write c.fd l.pending l.given l.epoll =
        (λ i. locked (hr i) (hw i) c.read c.write c.fd l.pending l.given l.epoll) in
      (
        _,
        ap (cancel_event reads true) same ∙ e,
        refl,
        locked-handle r.input r.output r.error_or_hangup no_context c.write c.fd _ g _ hi ho,
      )
