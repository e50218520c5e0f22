-- ===== src/Legacy/Contexts/Reporting.antt =====
-- fiber_lib/6hook/ioscheduler.cpp: the calls that trigger both directions come to their end and settle
-- the books.
use coroutine_library.Prelude.{
  ℕ, ◌<◌, ◌≡◌, refl, sym, subst, ap, ◌∙◌, Bool, true, false, Option, some, List, ◌∷◌, arith,
}
use coroutine_library.Prelude.Words.{sub64, size_mod}
use coroutine_library.Legacy.EventSets.{
  reads, writes, no_events, is_any, EventContext, modifies, deletes, EpollCall,
}
use coroutine_library.Legacy.Tasks.{ScheduleTask}
use coroutine_library.Legacy.Contexts.{
  Locked, no_context, task_of, one_less, answer, trigger_if, trigger_write, all_gone, cancel_all,
  handle_events,
}
use coroutine_library.Legacy.Contexts.Bookkeeping.{
  events, PlaceFits, Fits, Settles, locked, call-Accounts, same-Accounts, trigger_reads,
  trigger_writes,
}

module _ {F C : Type 0} (fd pending : ℕ) (given : List (ℕ × ScheduleTask F C))
    (epoll : List EpollCall) where
  abbrev state : Bool → Bool → EventContext F C → EventContext F C → Locked F C
  state r w re we = locked r w re we fd pending given epoll

  -- What is left when the directions that `b` and the test say were triggered and counted.
  abbrev Triggers :
      Option (Locked F C)
      → Bool
      → Bool
      → EventContext F C
      → EventContext F C
      → ℕ
      → List EpollCall
      → Type 0
  Triggers o r w re we p calls =
      (g : List (ℕ × ScheduleTask F C)) × (o ≡ some (locked r w re we fd p g calls))

  both_triggered :
      (b : Locked F C → Bool) (re we : EventContext F C) (p : ℕ) (calls : List EpollCall)
      → ((g : List (ℕ × ScheduleTask F C))
          → b (locked false true no_context we fd (sub64 p 1) g calls) ≡ true)
      → PlaceFits true re
      → PlaceFits true we
      → Triggers
          (trigger_write b (trigger_if true reads (locked true true re we fd p given calls)))
          false
          false
          no_context
          no_context
          (sub64 (sub64 p 1) 1)
          calls
  unfolding trigger_write trigger_if
  both_triggered b re we p calls h fr fw =
      let (s, _, e) = trigger_reads true re we fd p given calls fr in
      let g = (s, task_of re) ∷ given in
      let l = locked false true no_context we fd (sub64 p 1) g calls in
      let (t, _, e') = trigger_writes false no_context we fd (sub64 p 1) g calls fw in
      (
        _,
        ap (λ o. trigger_write b (one_less o)) e
            ∙ ap (λ q. trigger_if q writes l) (h g)
            ∙ ap one_less e',
      )

  read_triggered :
      (b : Locked F C → Bool) (w : Bool) (re we : EventContext F C) (p : ℕ) (calls : List EpollCall)
      → ((g : List (ℕ × ScheduleTask F C))
          → b (locked false w no_context we fd (sub64 p 1) g calls) ≡ false)
      → PlaceFits true re
      → Triggers
          (trigger_write b (trigger_if true reads (locked true w re we fd p given calls)))
          false
          w
          no_context
          we
          (sub64 p 1)
          calls
  unfolding trigger_write trigger_if
  read_triggered b w re we p calls h fr =
      let (s, _, e) = trigger_reads w re we fd p given calls fr in
      let g = (s, task_of re) ∷ given in
      let l = locked false w no_context we fd (sub64 p 1) g calls in
      (_, ap (λ o. trigger_write b (one_less o)) e ∙ ap (λ q. trigger_if q writes l) (h g))

  write_triggered :
      (b : Locked F C → Bool) (r : Bool) (re we : EventContext F C) (p : ℕ) (calls : List EpollCall)
      → b (locked r true re we fd p given calls) ≡ true
      → PlaceFits true we
      → Triggers
          (trigger_write b (trigger_if false reads (locked r true re we fd p given calls)))
          r
          false
          re
          no_context
          (sub64 p 1)
          calls
  unfolding trigger_write trigger_if
  write_triggered b r re we p calls h fw =
      let (s, _, e) = trigger_writes r re we fd p given calls fw in
      let l = locked r true re we fd p given calls in
      (_, ap (λ q. trigger_if q writes l) h ∙ ap one_less e)

  pub cancel_all-state :
      (ctl_ok r w : Bool) (re we : EventContext F C)
      → Fits (state r w re we)
      → pending < size_mod
      → Settles (state r w re we) (cancel_all ctl_ok (state r w re we))
  unfolding cancel_all
  cancel_all-state ctl_ok false false re we f small = same-Accounts _ f small
  cancel_all-state false true w re we f small = same-Accounts _ f small
  cancel_all-state false false true re we f small = same-Accounts _ f small
  cancel_all-state true true true re we f small =
      let calls = record { op = deletes; fd = fd; events = no_events } ∷ epoll in
      let (g, e) =
        both_triggered (λ k. k.context.events.writing) re we pending calls (λ g. refl) f.read
          f.write in
      subst (λ o. Settles (state true true re we) (all_gone o)) (sym e)
        (call-Accounts _ true true false false re we _ _ fd pending _ given _ epoll f.registered
          (refl, refl, refl) (refl, refl, refl) refl (ground arith) (omega arith))
  cancel_all-state true true false re we f small =
      let calls = record { op = deletes; fd = fd; events = no_events } ∷ epoll in
      let (g, e) =
        read_triggered (λ k. k.context.events.writing) false re we pending calls (λ g. refl)
          f.read in
      subst (λ o. Settles (state true false re we) (all_gone o)) (sym e)
        (call-Accounts _ true false false false re we _ we fd pending _ given _ epoll f.registered
          (refl, refl, refl) f.write refl (ground arith) (omega arith))
  cancel_all-state true false true re we f small =
      let calls = record { op = deletes; fd = fd; events = no_events } ∷ epoll in
      let (g, e) =
        write_triggered (λ k. k.context.events.writing) false re we pending calls refl f.write in
      subst (λ o. Settles (state false true re we) (all_gone o)) (sym e)
        (call-Accounts _ false true false false re we re _ fd pending _ given _ epoll f.registered
          f.read (refl, refl, refl) refl (ground arith) (omega arith))

  -- Only registered events happen.
  pub handle_events-state :
      (ctl_ok r w i o : Bool) (re we : EventContext F C)
      → (i ≡ true → r ≡ true)
      → (o ≡ true → w ≡ true)
      → Fits (state r w re we)
      → pending < size_mod
      → Settles
          (state r w re we)
          (answer true (handle_events (events i o) ctl_ok (state r w re we)))
  unfolding handle_events answer is_any
  handle_events-state ctl_ok true true false false re we hi ho f small = same-Accounts _ f small
  handle_events-state ctl_ok true false false false re we hi ho f small = same-Accounts _ f small
  handle_events-state ctl_ok false true false false re we hi ho f small = same-Accounts _ f small
  handle_events-state ctl_ok false false false false re we hi ho f small = same-Accounts _ f small
  handle_events-state ctl_ok false w true o re we hi ho f small = absurd (let e = hi refl in cc)
  handle_events-state ctl_ok r false i true re we hi ho f small = absurd (let e = ho refl in cc)
  handle_events-state false true w true o re we hi ho f small = same-Accounts _ f small
  handle_events-state false true true false true re we hi ho f small = same-Accounts _ f small
  handle_events-state false false true false true re we hi ho f small = same-Accounts _ f small
  handle_events-state true true true true true re we hi ho f small =
      let calls = record { op = deletes; fd = fd; events = no_events } ∷ epoll in
      let (g, e) = both_triggered (λ k. true) re we pending calls (λ g. refl) f.read f.write in
      subst (λ o. Settles (state true true re we) (answer true o)) (sym e)
        (call-Accounts _ true true false false re we _ _ fd pending _ given _ epoll f.registered
          (refl, refl, refl) (refl, refl, refl) refl (ground arith) (omega arith))
  handle_events-state true true true true false re we hi ho f small =
      let calls = record { op = modifies; fd = fd; events = events false true } ∷ epoll in
      let (g, e) = read_triggered (λ k. false) true re we pending calls (λ g. refl) f.read in
      subst (λ o. Settles (state true true re we) (answer true o)) (sym e)
        (call-Accounts _ true true false true re we _ we fd pending _ given _ epoll f.registered
          (refl, refl, refl) f.write refl (ground arith) (omega arith))
  handle_events-state true true false true false re we hi ho f small =
      let calls = record { op = deletes; fd = fd; events = events false false } ∷ epoll in
      let (g, e) = read_triggered (λ k. false) false re we pending calls (λ g. refl) f.read in
      subst (λ o. Settles (state true false re we) (answer true o)) (sym e)
        (call-Accounts _ true false false false re we _ we fd pending _ given _ epoll f.registered
          (refl, refl, refl) f.write refl (ground arith) (omega arith))
  handle_events-state true true true false true re we hi ho f small =
      let calls = record { op = modifies; fd = fd; events = events true false } ∷ epoll in
      let (g, e) = write_triggered (λ k. true) true re we pending calls refl f.write in
      subst (λ o. Settles (state true true re we) (answer true o)) (sym e)
        (call-Accounts _ true true true false re we re _ fd pending _ given _ epoll f.registered
          f.read (refl, refl, refl) refl (ground arith) (omega arith))
  handle_events-state true false true false true re we hi ho f small =
      let calls = record { op = deletes; fd = fd; events = events false false } ∷ epoll in
      let (g, e) = write_triggered (λ k. true) false re we pending calls refl f.write in
      subst (λ o. Settles (state false true re we) (answer true o)) (sym e)
        (call-Accounts _ false true false false re we re _ fd pending _ given _ epoll f.registered
          f.read (refl, refl, refl) refl (ground arith) (omega arith))
