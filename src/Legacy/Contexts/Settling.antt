-- ===== src/Legacy/Contexts/Settling.antt =====
-- fiber_lib/6hook/ioscheduler.cpp: each call under a context's mutex comes to its end and settles the
-- books.
use coroutine_library.Prelude.{
  ℕ, ◌<◌, ◌≡◌, refl, sym, subst, Bool, true, false, Option, some, List, ◌∷◌, arith,
}
use coroutine_library.Prelude.Words.{sub64, size_mod}
use coroutine_library.Legacy.EventSets.{
  Direction, reads, writes, is_any, EventContext, EpollCall, left_op,
}
use coroutine_library.Legacy.Tasks.{ScheduleTask}
use coroutine_library.Legacy.Contexts.{Locked, answer, add_event, del_event, cancel_event}
use coroutine_library.Legacy.Contexts.Bookkeeping.{
  after_calls, expected, events, read_added, write_added, Fits, Settles, locked, call-Accounts,
  same-Accounts, waiter-PlaceFits, is_free_lem, trigger_reads, trigger_writes,
}

pub read_removed :
    (w : Bool)
    → after_calls (left_op (events false w)) (events false w) (some (expected (events true w)))
      ≡ some (expected (events false w))
unfolding is_any
read_removed true = refl
read_removed false = refl

pub write_removed :
    (r : Bool)
    → after_calls (left_op (events r false)) (events r false) (some (expected (events r true)))
      ≡ some (expected (events r false))
unfolding is_any
write_removed true = refl
write_removed false = refl

module _ {F C : Type 0} where
  pub add_event-locked :
      (d : Direction) (s : ℕ) (running : F) (cb : Option C) (ctl_ok r w : Bool)
      (re we : EventContext F C) (fd pending : ℕ) (given : List (ℕ × ScheduleTask F C))
      (epoll : List EpollCall)
      → Fits (locked r w re we fd pending given epoll)
      → pending < size_mod
      → Settles
          (locked r w re we fd pending given epoll)
          (add_event d (some s) (some running) cb ctl_ok (locked r w re we fd pending given epoll))
  unfolding add_event
  add_event-locked reads s running cb ctl_ok true w re we fd pending given epoll f small =
      same-Accounts _ f small
  add_event-locked reads s running cb false false w re we fd pending given epoll f small =
      same-Accounts _ f small
  add_event-locked reads s running cb true false w re we fd pending given epoll f small =
      rw (is_free_lem re f.read) (
        call-Accounts _ false w true w re we _ we fd pending _ given _ epoll f.registered
          (waiter-PlaceFits s running cb) f.write (read_added w) (ground arith) (omega arith))
  add_event-locked writes s running cb ctl_ok r true re we fd pending given epoll f small =
      same-Accounts _ f small
  add_event-locked writes s running cb false r false re we fd pending given epoll f small =
      same-Accounts _ f small
  add_event-locked writes s running cb true r false re we fd pending given epoll f small =
      rw (is_free_lem we f.write) (
        call-Accounts _ r false r true re we re _ fd pending _ given _ epoll f.registered f.read
          (waiter-PlaceFits s running cb) (write_added r) (ground arith) (omega arith))

  module _ (fd pending : ℕ) (given : List (ℕ × ScheduleTask F C)) (epoll : List EpollCall) where
    abbrev pub state : Bool → Bool → EventContext F C → EventContext F C → Locked F C
    state r w re we = locked r w re we fd pending given epoll

    pub del_event-state :
        (d : Direction) (ctl_ok r w : Bool) (re we : EventContext F C)
        → Fits (state r w re we)
        → pending < size_mod
        → Settles (state r w re we) (del_event d ctl_ok (state r w re we))
    unfolding del_event
    del_event-state reads ctl_ok false w re we f small = same-Accounts _ f small
    del_event-state reads false true w re we f small = same-Accounts _ f small
    del_event-state reads true true w re we f small =
        call-Accounts _ true w false w re we _ we fd pending _ given _ epoll f.registered
          (refl, refl, refl) f.write (read_removed w) (ground arith) (omega arith)
    del_event-state writes ctl_ok r false re we f small = same-Accounts _ f small
    del_event-state writes false r true re we f small = same-Accounts _ f small
    del_event-state writes true r true re we f small =
        call-Accounts _ r true r false re we re _ fd pending _ given _ epoll f.registered f.read
          (refl, refl, refl) (write_removed r) (ground arith) (omega arith)

    pub cancel_event-state :
        (d : Direction) (ctl_ok r w : Bool) (re we : EventContext F C)
        → Fits (state r w re we)
        → pending < size_mod
        → Settles (state r w re we) (cancel_event d ctl_ok (state r w re we))
    unfolding cancel_event
    cancel_event-state reads ctl_ok false w re we f small = same-Accounts _ f small
    cancel_event-state reads false true w re we f small = same-Accounts _ f small
    cancel_event-state reads true true w re we f small =
        let (s, _, e) =
          trigger_reads w re we fd (sub64 pending 1) given
            (record { op = left_op (events false w); fd = fd; events = events false w } ∷ epoll)
            f.read in
        subst (λ o. Settles (state true w re we) (answer true o)) (sym e)
          (call-Accounts _ true w false w re we _ we fd pending _ given _ epoll f.registered
            (refl, refl, refl) f.write (read_removed w) (ground arith) (omega arith))
    cancel_event-state writes ctl_ok r false re we f small = same-Accounts _ f small
    cancel_event-state writes false r true re we f small = same-Accounts _ f small
    cancel_event-state writes true r true re we f small =
        let (s, _, e) =
          trigger_writes r re we fd (sub64 pending 1) given
            (record { op = left_op (events r false); fd = fd; events = events r false } ∷ epoll)
            f.write in
        subst (λ o. Settles (state r true re we) (answer true o)) (sym e)
          (call-Accounts _ r true r false re we re _ fd pending _ given _ epoll f.registered f.read
            (refl, refl, refl) (write_removed r) (ground arith) (omega arith))
