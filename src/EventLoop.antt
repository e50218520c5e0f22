-- ===== src/EventLoop.antt =====
-- include/coroutine/event_loop.h, src/event_loop.cpp: callbacks that wait for a descriptor, and one
-- round of the loop. The kernel's answers are arguments; what the loop asks of it, and which
-- callbacks run, is the trace. A callback is a value of `C`; `exec` says what running it does to the
-- loop, since a callback may register, cancel or add timers itself.
pub mod Registrations
pub mod Timeout
use coroutine_library.Prelude.{
  ℕ, zero, suc, ◌+◌, Bool, true, false, Option, none, some, if◌then◌else◌, List, [], ◌∷◌, ◌++◌, not,
  ◌&&◌, ◌||◌, is_some, min, ◌==◌, length,
}
use coroutine_library.Prelude.Int.{ℤ, pos, minus_one, is_negative, int_eq, pos_part}
use coroutine_library.Prelude.Maps.{Map, put, erase, empty_map, int_key}
use coroutine_library.Events.{
  Event, read, write, EventResult, accepted, duplicate, invalid_fd, CancelReason,
}
use coroutine_library.TimerQueue.{TimerQueue, empty_timers, expire, next_timeout}

-- `std::array<WaitRegistration, 2>`.
pub record Slots (C : Type 0) : Type 0 where
  pub reader : Option C
  pub writer : Option C

pub data Effect (C : Type 0) : Type 0 where
  ctl_add ctl_mod ctl_del : ℤ → Effect C
  ran : C → Effect C

pub record EventLoop (C : Type 0) : Type 0 where
  pub worker_id : ℕ
  pub has_epoll : Bool
  pub wake_fd : ℤ
  pub wakes : ℕ
  pub waits : Map ℤ (Slots C)
  pub timers : TimerQueue C
  pub trace : List (Effect C)

-- What `EPOLL_CTL_ADD` answers.
pub data CtlResult : Type 0 where
  added exists failed : CtlResult

-- An event of `epoll_wait`: `in_or_error` is `events & (EPOLLIN | EPOLLERR | EPOLLHUP)`.
pub record Ready : Type 0 where
  pub fd : ℤ
  pub in_or_error : Bool
  pub out_or_error : Bool

pub data WaitResult : Type 0 where
  events : List Ready → WaitResult
  interrupted wait_failed : WaitResult

-- `none` is `Duration::max()`.
abbrev pub shorter : ℕ → Option ℕ → ℕ
shorter timeout none = timeout
shorter timeout (some t) = min timeout t

module _ {C : Type 0} where
  abbrev pub no_slots : Slots C
  no_slots = record { reader = none; writer = none }

  abbrev pub slot : Event → Slots C → Option C
  slot read s = s.reader
  slot write s = s.writer

  abbrev pub set_slot : Event → Option C → Slots C → Slots C
  set_slot read c s = record s { reader = c }
  set_slot write c s = record s { writer = c }

  -- `waits[fd]`, which makes an entry with empty slots where there is none.
  abbrev pub slots_of : Option (Slots C) → Slots C
  slots_of none = no_slots
  slots_of (some s) = s

  abbrev pub slots_at : Map ℤ (Slots C) → ℤ → Slots C
  slots_at m fd = slots_of (m fd)

  abbrev pub log : Effect C → EventLoop C → EventLoop C
  log e l = record l { trace = l.trace ++ e ∷ [] }

  unfoldable pub new_loop : ℕ → Bool → ℤ → EventLoop C
  new_loop id has_epoll wake_fd = record {
    worker_id = id;
    has_epoll = has_epoll;
    wake_fd = wake_fd;
    wakes = 0;
    waits = empty_map;
    timers = empty_timers;
    trace = ctl_add wake_fd ∷ [];
  }

  -- `stale` says that `errno` was EEXIST before the call, which a successful call leaves so.
  add_armed : ℤ → Event → CtlResult → Bool → EventLoop C → EventResult × EventLoop C
  add_armed fd ev failed stale l =
      (invalid_fd, record l { waits = put l.waits fd (set_slot ev none (slots_at l.waits fd)) })
  add_armed fd ev exists stale l = (accepted, log (ctl_mod fd) l)
  add_armed fd ev added stale l = (accepted, if stale then log (ctl_mod fd) l else l)

  unfoldable pub add :
      ℤ → Event → Option C → CtlResult → Bool → EventLoop C → EventResult × EventLoop C
  unfolding add_armed
  add fd ev none result stale l = (invalid_fd, l)
  add fd ev (some callback) result stale l =
      let s = slots_at l.waits fd in
      if is_negative fd || not l.has_epoll
      then (invalid_fd, l)
      else if is_some (slot ev s)
      then (duplicate, record l { waits = put l.waits fd s })
      else add_armed fd ev result stale
          (log (ctl_add fd) (record l { waits = put l.waits fd (set_slot ev (some callback) s) }))

  -- An entry is dropped, and its descriptor taken from epoll, once both slots are empty.
  both_empty : Slots C → Bool
  both_empty s = not (is_some s.reader) && not (is_some s.writer)

  cancel_found : ℤ → Event → EventLoop C → Option (Slots C) → Bool × EventLoop C
  unfolding both_empty
  cancel_found fd ev l none = (false, l)
  cancel_found fd ev l (some s) =
      let t = set_slot ev none s in
      if not (is_some (slot ev s))
      then (false, l)
      else if both_empty t
      then (true, log (ctl_del fd) (record l { waits = erase l.waits fd }))
      else (true, record l { waits = put l.waits fd t })

  unfoldable pub cancel : ℤ → Event → CancelReason → EventLoop C → Bool × EventLoop C
  unfolding cancel_found
  cancel fd ev reason l = cancel_found fd ev l (l.waits fd)

  abbrev pub picked : Bool → Option C → Option C
  picked ready c = if ready then c else none

  abbrev pub left : Bool → Option C → Option C
  left ready c = if ready then none else c

  claim_found : Ready → EventLoop C → Option (Slots C) → Slots C × EventLoop C
  unfolding both_empty
  claim_found r l none = (no_slots, l)
  claim_found r l (some s) =
      let t : Slots C = record {
        reader = left r.in_or_error s.reader;
        writer = left r.out_or_error s.writer;
      } in
      (
        record { reader = picked r.in_or_error s.reader; writer = picked r.out_or_error s.writer },
        if both_empty t
            then log (ctl_del r.fd) (record l { waits = erase l.waits r.fd })
            else log (ctl_mod r.fd) (record l { waits = put l.waits r.fd t }),
      )

  -- The part of a round under the mutex: the callbacks that an event claims.
  unfoldable pub claim : Ready → EventLoop C → Slots C × EventLoop C
  unfolding claim_found
  claim r l = claim_found r l (l.waits r.fd)

  abbrev pub run_callback : (C → EventLoop C → EventLoop C) → Option C → EventLoop C → EventLoop C
  run_callback exec none l = l
  run_callback exec (some c) l = exec c (log (ran c) l)

  unfoldable pub run_all : (C → EventLoop C → EventLoop C) → List C → EventLoop C → EventLoop C
  run_all exec [] l = l
  run_all exec (c ∷ cs) l = run_all exec cs (run_callback exec (some c) l)

  unfoldable pub dispatch : (C → EventLoop C → EventLoop C) → Ready → EventLoop C → EventLoop C
  dispatch exec r l =
      if int_eq r.fd l.wake_fd
      then record l { wakes = 0 }
      else let claimed = claim r l in
        run_callback exec claimed.0.writer (run_callback exec claimed.0.reader claimed.1)

  unfoldable pub dispatch_all :
      (C → EventLoop C → EventLoop C) → List Ready → EventLoop C → EventLoop C
  dispatch_all exec [] l = l
  dispatch_all exec (r ∷ rs) l = dispatch_all exec rs (dispatch exec r l)

  -- Timers that have expired run.
  unfoldable pub fire : (C → EventLoop C → EventLoop C) → ℕ → EventLoop C → EventLoop C
  unfolding run_all
  fire exec now l = let r = expire now [] l.timers in run_all exec r.1 (record l { timers = r.2 })

  -- The time that `epoll_wait` is given, in milliseconds.
  unfoldable pub wait_time : ℕ → ℕ → EventLoop C → ℕ × EventLoop C
  wait_time now timeout l =
      let r = next_timeout now l.timers in (shorter timeout r.0, record l { timers = r.1 })

  finish : (C → EventLoop C → EventLoop C) → ℕ → WaitResult → EventLoop C → ℤ × EventLoop C
  finish exec now interrupted l = (pos 0, l)
  finish exec now wait_failed l = (minus_one, fire exec now l)
  finish exec now (events rs) l = (pos (length rs), fire exec now (dispatch_all exec rs l))

  -- The three clock readings of a round, and what `epoll_wait` answers for a waiting time.
  unfoldable pub run_once :
      (C → EventLoop C → EventLoop C)
      → (ℕ × ℕ × ℕ)
      → (ℕ → WaitResult)
      → ℕ
      → EventLoop C
      → ℤ × EventLoop C
  unfolding fire wait_time finish
  run_once exec (first, second, last) wait timeout l =
      let w = wait_time second timeout (fire exec first l) in finish exec last (wait w.0) w.1

  unfoldable pub wake : EventLoop C → EventLoop C
  wake l = record l { wakes = l.wakes + 1 }
