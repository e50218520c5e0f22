-- ===== src/Poll.antt =====
-- src/poll_hook.cpp: `poll_wait`, which waits for several descriptors by the event loop. What `poll`
-- and `epoll_ctl` answer is an argument, and so is what else happens to the loop while the coroutine
-- waits. A callback is a value of `C`; the one made here submits the coroutine once.
pub mod Release
use coroutine_library.Prelude.{
  ℕ, Bool, true, false, Option, none, some, if◌then◌else◌, List, [], ◌∷◌, ◌==◌, not, ◌||◌, ◌&&◌,
  is_some,
}
use coroutine_library.Prelude.Int.{ℤ, pos, negsuc, int_eq, is_negative}
use coroutine_library.Events.{Event, read, write, explicit_cancel}
use coroutine_library.Hook.{Surroundings}
use coroutine_library.EventLoop.{EventLoop, CtlResult, add, cancel}
use coroutine_library.TimerQueue

-- `wants_read` is `events & (POLLIN | POLLPRI)`, `wants_write` is `events & POLLOUT`.
pub record PollFd : Type 0 where
  pub fd : ℤ
  pub wants_read : Bool
  pub wants_write : Bool

-- What `poll_wait` returns: the answer of a blocking `poll`, that of the first `poll` without a
-- timeout, -1 where the coroutine cannot wait, or the answer of the last `poll`.
pub data PollResult : Type 0 where
  blocking not_waited : PollResult
  immediate finished : ℤ → PollResult

-- What `epoll_ctl` answers for a descriptor and event, and whether `errno` was stale.
abbrev pub CtlAnswers : Type 0
CtlAnswers = ℤ → Event → CtlResult × Bool

is_empty : List PollFd → Bool
is_empty [] = true
is_empty (p ∷ ps) = false

module _ {C : Type 0} where
  register_event : CtlAnswers → C → Bool → ℤ → Event → EventLoop C → EventLoop C
  register_event ctl callback wanted fd ev l =
      if wanted then (add fd ev (some callback) (ctl fd ev).0 (ctl fd ev).1 l).1 else l

  unfoldable pub register_all : CtlAnswers → C → List PollFd → EventLoop C → EventLoop C
  unfolding register_event
  register_all ctl callback [] l = l
  register_all ctl callback (p ∷ ps) l =
      let l' : EventLoop C =
        if is_negative p.fd
        then l
        else register_event ctl callback p.wants_write p.fd write
            (register_event ctl callback p.wants_read p.fd read l) in
      register_all ctl callback ps l'

  arm_at : ℕ → C → EventLoop C → ℤ → ℕ × EventLoop C
  arm_at now callback l (negsuc n) = (0, l)
  arm_at now callback l (pos n) =
      let r = TimerQueue.add now (pos n) (some callback) l.timers in
      (r.0, record l { timers = r.1 })

  -- The timer, and its handle or 0.
  unfoldable pub arm : ℕ → C → ℤ → EventLoop C → ℕ × EventLoop C
  unfolding arm_at
  arm now callback timeout l = arm_at now callback l timeout

  unfoldable pub disarm : ℕ → EventLoop C → EventLoop C
  disarm timer l =
      if timer == 0 then l else record l { timers = (TimerQueue.cancel timer l.timers).1 }

  unfoldable pub cancel_event : Bool → ℤ → Event → EventLoop C → EventLoop C
  cancel_event wanted fd ev l = if wanted then (cancel fd ev explicit_cancel l).1 else l

  unfoldable pub cancel_fd : PollFd → EventLoop C → EventLoop C
  unfolding cancel_event
  cancel_fd p l =
      if is_negative p.fd
      then l
      else cancel_event p.wants_write p.fd write (cancel_event p.wants_read p.fd read l)

  unfoldable pub cancel_all : List PollFd → EventLoop C → EventLoop C
  unfolding cancel_fd
  cancel_all [] l = l
  cancel_all (p ∷ ps) l = cancel_all ps (cancel_fd p l)

  -- From the wait on.
  unfoldable pub poll_rest :
      Bool
      → (EventLoop C → EventLoop C)
      → ℤ
      → List PollFd
      → ℕ × EventLoop C
      → PollResult × EventLoop C
  unfolding disarm cancel_all
  poll_rest waited meanwhile last fds (timer, l) =
      if not waited
      then (not_waited, l)
      else (finished last, cancel_all fds (disarm timer (meanwhile l)))

  unfoldable pub poll_wait :
      Surroundings
      → ℕ
      → CtlAnswers
      → C
      → (EventLoop C → EventLoop C)
      → Bool
      → ℤ
      → ℤ
      → List PollFd
      → ℤ
      → EventLoop C
      → PollResult × EventLoop C
  unfolding register_all arm is_empty poll_rest
  poll_wait e now ctl callback meanwhile waited first last fds timeout l =
      if not e.enabled || (not e.in_coroutine || (not e.has_loop || is_empty fds))
      then (blocking, l)
      else if not (int_eq first (pos 0)) || int_eq timeout (pos 0)
      then (immediate first, l)
      else if not e.has_owner
      then (blocking, l)
      else poll_rest waited meanwhile last fds
          (arm now callback timeout (register_all ctl callback fds l))
