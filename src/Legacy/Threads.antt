-- ===== src/Legacy/Threads.antt =====
-- fiber_lib/6hook/thread.h, thread.cpp: `Semaphore`, and how the constructor of `Thread` and the new
-- thread meet. The two are interleaved: each access to the thread's object, and each part of `wait`
-- and `signal` under the mutex, is one step. A callback is a `C`.
pub mod Handshake
use coroutine_library.Prelude.{
  ℕ, zero, suc, ◌+◌, ◌-◌, Bool, true, false, Option, none, some, if◌then◌else◌, ◌==◌, List, [], ◌∷◌,
}

-- Where the creator is: before `pthread_create`, before or again before the test of the count, in
-- `cv.wait`, behind the constructor, or out of it by the exception.
pub data CreatorAt : Type 0 where
  creating testing sleeping returned raised : CreatorAt

-- Where the new thread is: not there, at the beginning of `run`, and behind its statements.
pub data RunnerAt : Type 0 where
  absent begun named identified swapped signalled ended : RunnerAt

-- `m_id`, `m_cb`, the semaphore's count, the new thread's name, and the callbacks that were called.
pub record Meeting (C : Type 0) : Type 0 where
  pub creator : CreatorAt
  pub runner : RunnerAt
  pub id : Option ℕ
  pub cb : Option C
  pub local : Option C
  pub count : ℕ
  pub has_name : Bool
  pub called : List C

-- A step of the creator, with what `pthread_create` says; of the new thread, with its number; and a
-- return of `cv.wait` with no signal.
pub data ThreadAct : Type 0 where
  creates : Bool → ThreadAct
  runs : ℕ → ThreadAct
  wakes : ThreadAct

-- `notify_one`.
notified : CreatorAt → CreatorAt
notified sleeping = testing
notified c = c

module _ {C : Type 0} where
  unfoldable pub new_meeting : C → Meeting C
  new_meeting cb = record {
    creator = creating;
    runner = absent;
    id = none;
    cb = some cb;
    local = none;
    count = 0;
    has_name = false;
    called = [];
  }

  -- The constructor, with `Semaphore::wait`.
  creator_step : Bool → CreatorAt → Meeting C → Option (Meeting C)
  creator_step ok creating s =
      some (
        if ok
        then record s { creator = testing; runner = begun }
        else record s { creator = raised })
  creator_step ok testing s = some (
      if s.count == 0
      then record s { creator = sleeping }
      else record s { creator = returned; count = s.count - 1 })
  creator_step ok sleeping s = none
  creator_step ok returned s = none
  creator_step ok raised s = none

  call_local : Option C → Meeting C → Meeting C
  call_local none s = record s { runner = ended }
  call_local (some cb) s = record s { runner = ended; called = cb ∷ s.called }

  -- `Thread::run`, with `Semaphore::signal`.
  runner_step : ℕ → RunnerAt → Meeting C → Option (Meeting C)
  unfolding notified call_local
  runner_step id absent s = none
  runner_step id begun s = some (record s { runner = named; has_name = true })
  runner_step id named s = some (record s { runner = identified; id = some id })
  runner_step id identified s = some (record s { runner = swapped; cb = none; local = s.cb })
  runner_step id swapped s =
      some (record s { runner = signalled; count = s.count + 1; creator = notified s.creator })
  runner_step id signalled s = some (call_local s.local s)
  runner_step id ended s = none

  wake_step : CreatorAt → Meeting C → Option (Meeting C)
  wake_step sleeping s = some (record s { creator = testing })
  wake_step _ s = none

  -- `none` if the step cannot be made.
  unfoldable pub thread_step : ThreadAct → Meeting C → Option (Meeting C)
  unfolding creator_step runner_step wake_step
  thread_step (creates ok) s = creator_step ok s.creator s
  thread_step (runs id) s = runner_step id s.runner s
  thread_step wakes s = wake_step s.creator s
