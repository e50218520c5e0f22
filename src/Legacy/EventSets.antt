-- ===== src/Legacy/EventSets.antt =====
-- fiber_lib/6hook/ioscheduler.h, ioscheduler.cpp: sets of events, the context of a descriptor, and
-- what passes between the manager and epoll.
use coroutine_library.Prelude.{ℕ, Bool, true, false, Option, if◌then◌else◌, not, ◌&&◌, ◌||◌}

-- `READ` and `WRITE`, and a set of these.
pub data Direction : Type 0 where
  reads writes : Direction

pub record EventSet : Type 0 where
  pub reading : Bool
  pub writing : Bool

abbrev pub no_events : EventSet
no_events = record { reading = false; writing = false }

-- `events & event`, `events | event`, `events & ~event`, and `events != NONE`.
unfoldable pub holds : Direction → EventSet → Bool
holds reads s = s.reading
holds writes s = s.writing

unfoldable pub with_event : Direction → EventSet → EventSet
with_event reads s = record s { reading = true }
with_event writes s = record s { writing = true }

unfoldable pub without : Direction → EventSet → EventSet
without reads s = record s { reading = false }
without writes s = record s { writing = false }

unfoldable pub is_any : EventSet → Bool
is_any s = s.reading || s.writing

pub record EventContext (F C : Type 0) : Type 0 where
  pub scheduler : Option ℕ
  pub fiber : Option F
  pub cb : Option C

pub record FdContext (F C : Type 0) : Type 0 where
  pub read : EventContext F C
  pub write : EventContext F C
  pub fd : ℕ
  pub events : EventSet

-- A call of `epoll_ctl`.
pub data EpollOp : Type 0 where
  adds modifies deletes : EpollOp

pub record EpollCall : Type 0 where
  pub op : EpollOp
  pub fd : ℕ
  pub events : EventSet

abbrev pub left_op : EventSet → EpollOp
left_op events = if is_any events then modifies else deletes

-- What `epoll_wait` reports for a descriptor.
pub record Report : Type 0 where
  pub input : Bool
  pub output : Bool
  pub error_or_hangup : Bool

abbrev pub without_all : EventSet → EventSet → EventSet
without_all real s = record {
  reading = s.reading && not real.reading;
  writing = s.writing && not real.writing;
}

-- The events that count as happening: an error counts for what is registered.
unfoldable pub real_events : Report → EventSet → EventSet
real_events r s = record {
  reading = r.input || (r.error_or_hangup && s.reading);
  writing = r.output || (r.error_or_hangup && s.writing);
}
