-- ===== src/Events.antt =====
-- include/coroutine/event_loop.h: the enumerations that the event loop and the registry share.
pub data Event : Type 0 where
  read write : Event

pub data EventResult : Type 0 where
  accepted duplicate closed invalid_fd : EventResult

pub data CancelReason : Type 0 where
  timeout closed_fd shutdown explicit_cancel : CancelReason
