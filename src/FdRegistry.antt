-- ===== src/FdRegistry.antt =====
-- include/coroutine/fd_registry.h, src/fd_registry.cpp: which waits are registered on a descriptor,
-- and which descriptors are closed. Each method runs under the mutex and is one step here.
pub mod Lifecycle
use coroutine_library.Prelude.{
  ℕ, ◌≡◌, refl, Bool, true, false, Option, none, some, ◌&&◌, ◌||◌, not, arith, if◌then◌else◌, List,
  [], ◌∷◌,
}
use coroutine_library.Prelude.Int.{ℤ, pos, negsuc, is_negative}
use coroutine_library.Prelude.Maps.{Map, put, erase, empty_map, int_key}
use coroutine_library.Events.{
  Event, read, write, EventResult, accepted, duplicate, closed, invalid_fd, CancelReason, shutdown,
}

-- `FdRegistry::State`; `waiting[0]` is the reader's and `waiting[1]` the writer's.
pub record State : Type 0 where
  pub is_shut : Bool
  pub reading : Bool
  pub writing : Bool

abbrev pub States : Type 0
States = Map ℤ State

abbrev pub fresh : State
fresh = record { is_shut = false; reading = false; writing = false }

abbrev pub waiting : Event → State → Bool
waiting read s = s.reading
waiting write s = s.writing

abbrev pub set_waiting : Event → Bool → State → State
set_waiting read b s = record s { reading = b }
set_waiting write b s = record s { writing = b }

-- `states_[fd]`.
abbrev pub at : States → ℤ → State
at m fd = elim (m fd) [ none ↦ fresh | some s ↦ s ]

unfoldable pub register_wait : ℤ → Event → States → EventResult × States
register_wait fd ev m =
    if is_negative fd
    then (invalid_fd, m)
    else if (at m fd).is_shut
    then (closed, put m fd (at m fd))
    else if waiting ev (at m fd)
    then (duplicate, put m fd (at m fd))
    else (accepted, put m fd (set_waiting ev true (at m fd)))

cancel_entry : ℤ → Event → States → Option State → Bool × States
cancel_entry fd ev m none = (false, m)
cancel_entry fd ev m (some s) =
    let t = set_waiting ev false s in
    if not (waiting ev s)
    then (false, m)
    else if not t.reading && (not t.writing && not t.is_shut)
    then (true, erase m fd)
    else (true, put m fd t)

unfoldable pub cancel : ℤ → Event → CancelReason → States → Bool × States
unfolding cancel_entry
cancel fd ev reason m = cancel_entry fd ev m (m fd)

unfoldable pub complete : ℤ → Event → States → Bool × States
unfolding cancel
complete fd ev m = cancel fd ev shutdown m

unfoldable pub close : ℤ → States → Bool × States
close fd m =
    if (at m fd).is_shut
    then (false, put m fd (at m fd))
    else (true, put m fd (record { is_shut = true; reading = false; writing = false }))

is_closed_entry : Option State → Bool
is_closed_entry none = false
is_closed_entry (some s) = s.is_shut

unfoldable pub is_closed : ℤ → States → Bool
unfolding is_closed_entry
is_closed fd m = is_closed_entry (m fd)

-- One call of a method, and what it answers.
pub data Call : Type 0 where
  registers : ℤ → Event → Call
  completes : ℤ → Event → Call
  cancels : ℤ → Event → CancelReason → Call
  closes : ℤ → Call
  asks : ℤ → Call

pub data Answer : Type 0 where
  result : EventResult → Answer
  done : Bool → Answer

unfoldable pub step : Call → States → Answer × States
step (registers fd ev) m = let r = register_wait fd ev m in (result r.0, r.1)
step (completes fd ev) m = let r = complete fd ev m in (done r.0, r.1)
step (cancels fd ev reason) m = let r = cancel fd ev reason m in (done r.0, r.1)
step (closes fd) m = let r = close fd m in (done r.0, r.1)
step (asks fd) m = (done (is_closed fd m), m)

unfoldable pub run : List Call → States → List Answer × States
run [] m = ([], m)
run (c ∷ cs) m = let r = step c m in let rest = run cs r.1 in (r.0 ∷ rest.0, rest.1)
