-- ===== src/Legacy/Hooks.antt =====
-- fiber_lib/6hook/hook.cpp: the hooked calls that wait. The answers of the system calls, of
-- `addEvent` and whether a timer fired before the fiber was resumed are arguments, one record for
-- each round of a loop. The buffers and addresses that a call passes on are left out.
pub mod Calls
pub mod Reading
pub mod Sleeping
use coroutine_library.Prelude.{
  ℕ, ◌+◌, ◌-◌, ◌*◌, ◌/◌, ◌%◌, ◌^◌, Bool, true, false, Option, none, some, if◌then◌else◌, List, [],
  ◌∷◌, ltb, leb, ◌==◌, is_some, not, ◌&&◌, ◌||◌,
}
use coroutine_library.Prelude.Words.{size_max}
use coroutine_library.Legacy.Descriptors.{FdCtx, get_timeout}

-- A system call's answer; `failed` has the `errno`, other than EINTR and EAGAIN.
pub data IoAnswer : Type 0 where
  succeeded : ℕ → IoAnswer
  interrupted would_block : IoAnswer
  failed : ℕ → IoAnswer

-- One call in `do_io`. Where it would block: whether `addEvent` succeeds, and whether the timer
-- fires before the descriptor is ready.
pub record Attempt : Type 0 where
  pub call : IoAnswer
  pub added : Bool
  pub fired : Bool

-- What a hooked call answers: what the system call does, or -1 with EBADF or ETIMEDOUT, or -1 since
-- `addEvent` fails.
pub data IoResult : Type 0 where
  answered : IoAnswer → IoResult
  bad_descriptor timed_out not_added : IoResult

-- The result, with the timers that were set, in milliseconds, and how often the fiber has waited.
pub record Done : Type 0 where
  pub result : IoResult
  pub timers : List ℕ
  pub waits : ℕ

abbrev pub at_once : IoResult → Option Done
at_once r = some (record { result = r; timers = []; waits = 0 })

-- The condition timer, unless the timeout is all ones.
unfoldable pub timers_of : ℕ → List ℕ
timers_of timeout = if timeout == size_max then [] else timeout ∷ []

unfoldable pub has_timer : ℕ → Bool
has_timer timeout = not (timeout == size_max)

after_wait : ℕ → Option Done → Option Done
unfolding timers_of
after_wait timeout none = none
after_wait timeout (some d) = some (record d {
  timers = elim (timers_of timeout) [ [] ↦ d.timers | ms ∷ _ ↦ ms ∷ d.timers ];
  waits = d.waits + 1;
})

abbrev waited_once : ℕ → IoResult → ℕ → Option Done
waited_once timeout r n = some (record { result = r; timers = timers_of timeout; waits = n })

-- One round after the call has answered; `rest` is what follows.
unfoldable pub io_round : ℕ → Attempt → IoAnswer → Option Done → Option Done
unfolding after_wait has_timer timers_of
io_round timeout a (succeeded n) rest = at_once (answered (succeeded n))
io_round timeout a (failed e) rest = at_once (answered (failed e))
io_round timeout a interrupted rest = rest
io_round timeout a would_block rest =
    if not a.added
    then waited_once timeout not_added 0
    else if a.fired && has_timer timeout
    then waited_once timeout timed_out 1
    else after_wait timeout rest

-- From `retry` on; `none` if the attempts are too few.
unfoldable pub io_rounds : ℕ → List Attempt → Option Done
unfolding io_round
io_rounds timeout [] = none
io_rounds timeout (a ∷ as') = let rest = io_rounds timeout as' in io_round timeout a a.call rest

-- The system call as it is.
first_call : List Attempt → Option Done
first_call [] = none
first_call (a ∷ as') = at_once (answered a.call)

io_found : Bool → Option FdCtx → List Attempt → Option Done
unfolding first_call io_rounds
io_found receives none as' = first_call as'
io_found receives (some c) as' =
    if c.is_closed
    then at_once bad_descriptor
    else if not c.is_socket || c.user_nonblock
    then first_call as'
    else io_rounds (get_timeout receives c) as'

-- `do_io`; `receives` is whether the timeout is SO_RCVTIMEO's.
unfoldable pub do_io : Bool → Bool → Option FdCtx → List Attempt → Option Done
unfolding io_found
do_io enabled receives ctx as' = if not enabled then first_call as' else io_found receives ctx as'

-- The answers in `connect_with_timeout`: of `connect`, and afterwards of `getsockopt`.
pub data ConnectAnswer : Type 0 where
  connected in_progress : ConnectAnswer
  refused : ℕ → ConnectAnswer

pub data Checked : Type 0 where
  unknown : Checked
  error_is : ℕ → Checked

pub record Connecting : Type 0 where
  pub call : ConnectAnswer
  pub added : Bool
  pub fired : Bool
  pub check : Checked

pub data ConnectResult : Type 0 where
  direct : ConnectAnswer → ConnectResult
  bad_socket expired not_checked : ConnectResult

check_result : Checked → ConnectResult
check_result unknown = not_checked
check_result (error_is e) = direct (if e == 0 then connected else refused e)

connect_answered : ℕ → Connecting → ConnectAnswer → ConnectResult
unfolding has_timer check_result
connect_answered timeout a connected = direct connected
connect_answered timeout a (refused e) = direct (refused e)
connect_answered timeout a in_progress =
    if a.added && (a.fired && has_timer timeout) then expired else check_result a.check

connect_found : ℕ → Option FdCtx → Connecting → ConnectResult
unfolding connect_answered
connect_found timeout none a = bad_socket
connect_found timeout (some c) a =
    if c.is_closed
    then bad_socket
    else if not c.is_socket || c.user_nonblock
    then direct a.call
    else connect_answered timeout a a.call

-- `connect_with_timeout`, and `connect`, whose timeout is all ones.
unfoldable pub connect_with_timeout : Bool → ℕ → Option FdCtx → Connecting → ConnectResult
unfolding connect_found
connect_with_timeout enabled timeout ctx a =
    if not enabled then direct a.call else connect_found timeout ctx a

unfoldable pub connect : Bool → Option FdCtx → Connecting → ConnectResult
unfolding connect_with_timeout
connect enabled ctx a = connect_with_timeout enabled size_max ctx a

-- How long a hooked sleep's timer is, in milliseconds: `seconds * 1000` is an `unsigned int`, and
-- `nanosleep`'s sum becomes an `int` and then the timer's `uint64_t`.
unfoldable pub sleep_timer : ℕ → ℕ
sleep_timer seconds = seconds * 1_000 % 2 ^ 32

unfoldable pub usleep_timer : ℕ → ℕ
usleep_timer usec = usec / 1_000

unfoldable pub nanosleep_timer : ℕ → ℕ → ℕ
nanosleep_timer seconds nanoseconds =
    let ms = (seconds * 1_000 + nanoseconds / 1_000 / 1_000) % 2 ^ 32 in
    if ltb ms (2 ^ 31) then ms else ms + 2 ^ 64 - 2 ^ 32
