-- ===== src/Hook.antt =====
-- include/coroutine/hook.h, src/hook.cpp: blocking calls that let other coroutines run. The answers
-- of the system calls, of `EventLoop::add` and of `Coroutine::wait` are arguments, one for each turn
-- of a loop; a coroutine waits in the middle of a turn and the turn ends when it is resumed.
pub mod Waiting
pub mod Sleeping
use coroutine_library.Prelude.{
  ℕ, zero, suc, ◌+◌, ◌*◌, ◌/◌, ◌%◌, Bool, true, false, Option, none, some, if◌then◌else◌, List, [],
  ◌∷◌, ltb, ◌==◌, not, ◌&&◌, ◌||◌,
}
use coroutine_library.Events.{EventResult, accepted}

-- What a call finds on its thread: the hook's switch, and whether there are a running coroutine, an
-- event loop and an owner.
pub record Surroundings : Type 0 where
  pub enabled : Bool
  pub in_coroutine : Bool
  pub has_loop : Bool
  pub has_owner : Bool

-- A system call's answer, with `errno` where it is below 0.
pub data CallResult : Type 0 where
  succeeded : ℕ → CallResult
  interrupted would_block failed : CallResult

-- One turn of the loop of `io_wait`.
pub record Turn : Type 0 where
  pub call : CallResult
  pub registration : EventResult
  pub waited : Bool

-- The result and how often the call has waited; `none` if the turns were not enough.
abbrev pub Waited : Type 0 → Type 0
Waited R = Option (R × ℕ)

abbrev pub is_accepted : EventResult → Bool
is_accepted accepted = true
is_accepted _ = false

-- `user_nonblocking`: `none` where `fcntl` fails.
abbrev pub user_nonblocking : Option Bool → Bool
user_nonblocking none = false
user_nonblocking (some nonblocking) = nonblocking

unfoldable pub count_wait : {R : Type 0} → Waited R → Waited R
count_wait none = none
count_wait (some (r, n)) = some (r, suc n)

unfoldable pub io_turn :
    Surroundings → Bool → Turn → CallResult → Waited CallResult → Waited CallResult
unfolding count_wait
io_turn e originally t (succeeded n) rest = some (succeeded n, 0)
io_turn e originally t interrupted rest = rest
io_turn e originally t failed rest = some (failed, 0)
io_turn e originally t would_block rest =
    if originally || (not e.enabled || not e.in_coroutine)
    then some (would_block, 0)
    else if not e.has_loop || not e.has_owner
    then some (would_block, 0)
    else if not (is_accepted t.registration)
    then some (would_block, 0)
    else if not t.waited
    then some (would_block, 0)
    else count_wait rest

unfoldable pub io_loop : Surroundings → Bool → List Turn → Waited CallResult
unfolding io_turn
io_loop e originally [] = none
io_loop e originally (t ∷ ts) =
    let rest = io_loop e originally ts in io_turn e originally t t.call rest

-- The flags of the descriptor afterwards: `fcntl` sets what it could read.
unfoldable pub set_nonblocking : Option Bool → Option Bool
set_nonblocking none = none
set_nonblocking (some nonblocking) = some true

-- `flags` is whether the descriptor has O_NONBLOCK. The second component is that afterwards.
unfoldable pub io_wait : Surroundings → Option Bool → List Turn → Waited CallResult × Option Bool
unfolding io_loop set_nonblocking
io_wait e flags ts = (io_loop e (user_nonblocking flags) ts, set_nonblocking flags)

-- `in_progress` is EINPROGRESS, EALREADY or EAGAIN.
pub data ConnectResult : Type 0 where
  connected in_progress not_connected : ConnectResult

-- `SO_ERROR` after the wait: no error, EINPROGRESS, or another one; or `getsockopt` fails.
pub data SocketError : Type 0 where
  no_error still_in_progress other_error not_known : SocketError

pub record ConnectTurn : Type 0 where
  pub call : ConnectResult
  pub registration : EventResult
  pub waited : Bool
  pub error : SocketError

unfoldable pub after_connect : SocketError → Waited ConnectResult → Waited ConnectResult
unfolding count_wait
after_connect no_error rest = some (connected, 1)
after_connect still_in_progress rest = count_wait rest
after_connect other_error rest = some (not_connected, 1)
after_connect not_known rest = some (not_connected, 1)

unfoldable pub connect_turn :
    Surroundings → Bool → ConnectTurn → ConnectResult → Waited ConnectResult → Waited ConnectResult
unfolding after_connect
connect_turn e originally t connected rest = some (connected, 0)
connect_turn e originally t not_connected rest = some (not_connected, 0)
connect_turn e originally t in_progress rest =
    if originally || (not e.enabled || not e.in_coroutine)
    then some (in_progress, 0)
    else if not e.has_loop || not e.has_owner
    then some (in_progress, 0)
    else if not (is_accepted t.registration)
    then some (in_progress, 0)
    else if not t.waited
    then some (in_progress, 0)
    else after_connect t.error rest

unfoldable pub connect_loop : Surroundings → Bool → List ConnectTurn → Waited ConnectResult
unfolding connect_turn
connect_loop e originally [] = none
connect_loop e originally (t ∷ ts) =
    let rest = connect_loop e originally ts in connect_turn e originally t t.call rest

unfoldable pub connect_wait :
    Surroundings → Option Bool → List ConnectTurn → Waited ConnectResult × Option Bool
unfolding connect_loop set_nonblocking
connect_wait e flags ts = (connect_loop e (user_nonblocking flags) ts, set_nonblocking flags)

-- How a sleep is spent: by a timer of so many milliseconds, which resumes the coroutine; by
-- `nanosleep` of seconds and nanoseconds; or by `sleep` or `usleep`.
pub data Sleep : Type 0 where
  by_timer : ℕ → Sleep
  by_nanosleep : ℕ → ℕ → Sleep
  by_sleep by_usleep : ℕ → Sleep

-- The sleeps that are made: one whose wait fails is followed by the blocking one.
unfoldable pub sleep_nanoseconds : Surroundings → Bool → ℕ → List Sleep
sleep_nanoseconds e waited nanoseconds =
    let blocking = by_nanosleep (nanoseconds / 1_000_000_000) (nanoseconds % 1_000_000_000) ∷ [] in
    if e.enabled && (e.in_coroutine && (e.has_loop && e.has_owner))
    then (let timer = by_timer ((nanoseconds + 1_000_000) / 1_000_000) in
        if waited then timer ∷ [] else timer ∷ blocking)
    else blocking

unfoldable pub sleep_seconds : Surroundings → Bool → ℕ → List Sleep
unfolding sleep_nanoseconds
sleep_seconds e waited seconds =
    if ltb 0 seconds && (e.enabled && e.in_coroutine)
    then sleep_nanoseconds e waited (seconds * 1_000_000_000)
    else by_sleep seconds ∷ []

unfoldable pub sleep_microseconds : Surroundings → Bool → ℕ → List Sleep
unfolding sleep_nanoseconds
sleep_microseconds e waited useconds =
    if e.enabled && e.in_coroutine
    then sleep_nanoseconds e waited (useconds * 1_000)
    else by_usleep useconds ∷ []
