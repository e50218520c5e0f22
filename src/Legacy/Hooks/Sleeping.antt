-- ===== src/Legacy/Hooks/Sleeping.antt =====
-- fiber_lib/6hook/hook.cpp: how long the hooked sleeps last.
use coroutine_library.Prelude.{ℕ, ◌+◌, ◌*◌, ◌≤◌, ◌<◌, ◌≡◌, arith}
use coroutine_library.Legacy.Hooks.{sleep_timer, usleep_timer, nanosleep_timer}

-- The timers of the hooked sleeps, for fewer than 4294968 seconds with `sleep`, any time with
-- `usleep`, and fewer than 2147483 seconds with `nanosleep`: that of `sleep` is exact, and those of
-- the others are the time asked for, rounded down to a millisecond.
pub timers_bounds :
    (seconds usec s ns : ℕ)
    → seconds < 4_294_968
    → s < 2_147_483
    → ns < 1_000_000_000
    → (sleep_timer seconds ≡ seconds * 1_000)
      × (usleep_timer usec * 1_000 ≤ usec)
      × (usec < (usleep_timer usec + 1) * 1_000)
      × (nanosleep_timer s ns * 1_000_000 ≤ s * 1_000_000_000 + ns)
      × (s * 1_000_000_000 + ns < (nanosleep_timer s ns + 1) * 1_000_000)
unfolding sleep_timer usleep_timer nanosleep_timer
timers_bounds seconds usec s ns h k l =
    (ground arith, omega arith, omega arith, ground arith, ground arith)
