-- ===== src/Hook/Sleeping.antt =====
-- src/hook.cpp: how long the sleeps last.
use coroutine_library.Prelude.{
  ℕ, ◌+◌, ◌*◌, ◌/◌, ◌%◌, ◌≤◌, Bool, ◌&&◌, All, arith, Bool-cases, inl, inr,
}
use coroutine_library.Hook.{
  Surroundings, Sleep, by_timer, by_nanosleep, by_sleep, by_usleep, sleep_nanoseconds,
}

-- The length of a sleep in nanoseconds.
abbrev pub lasts : Sleep → ℕ
lasts (by_timer ms) = ms * 1_000_000
lasts (by_nanosleep s ns) = s * 1_000_000_000 + ns
lasts (by_sleep s) = s * 1_000_000_000
lasts (by_usleep us) = us * 1_000

-- Every sleep that is made for a request lasts as long as the request or longer, and none more than
-- a millisecond longer.
pub sleep_nanoseconds-lasts :
    (e : Surroundings) (waited : Bool) (nanoseconds : ℕ)
    → All
        (λ s. (nanoseconds ≤ lasts s) × (lasts s ≤ nanoseconds + 1_000_000))
        (sleep_nanoseconds e waited nanoseconds)
unfolding sleep_nanoseconds
sleep_nanoseconds-lasts e waited nanoseconds =
    elim (Bool-cases (e.enabled && (e.in_coroutine && (e.has_loop && e.has_owner)))) [
      | inr b ↦ rw b (blocking, tt)
      | inl b ↦ elim (Bool-cases waited) [
        | inl w ↦ rw (b, w) (timer, tt)
        | inr w ↦ rw (b, w) (timer, (blocking, tt))
      ]
    ]
  where
    timer :
        (nanoseconds ≤ (nanoseconds + 1_000_000) / 1_000_000 * 1_000_000)
        × ((nanoseconds + 1_000_000) / 1_000_000 * 1_000_000 ≤ nanoseconds + 1_000_000)
    timer = (omega arith, omega arith)

    blocking :
        (nanoseconds ≤ nanoseconds / 1_000_000_000 * 1_000_000_000 + nanoseconds % 1_000_000_000)
        × (nanoseconds / 1_000_000_000 * 1_000_000_000 + nanoseconds % 1_000_000_000
            ≤ nanoseconds + 1_000_000)
    blocking = (omega arith, omega arith)
