-- ===== src/Legacy/Options/Timeouts.antt =====
-- fiber_lib/6hook/hook.cpp: a timeout that `setsockopt` sets, and a call that runs into it.
use coroutine_library.Prelude.{
  ℕ, ◌+◌, ◌*◌, ◌/◌, ◌<◌, ◌≡◌, ap, ◌∙◌, true, false, some, List, [], ◌∷◌, get_elem?-set_self,
  lt-get_elem?, set, arith,
}
use coroutine_library.Prelude.Int.{pos}
use coroutine_library.Prelude.Words.{size_max}
use coroutine_library.Legacy.Descriptors.{FdCtx, FdManager, set_timeout, get_timeout}
use coroutine_library.Legacy.Hooks.{Attempt, would_block, timed_out, do_io}
use coroutine_library.Legacy.Options.{find_ctx, setsockopt, setsockopt_found, write_ctx}
use coroutine_library.Legacy.Options.Flags.{find_ctx-get_elem?, find_ctx-some}

expired :
    (timeout : ℕ) (c : FdCtx) (a : Attempt) (rest : List Attempt)
    → c.is_closed ≡ false
    → c.is_socket ≡ true
    → c.user_nonblock ≡ false
    → timeout < size_max
    → a.call ≡ would_block
    → a.added ≡ true
    → a.fired ≡ true
    → do_io true true (some (set_timeout true timeout c)) (a ∷ rest)
      ≡ some (record { result = timed_out; timers = timeout ∷ []; waits = 1 })
unfolding do_io set_timeout get_timeout
expired timeout c a rest still_open socket blocking fits block added fired = ground arith

-- After a hooked `setsockopt(SO_RCVTIMEO)` of any time below 2 ^ 64 - 1 milliseconds, zero included,
-- on a blocking socket that has a context: a receiving call that would block, for which the fiber
-- waits and the timer fires first, answers ETIMEDOUT. Its one timer is that time, rounded down to a
-- millisecond.
pub setsockopt-do_io :
    (n s us : ℕ) (m : FdManager) (c : FdCtx) (a : Attempt) (rest : List Attempt)
    → find_ctx (pos n) m ≡ some c
    → c.is_closed ≡ false
    → c.is_socket ≡ true
    → c.user_nonblock ≡ false
    → s * 1_000 + us / 1_000 < size_max
    → a.call ≡ would_block
    → a.added ≡ true
    → a.fired ≡ true
    → do_io true true (find_ctx (pos n) (setsockopt true true (pos n) true s us m)) (a ∷ rest)
      ≡ some (record { result = timed_out; timers = (s * 1_000 + us / 1_000) ∷ []; waits = 1 })
unfolding setsockopt write_ctx
setsockopt-do_io n s us m c a rest h still_open socket blocking fits block added fired =
    let c' : FdCtx = set_timeout true (s * 1_000 + us / 1_000) c in
    let at = find_ctx-get_elem? n m c h in
    let there = get_elem?-set_self m n (some c') (lt-get_elem? m n (some c) at) in
    let found : find_ctx (pos n) (setsockopt_found (pos n) true s us m (find_ctx (pos n) m))
        ≡ some c' =
      ap (λ o. find_ctx (pos n) (setsockopt_found (pos n) true s us m o)) h
      ∙ find_ctx-some n (set m n (some c')) c' there in
    ap (λ o. do_io true true o (a ∷ rest)) found
    ∙ expired (s * 1_000 + us / 1_000) c a rest still_open socket blocking fits block added fired
