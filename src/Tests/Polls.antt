-- ===== src/Tests/Polls.antt =====
-- `poll_wait` on a concrete input: two descriptors, of which one becomes ready.
use coroutine_library.Prelude.{ℕ, ◌≡◌, refl, true, false, List, [], ◌∷◌, All}
use coroutine_library.Prelude.Int.{pos}
use coroutine_library.EventLoop.{EventLoop, added, claim, new_loop}
use coroutine_library.Poll.{PollFd, CtlAnswers, finished, poll_wait, poll_rest, arm, register_all}
use coroutine_library.Poll.Release.{free, poll_wait-free}
use coroutine_library.Tests.Hooks.{hooked}

abbrev sockets : List PollFd
sockets =
    record { fd = pos 4; wants_read = true; wants_write = false }
    ∷ record { fd = pos 5; wants_read = true; wants_write = true }
    ∷ []

abbrev ctl : CtlAnswers
ctl fd ev = (added, false)

abbrev fresh_loop : EventLoop ℕ
fresh_loop = new_loop 0 true (pos 3)

abbrev first_ready : EventLoop ℕ → EventLoop ℕ
first_ready l = (claim (record { fd = pos 4; in_or_error = true; out_or_error = false }) l).1

poll_wait-finished :
    (poll_wait hooked 0 ctl 9 first_ready true (pos 0) (pos 1) sockets (pos 50) fresh_loop).0
    ≡ finished (pos 1)
unfolding poll_wait poll_rest arm register_all
poll_wait-finished = refl

poll_wait-free_example :
    All
      (λ p.
        free p
          (poll_wait hooked 0 ctl 9 first_ready true (pos 0) (pos 1) sockets (pos 50) fresh_loop).1
        ≡ true)
      sockets
poll_wait-free_example =
    poll_wait-free hooked 0 ctl 9 first_ready true (pos 0) (pos 1) (pos 1) sockets (pos 50)
      fresh_loop poll_wait-finished
