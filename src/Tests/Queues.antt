-- ===== src/Tests/Queues.antt =====
-- Deques, ingress queues and timers on concrete inputs.
use coroutine_library.Prelude.{
  ℕ, ◌+◌, ◌<◌, ◌≡◌, refl, false, none, some, List, [], ◌∷◌, ◌++◌, arith,
}
use coroutine_library.Prelude.Int.{pos, negsuc}
use coroutine_library.Prelude.Words.{size_mod}
use coroutine_library.Deque.{Call, pushes, pops, steals, empty_deque, run}
use coroutine_library.Deque.Sequential.{Holds}
use coroutine_library.Deque.Runs.{pushes_in, spec_run, run-bounded_list}
use coroutine_library.Ingress.{empty_ingress, push_with, close, drain}
use coroutine_library.Ingress.Order.{run-fifo, push_with-close}
use coroutine_library.Ingress.Order
use coroutine_library.TimerQueue.{empty_timers}
use coroutine_library.TimerQueue
use coroutine_library.TimerQueue.Contract.{adds_in, run-pending}
use coroutine_library.TimerQueue.Contract
use mathlib.Core.List.{reverse}

abbrev two_thieves : List (Call ℕ)
two_thieves = pushes 1 ∷ pushes 2 ∷ pushes 3 ∷ steals ∷ pops ∷ steals ∷ pops ∷ []

two_thieves-pushes : pushes_in two_thieves < size_mod
two_thieves-pushes = omega arith

run-bounded_list_example :
    ((run two_thieves empty_deque).0 ≡ (spec_run two_thieves []).0)
    × Holds (run two_thieves empty_deque).1 (spec_run two_thieves []).1
run-bounded_list_example = run-bounded_list two_thieves two_thieves-pushes

abbrev a_round : List (Order.Call ℕ)
a_round =
    Order.pushes 1
    ∷ Order.pushes 2
    ∷ Order.drains
    ∷ Order.pushes 3
    ∷ Order.closes
    ∷ Order.pushes 4
    ∷ []

run-fifo_example :
    (Order.run a_round Order.initial).delivered
      ++ reverse (Order.run a_round Order.initial).queue.head
    ≡ (Order.run a_round Order.initial).accepted
run-fifo_example = run-fifo a_round

push_with-close_example :
    ((push_with {A = ℕ} close (some 7) empty_ingress).0 ≡ false)
    × ((drain (push_with {A = ℕ} close (some 7) empty_ingress).1).0
        ≡ (drain {A = ℕ} empty_ingress).0 ++ 7 ∷ [])
push_with-close_example = push_with-close 7 empty_ingress (unfold empty_ingress in refl)

abbrev three_timers : List (TimerQueue.Call ℕ)
three_timers =
    TimerQueue.adds 0 (pos 5) (some 1)
    ∷ TimerQueue.adds 0 (negsuc 2) (some 2)
    ∷ TimerQueue.adds 0 (pos 1) none
    ∷ TimerQueue.cancels 1
    ∷ TimerQueue.asks 0
    ∷ TimerQueue.expires 9_000_000
    ∷ []

three_timers-adds : adds_in three_timers + 1 < size_mod
three_timers-adds = omega arith

run-pending_example :
    (TimerQueue.run three_timers empty_timers).0
    ≡ Contract.spec_run three_timers (record { timers = []; next = 1 })
run-pending_example = run-pending three_timers three_timers-adds
