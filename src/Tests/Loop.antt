-- ===== src/Tests/Loop.antt =====
-- The event loop and the descriptor registry on concrete inputs.
use coroutine_library.Prelude.{ℕ, ◌≡◌, true, false, some, List, [], ◌∷◌}
use coroutine_library.Prelude.Int.{pos}
use coroutine_library.Prelude.Maps.{empty_map, nat_eq, int_key}
use coroutine_library.Events.{read, write, explicit_cancel}
use coroutine_library.FdRegistry.{Call, registers, completes, cancels, closes, asks, fresh, run}
use coroutine_library.FdRegistry.Lifecycle.{spec_run, run-table}
use coroutine_library.EventLoop.{added, exists, new_loop, no_slots}
use coroutine_library.EventLoop.Registrations
use coroutine_library.EventLoop.Registrations.{run-slots}

abbrev a_session : List Call
a_session =
    registers (pos 4) read
    ∷ registers (pos 4) write
    ∷ completes (pos 4) read
    ∷ cancels (pos 4) write explicit_cancel
    ∷ asks (pos 4)
    ∷ closes (pos 4)
    ∷ asks (pos 4)
    ∷ registers (pos 4) read
    ∷ []

run-table_example : (run a_session empty_map).0 ≡ spec_run a_session (λ _. fresh)
run-table_example = run-table a_session

abbrev a_connection : List (Registrations.Call ℕ)
a_connection =
    Registrations.adds (pos 5) read (some 1) added false
    ∷ Registrations.adds (pos 5) write (some 2) exists true
    ∷ Registrations.readies (record { fd = pos 5; in_or_error = true; out_or_error = false })
    ∷ Registrations.cancels (pos 5) write explicit_cancel
    ∷ []

run-slots_example :
    Registrations.run a_connection (new_loop 0 true (pos 3))
    ≡ Registrations.spec_run true a_connection (λ _. no_slots)
run-slots_example = run-slots 0 true (pos 3) a_connection
