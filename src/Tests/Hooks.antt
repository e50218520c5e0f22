-- ===== src/Tests/Hooks.antt =====
-- The blocking calls on concrete inputs.
use coroutine_library.Prelude.{◌≡◌, refl, true, false, some, [], ◌∷◌, ◌++◌, length}
use coroutine_library.Prelude.{some}
use coroutine_library.Events.{accepted}
use coroutine_library.Hook.{Surroundings, Turn, succeeded, would_block, io_wait}
use coroutine_library.Hook.Waiting.{CanWait, Blocks, io_wait-ready}

abbrev pub hooked : Surroundings
hooked = record { enabled = true; in_coroutine = true; has_loop = true; has_owner = true }

hooked-CanWait : CanWait hooked
hooked-CanWait = record { enabled = refl; in_coroutine = refl; has_loop = refl; has_owner = refl }

abbrev not_ready : Turn
not_ready = record { call = would_block; registration = accepted; waited = true }

abbrev arrived : Turn
arrived = record { call = succeeded 12; registration = accepted; waited = true }

not_ready-Blocks : Blocks not_ready
not_ready-Blocks = record { call = refl; registration = refl; waited = refl }

io_wait-ready_example :
    (io_wait hooked (some false) ((not_ready ∷ not_ready ∷ []) ++ arrived ∷ [])).0
    ≡ some (succeeded 12, length (not_ready ∷ not_ready ∷ []))
io_wait-ready_example =
    io_wait-ready hooked (not_ready ∷ not_ready ∷ []) [] arrived 12 hooked-CanWait
      (not_ready-Blocks, (not_ready-Blocks, tt)) refl
