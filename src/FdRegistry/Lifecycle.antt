-- ===== src/FdRegistry/Lifecycle.antt =====
-- src/fd_registry.cpp: what holds of every history of calls of the registry.
use coroutine_library.Prelude.{
  ℕ, ◌≡◌, refl, sym, ◌∙◌, true, false, Option, none, some, ◌||◌, not, arith, if◌then◌else◌, List,
  [], ◌∷◌,
}
use coroutine_library.Prelude.Int.{ℤ, pos, is_negative, int_eq, int_eq_iff}
use coroutine_library.Prelude.Maps.{empty_map, int_key}
use coroutine_library.Events.{
  Event, read, write, accepted, duplicate, closed, invalid_fd, CancelReason, shutdown,
}
use coroutine_library.FdRegistry.{
  State, States, fresh, waiting, set_waiting, at, register_wait, cancel, complete, close, is_closed,
  Call, registers, completes, cancels, closes, asks, Answer, result, done, step, run,
}

-- An entry is kept only while it is closed or has a waiter, and never both.
abbrev pub IsTight : Option State → Type 0
IsTight none = Unit {0}
IsTight (some s) = s.is_shut ≡ not (s.reading || s.writing)

abbrev pub AllTight : States → Type 0
AllTight m = (fd : ℤ) → IsTight (m fd)

register-AllTight :
    (fd : ℤ) (ev : Event) (m : States) → AllTight m → AllTight (register_wait fd ev m).1
unfolding register_wait
register-AllTight fd read m t j = ground (arith, int_eq_iff fd j, t fd, t j)
register-AllTight fd write m t j = ground (arith, int_eq_iff fd j, t fd, t j)

cancel-AllTight :
    (fd : ℤ) (ev : Event) (reason : CancelReason) (m : States)
    → AllTight m
    → AllTight (cancel fd ev reason m).1
unfolding cancel
cancel-AllTight fd read reason m t j = ground (arith, int_eq_iff fd j, t fd, t j)
cancel-AllTight fd write reason m t j = ground (arith, int_eq_iff fd j, t fd, t j)

close-AllTight : (fd : ℤ) (m : States) → AllTight m → AllTight (close fd m).1
unfolding close
close-AllTight fd m t j = ground (arith, int_eq_iff fd j, t fd, t j)

step-AllTight : (c : Call) (m : States) → AllTight m → AllTight (step c m).1
unfolding step complete
step-AllTight (registers fd ev) m t = register-AllTight fd ev m t
step-AllTight (completes fd ev) m t = cancel-AllTight fd ev shutdown m t
step-AllTight (cancels fd ev reason) m t = cancel-AllTight fd ev reason m t
step-AllTight (closes fd) m t = close-AllTight fd m t
step-AllTight (asks fd) m t = t

-- Any calls keep this of a registry: each entry that is there is closed and has no waiter, or is
-- open and has one at least.
pub run-AllTight : (cs : List Call) (m : States) → AllTight m → AllTight (run cs m).1
unfolding run
run-AllTight [] m t = t
run-AllTight (c ∷ cs) m t = run-AllTight cs (step c m).1 (step-AllTight c m t)

-- The same registry with a total map, in which no entry is ever erased.
abbrev pub Table : Type 0
Table = ℤ → State

abbrev pub write_at : Table → ℤ → State → Table
write_at t fd s j = if int_eq fd j then s else t j

abbrev pub spec_end : ℤ → Event → Table → Answer × Table
spec_end fd ev t = (done (waiting ev (t fd)), write_at t fd (set_waiting ev false (t fd)))

abbrev pub spec_register : ℤ → Event → Table → Answer × Table
spec_register fd ev t =
    if is_negative fd
    then (result invalid_fd, t)
    else if (t fd).is_shut
    then (result closed, t)
    else if waiting ev (t fd)
    then (result duplicate, t)
    else (result accepted, write_at t fd (set_waiting ev true (t fd)))

abbrev pub spec_close : ℤ → Table → Answer × Table
spec_close fd t = (
  done (not (t fd).is_shut),
  write_at t fd (record { is_shut = true; reading = false; writing = false }),
)

pub spec_step : Call → Table → Answer × Table
spec_step (registers fd ev) t = spec_register fd ev t
spec_step (completes fd ev) t = spec_end fd ev t
spec_step (cancels fd ev reason) t = spec_end fd ev t
spec_step (closes fd) t = spec_close fd t
spec_step (asks fd) t = (done (t fd).is_shut, t)

pub spec_run : List Call → Table → List Answer
spec_run [] t = []
spec_run (c ∷ cs) t = let r = spec_step c t in r.0 ∷ spec_run cs r.1

-- The table holds what the registry holds, and nothing for a descriptor that it does not know.
record Shows (m : States) (t : Table) : Type 0 where
  tight : AllTight m
  same : (fd : ℤ) → t fd ≡ at m fd

spec-answer : (c : Call) (m : States) (t : Table) → Shows m t → (step c m).0 ≡ (spec_step c t).0
unfolding step spec_step register_wait complete close is_closed
spec-answer (registers fd read) m t s = ground (arith, s.same fd)
spec-answer (registers fd write) m t s = ground (arith, s.same fd)
spec-answer (completes fd read) m t s = ground (arith, s.same fd)
spec-answer (completes fd write) m t s = ground (arith, s.same fd)
spec-answer (cancels fd read reason) m t s = ground (arith, s.same fd)
spec-answer (cancels fd write reason) m t s = ground (arith, s.same fd)
spec-answer (closes fd) m t s = ground (arith, s.same fd)
spec-answer (asks fd) m t s = ground (arith, s.same fd)

spec-same :
    (c : Call) (m : States) (t : Table)
    → Shows m t
    → (j : ℤ) → (spec_step c t).1 j ≡ at (step c m).1 j
unfolding step spec_step register_wait complete close is_closed
spec-same (registers fd read) m t s j =
    ground (arith, int_eq_iff fd j, s.same fd, s.same j, s.tight fd)
spec-same (registers fd write) m t s j =
    ground (arith, int_eq_iff fd j, s.same fd, s.same j, s.tight fd)
spec-same (completes fd read) m t s j =
    ground (arith, int_eq_iff fd j, s.same fd, s.same j, s.tight fd)
spec-same (completes fd write) m t s j =
    ground (arith, int_eq_iff fd j, s.same fd, s.same j, s.tight fd)
spec-same (cancels fd read reason) m t s j =
    ground (arith, int_eq_iff fd j, s.same fd, s.same j, s.tight fd)
spec-same (cancels fd write reason) m t s j =
    ground (arith, int_eq_iff fd j, s.same fd, s.same j, s.tight fd)
spec-same (closes fd) m t s j = ground (arith, int_eq_iff fd j, s.same fd, s.same j, s.tight fd)
spec-same (asks fd) m t s j = s.same j

run-table-from :
    (cs : List Call) (m : States) (t : Table) → Shows m t → (run cs m).0 ≡ spec_run cs t
unfolding run spec_run
run-table-from [] m t s = refl
run-table-from (c ∷ cs) m t s =
    let rest =
      run-table-from cs (step c m).1 (spec_step c t).1
        (record { tight = step-AllTight c m s.tight; same = spec-same c m t s }) in
    rw (spec-answer c m t s, rest)

-- Every history of calls of the five methods, `is_closed` among them, from an empty registry gets the
-- answers of the table that never erases an entry: erasing the entries with no waiter cannot be
-- observed.
pub run-table : (cs : List Call) → (run cs empty_map).0 ≡ spec_run cs (λ _. fresh)
run-table cs =
    run-table-from cs empty_map (λ _. fresh) (record { tight = λ _. tt; same = λ _. refl })

step-is_closed :
    (fd : ℤ) (c : Call) (m : States)
    → AllTight m
    → is_closed fd m ≡ true
    → is_closed fd (step c m).1 ≡ true
unfolding step is_closed register_wait complete close
step-is_closed fd (registers j read) m t h = ground (arith, int_eq_iff j fd)
step-is_closed fd (registers j write) m t h = ground (arith, int_eq_iff j fd)
step-is_closed fd (completes j read) m t h = ground (arith, int_eq_iff j fd)
step-is_closed fd (completes j write) m t h = ground (arith, int_eq_iff j fd)
step-is_closed fd (cancels j read reason) m t h = ground (arith, int_eq_iff j fd)
step-is_closed fd (cancels j write reason) m t h = ground (arith, int_eq_iff j fd)
step-is_closed fd (closes j) m t h = ground (arith, int_eq_iff j fd)
step-is_closed fd (asks j) m t h = h

run-is_closed :
    (fd : ℤ) (cs : List Call) (m : States)
    → AllTight m
    → is_closed fd m ≡ true
    → is_closed fd (run cs m).1 ≡ true
unfolding run
run-is_closed fd [] m t h = h
run-is_closed fd (c ∷ cs) m t h =
    run-is_closed fd cs (step c m).1 (step-AllTight c m t) (step-is_closed fd c m t h)

is_closed-at : (fd : ℤ) (m : States) → is_closed fd m ≡ (at m fd).is_shut
unfolding is_closed
is_closed-at fd m = ground arith

close-is_closed : (fd : ℤ) (m : States) → is_closed fd (close fd m).1 ≡ true
unfolding close is_closed
close-is_closed fd m = ground (arith, int_eq_iff fd fd)

-- A descriptor that was closed stays closed: whatever calls follow, a registration on a
-- non-negative number is refused as `closed`, also when the kernel has given the number out again.
pub register_wait-run-closed :
    (n : ℕ) (ev : Event) (before after : List Call)
    → (register_wait (pos n) ev (run after (close (pos n) (run before empty_map).1).1).1).0 ≡ closed
unfolding register_wait
register_wait-run-closed n ev before after = ground (arith, stays)
  where
    shut : States
    shut = (close (pos n) (run before empty_map).1).1

    stays : (at (run after shut).1 (pos n)).is_shut ≡ true
    stays =
        sym (is_closed-at (pos n) (run after shut).1)
        ∙ run-is_closed (pos n) after shut
            (close-AllTight (pos n) _ (run-AllTight before empty_map (λ _. tt)))
            (close-is_closed (pos n) _)
