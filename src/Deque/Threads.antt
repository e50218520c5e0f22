-- ===== src/Deque/Threads.antt =====
-- src/work_stealing_deque.cpp, with the owner and any number of thieves at work at once: a step is
-- one access to `top_`, `bottom_` or a slot that another thread can see or disturb. Only the owner
-- writes `bottom_` and the slots, so its own loads of them go with the access that follows. Steps
-- take effect in one order, as if every access were sequentially consistent.
pub mod Race
pub mod Knowledge
pub mod OwnerSteps
pub mod OwnerPops
pub mod ThiefSteps
pub mod Linear
use coroutine_library.Prelude.{
  ℕ, ◌+◌, ◌-◌, ◌%◌, Bool, true, false, Option, none, some, if◌then◌else◌, List, [], ◌∷◌, ltb, leb,
  ◌==◌, not, ◌&&◌,
}
use coroutine_library.Prelude.Words.{add64, sub64}
use coroutine_library.Deque.{
  capacity, Deque, store, Call, pushes, pops, steals, Answer, stored, taken,
}

-- Where the owner is. `storing` and `publishing` are a push that has found room, before its write
-- of the slot and of `bottom_`; `popping` is a pop that has lowered `bottom_`; `racing` one that
-- has found a single task and is at its exchange of `top_`; `restoring` and `closing` are at the
-- last write of `bottom_`, `closing` with the task to be returned.
pub data Owner (A : Type 0) : Type 0 where
  resting : Owner A
  storing publishing : A → ℕ → Owner A
  popping restoring : ℕ → Owner A
  racing closing : Option A → ℕ → Owner A

-- Where a thief is: it has loaded `top_`; has found `bottom_` above it; has loaded the slot.
pub data Thief (A : Type 0) : Type 0 where
  away : Thief A
  looking reading : ℕ → Thief A
  claiming : Option A → ℕ → Thief A

-- A call that has been decided by this step, with its answer.
pub data Decision (A : Type 0) : Type 0 where
  quiet : Decision A
  did : Call A → Answer A → Decision A

pub record System (A : Type 0) : Type 0 where
  pub deque : Deque A
  pub owner : Owner A
  pub thieves : ℕ → Thief A

-- The owner begins a call, or goes on with it; a thief goes on, and begins anew when it is away.
pub data Act (A : Type 0) : Type 0 where
  begins_push : A → Act A
  begins_pop owner_goes : Act A
  thief_goes : ℕ → Act A

module _ {A : Type 0} where
  unfoldable pub begin_push : A → Deque A → Decision A × Owner A × Deque A
  begin_push x d =
      if leb capacity (sub64 d.bottom d.top)
      then (did (pushes x) (stored false), resting, d)
      else (quiet, storing x d.bottom, d)

  unfoldable pub begin_pop : Deque A → Decision A × Owner A × Deque A
  begin_pop d =
      if d.bottom == 0
      then (did pops (taken none), resting, d)
      else (quiet, popping (d.bottom - 1), record d { bottom = d.bottom - 1 })

  -- An exchange that fails loads the `top_` it has found, and `bottom_` becomes one more.
  unfoldable pub owner_step : Owner A → Deque A → Decision A × Owner A × Deque A
  owner_step resting d = (quiet, resting, d)
  owner_step (storing x b) d =
      (quiet, publishing x b, record d { slots = store d.slots (b % capacity) (some x) })
  owner_step (publishing x b) d =
      (did (pushes x) (stored true), resting, record d { bottom = add64 b 1 })
  owner_step (popping b) d =
      if ltb b d.top
      then (did pops (taken none), restoring d.top, d)
      else if d.top == b
      then (quiet, racing (d.slots (b % capacity)) b, d)
      else (did pops (taken (d.slots (b % capacity))), resting, d)
  owner_step (restoring t) d = (quiet, resting, record d { bottom = t })
  owner_step (racing x t) d =
      if d.top == t
      then (did pops (taken x), closing x (add64 t 1), record d { top = add64 t 1 })
      else (did pops (taken none), closing none (add64 d.top 1), d)
  owner_step (closing x b) d = (quiet, resting, record d { bottom = b })

  unfoldable pub thief_step : Thief A → Deque A → Decision A × Thief A × Deque A
  thief_step away d = (quiet, looking d.top, d)
  thief_step (looking t) d = if leb d.bottom t then (quiet, away, d) else (quiet, reading t, d)
  thief_step (reading t) d = (quiet, claiming (d.slots (t % capacity)) t, d)
  thief_step (claiming x t) d =
      if d.top == t
      then (did steals (taken x), away, record d { top = add64 t 1 })
      else (quiet, away, d)

  unfoldable pub owner_acts : System A → Decision A × Owner A × Deque A → Decision A × System A
  owner_acts s (e, o, d) = (e, record s { owner = o; deque = d })

  unfoldable pub thief_acts : ℕ → System A → Decision A × Thief A × Deque A → Decision A × System A
  thief_acts k s (e, t, d) =
      (e, record s { thieves = λ j. if k == j then t else s.thieves j; deque = d })

  unfoldable pub is_resting : Owner A → Bool
  is_resting resting = true
  is_resting o = false

  unfoldable pub act : Act A → System A → Decision A × System A
  unfolding owner_acts thief_acts is_resting
  act (begins_push x) s =
      if is_resting s.owner then owner_acts s (begin_push x s.deque) else (quiet, s)
  act begins_pop s = if is_resting s.owner then owner_acts s (begin_pop s.deque) else (quiet, s)
  act owner_goes s = owner_acts s (owner_step s.owner s.deque)
  act (thief_goes k) s = thief_acts k s (thief_step (s.thieves k) s.deque)

  -- The events of a history of steps, and where it ends.
  unfoldable pub acts : List (Act A) → System A → List (Decision A) × System A
  acts [] s = ([], s)
  acts (a ∷ as') s = let r = act a s in let rest = acts as' r.1 in (r.0 ∷ rest.0, rest.1)
