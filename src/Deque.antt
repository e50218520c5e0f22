-- ===== src/Deque.antt =====
-- include/coroutine/work_stealing_deque.h, src/work_stealing_deque.cpp: `WorkStealingDeque`, each
-- method as one step. A task is a value of `A`, a null pointer is `none`; the indices wrap at 2 ^ 64.
pub mod Window
pub mod Sequential
pub mod Runs
pub mod Threads
use coroutine_library.Prelude.{
  ℕ, zero, suc, ◌+◌, ◌-◌, ◌%◌, ◌≡◌, refl, Bool, true, false, Option, none, some, arith,
  if◌then◌else◌, List, [], ◌∷◌, ltb, leb, ◌==◌,
}
use coroutine_library.Prelude.Words.{add64, sub64}

abbrev pub capacity : ℕ
capacity = 65536

pub record Deque {ℓ} (A : Type ℓ) : Type ℓ where
  pub slots : ℕ → Option A
  pub top : ℕ
  pub bottom : ℕ

module _ {ℓ} {A : Type ℓ} where
  unfoldable pub empty_deque : Deque A
  empty_deque = record { slots = λ _. none; top = 0; bottom = 0 }

  -- `slots_[index].store(task)`.
  abbrev pub store : (ℕ → Option A) → ℕ → Option A → ℕ → Option A
  store slots i v j = if i == j then v else slots j

  unfoldable pub push : Option A → Deque A → Bool × Deque A
  push none d = (false, d)
  push (some task) d = if leb capacity (sub64 d.bottom d.top) then (false, d) else (
    true,
    record d { slots = store d.slots (d.bottom % capacity) (some task); bottom = add64 d.bottom 1 },
  )

  -- With no other thread between the load and the exchange of `top_`, the exchange succeeds.
  pop_at : Deque A → ℕ → Option A × Deque A
  pop_at d bottom =
      if ltb bottom d.top
      then (none, record d { bottom = d.top })
      else if d.top == bottom
      then (d.slots (bottom % capacity), record d { top = add64 d.top 1; bottom = add64 d.top 1 })
      else (d.slots (bottom % capacity), record d { bottom = bottom })

  unfoldable pub pop : Deque A → Option A × Deque A
  unfolding pop_at
  pop d = if d.bottom == 0 then (none, d) else pop_at d (d.bottom - 1)

  unfoldable pub steal : Deque A → Option A × Deque A
  steal d =
      if leb d.bottom d.top
      then (none, d)
      else (d.slots (d.top % capacity), record d { top = add64 d.top 1 })

  unfoldable pub approximate_size : Deque A → ℕ
  approximate_size d = if ltb d.top d.bottom then d.bottom - d.top else 0

-- One call of a method, by the owner or by a thief.
pub data Call {ℓ} (A : Type ℓ) : Type ℓ where
  pushes : A → Call A
  pops steals : Call A

pub data Answer {ℓ} (A : Type ℓ) : Type ℓ where
  stored : Bool → Answer A
  taken : Option A → Answer A

module _ {ℓ} {A : Type ℓ} where
  unfoldable pub step : Call A → Deque A → Answer A × Deque A
  step (pushes a) d = let r = push (some a) d in (stored r.0, r.1)
  step pops d = let r = pop d in (taken r.0, r.1)
  step steals d = let r = steal d in (taken r.0, r.1)

  unfoldable pub run : List (Call A) → Deque A → List (Answer A) × Deque A
  run [] d = ([], d)
  run (c ∷ cs) d = let r = step c d in let rest = run cs r.1 in (r.0 ∷ rest.0, rest.1)
