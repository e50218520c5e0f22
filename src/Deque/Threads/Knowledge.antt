-- ===== src/Deque/Threads/Knowledge.antt =====
-- src/work_stealing_deque.cpp: what the owner and the thieves know between their steps.
use coroutine_library.Prelude.{
  ℕ, ◌+◌, ◌%◌, ◌≤◌, ◌<◌, ◌≡◌, sym, ◌∙◌, subst, some, List, arith, length,
}
use coroutine_library.Deque.{capacity, Deque}
use coroutine_library.Deque.Window.{Window}
use coroutine_library.Deque.Runs.{spec_step}
use coroutine_library.Deque.Threads.{
  Owner, resting, storing, publishing, popping, restoring, racing, closing, Thief, away, looking,
  reading, claiming, Decision, quiet, did,
}

module _ {A : Type 0} where
  -- The end of the tasks that have not been given out yet.
  abbrev pub virtual_bottom : Owner A → ℕ → ℕ
  virtual_bottom (popping b) bottom = b + 1
  virtual_bottom (racing x b) bottom = b + 1
  virtual_bottom (restoring b) bottom = b
  virtual_bottom (closing x b) bottom = b
  virtual_bottom o bottom = bottom

  -- What the owner knows.
  abbrev pub OwnerOk : Owner A → Deque A → ℕ → Type 0
  OwnerOk resting d n = Unit
  OwnerOk (storing x b) d n = (b ≡ d.bottom) × (n < capacity)
  OwnerOk (publishing x b) d n = (b ≡ d.bottom) × (n < capacity) × (d.slots (b % capacity) ≡ some x)
  OwnerOk (popping b) d n = d.bottom ≡ b
  OwnerOk (racing x b) d n = (d.bottom ≡ b) × (b ≤ d.top) × (x ≡ d.slots (b % capacity))
  OwnerOk (restoring b) d n = (n ≡ 0) × (d.bottom ≤ d.top)
  OwnerOk (closing x b) d n = (n ≡ 0) × (d.bottom ≤ d.top)

  -- What a thief knows, as long as `top_` is the one that it has loaded.
  abbrev pub ThiefOk : Thief A → Deque A → ℕ → Type 0
  ThiefOk away d n = Unit
  ThiefOk (looking t) d n = t ≤ d.top
  ThiefOk (reading t) d n = (t ≤ d.top) × (d.top ≡ t → 0 < n)
  ThiefOk (claiming x t) d n = (t ≤ d.top) × (d.top ≡ t → (0 < n) × (x ≡ d.slots (t % capacity)))

  pub record Ok (o : Owner A) (d : Deque A) (xs : List A) : Type 0 where
    pub window : Window d.slots d.top xs
    pub fits : length xs ≤ capacity
    pub back : virtual_bottom o d.bottom ≡ d.top + length xs
    pub owner : OwnerOk o d (length xs)

  -- What a step of one thread must leave to a thief.
  abbrev pub Kept : Deque A → ℕ → Deque A → ℕ → Type 0
  Kept d n d' n' = (t : Thief A) → ThiefOk t d n → ThiefOk t d' n'

  -- The call that an event decides, on the list.
  abbrev pub Decides : Decision A → List A → List A → Type 0
  Decides quiet xs ys = ys ≡ xs
  Decides (did c a) xs ys = spec_step c xs ≡ (a, ys)

  -- The highest value of `bottom_` that the calls begun so far lead to.
  abbrev pub reach : Owner A → ℕ → ℕ
  reach (storing x b) bottom = bottom + 1
  reach (publishing x b) bottom = bottom + 1
  reach o bottom = virtual_bottom o bottom

  pub record Follows (more : ℕ) (o : Owner A) (d : Deque A) (xs : List A)
      (r : Decision A × Owner A × Deque A) : Type 0 where
    pub after : List A
    pub decided : Decides r.0 xs after
    pub ok : Ok r.1 r.2 after
    pub kept : Kept d (length xs) r.2 (length after)
    pub far : reach r.1 r.2.bottom ≤ reach o d.bottom + more

  pub Kept-same :
      (d d' : Deque A) (n n' : ℕ)
      → d'.top ≡ d.top
      → (0 < n → 0 < n')
      → (0 < n → d'.slots (d.top % capacity) ≡ d.slots (d.top % capacity))
      → Kept d n d' n'
  Kept-same d d' n n' e m f away k = tt
  Kept-same d d' n n' e m f (looking t) k = omega arith
  Kept-same d d' n n' e m f (reading t) k = (omega (arith, k.0), λ q. m (k.1 (sym e ∙ q)))
  Kept-same d d' n n' e m f (claiming x t) k = (
    omega (arith, k.0),
    λ q.
        let p : d.top ≡ t = sym e ∙ q in
        let (some_left, same) = k.1 p in
        (
          m some_left,
          same
              ∙ subst (λ i. d.slots (i % capacity) ≡ d'.slots (i % capacity)) p (sym (f some_left)),
        ),
  )

  pub Kept-later : (d d' : Deque A) (n n' : ℕ) → d.top < d'.top → Kept d n d' n'
  Kept-later d d' n n' l away k = tt
  Kept-later d d' n n' l (looking t) k = omega arith
  Kept-later d d' n n' l (reading t) k = (omega (arith, k.0), λ q. absurd (omega (arith, k.0)))
  Kept-later d d' n n' l (claiming x t) k = (omega (arith, k.0), λ q. absurd (omega (arith, k.0)))

  pub Kept-refl : (d : Deque A) (n : ℕ) → Kept d n d n
  Kept-refl d n t h = h
