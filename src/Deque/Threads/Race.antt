-- ===== src/Deque/Threads/Race.antt =====
-- src/work_stealing_deque.cpp: a thief takes the last task while the owner pops it.
use coroutine_library.Prelude.{
  ℕ, ◌+◌, ◌-◌, ◌%◌, ◌<◌, ◌≡◌, refl, true, false, Option, none, some, List, [], ◌∷◌, ltb, leb, ◌==◌,
  arith,
}
use coroutine_library.Prelude.Words.{add64, size_mod}
use coroutine_library.Deque.{capacity, pops, steals, taken, pop, approximate_size}
use coroutine_library.Deque.Threads.{
  resting, away, quiet, did, System, Act, begins_pop, owner_goes, thief_goes, begin_pop, owner_step,
  thief_step, act, acts,
}

module _ {A : Type 0} where
  -- The thief loads `top_` and `bottom_`, the owner lowers `bottom_` and loads `top_`, the thief
  -- loads the slot and makes its exchange, and the owner fails at its own and writes `bottom_`.
  abbrev pub lost_race : List (Act A)
  lost_race =
      thief_goes 0
      ∷ thief_goes 0
      ∷ begins_pop
      ∷ owner_goes
      ∷ thief_goes 0
      ∷ thief_goes 0
      ∷ owner_goes
      ∷ owner_goes
      ∷ []

  abbrev pub one_task : (ℕ → Option A) → ℕ → System A
  one_task slots t = record {
    deque = record { slots = slots; top = t; bottom = t + 1 };
    owner = resting;
    thieves = λ k. away;
  }

  -- A deque with one task, and a thief that takes it after the owner has loaded `top_`: the thief
  -- gets the task and the owner none, but the deque that they leave counts one task more, and the
  -- next pop answers what stands in the slot behind the task's, as if it had been pushed. No index
  -- wraps.
  pub lost_race-pop :
      (slots : ℕ → Option A) (t : ℕ) (x : A)
      → slots (t % capacity) ≡ some x
      → t + 2 < size_mod
      → (let r = acts lost_race (one_task slots t) in
          (r.0
            ≡ quiet
              ∷ quiet
              ∷ quiet
              ∷ quiet
              ∷ quiet
              ∷ did steals (taken (some x))
              ∷ did pops (taken none)
              ∷ quiet
              ∷ [])
          × (approximate_size r.1.deque ≡ 1)
          × ((pop r.1.deque).0 ≡ slots ((t + 1) % capacity)))
  unfolding acts act begin_pop owner_step thief_step pop approximate_size
  lost_race-pop slots t x h small =
      let e1 : leb (t + 1) t ≡ false = ground arith in
      let e2 : (t + 1 == 0) ≡ false = ground arith in
      let e3 : t + 1 - 1 ≡ t = omega arith in
      let e4 : ltb t t ≡ false = ground arith in
      let e5 : (t == t) ≡ true = ground arith in
      let e6 : add64 t 1 ≡ t + 1 = ground arith in
      let e7 : (t + 1 == t) ≡ false = ground arith in
      let e8 : add64 (t + 1) 1 ≡ t + 2 = ground arith in
      let e9 : ltb (t + 1) (t + 2) ≡ true = ground arith in
      let e10 : t + 2 - (t + 1) ≡ 1 = omega arith in
      let e11 : (t + 2 == 0) ≡ false = ground arith in
      let e12 : t + 2 - 1 ≡ t + 1 = omega arith in
      let e13 : ltb (t + 1) (t + 1) ≡ false = ground arith in
      let e14 : (t + 1 == t + 1) ≡ true = ground arith in
      simp (e1, e2, e3, e4, e5, e6, e7, e8, e9, e10, e11, e12, e13, e14, h) (refl, refl, refl)
