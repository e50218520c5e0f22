-- ===== src/Deque/Runs.antt =====
-- src/work_stealing_deque.cpp under any sequence of calls, against a bounded list.
use coroutine_library.Prelude.{
  ℕ, suc, ◌+◌, ◌<◌, ◌≡◌, ◌⊎◌, inl, inr, refl, true, false, Option, none, some, arith, if◌then◌else◌,
  List, [], ◌∷◌, ◌++◌, ltb, length, dec_lt, lt→ltb,
}
use coroutine_library.Prelude.Words.{size_mod}
use coroutine_library.Deque.{
  capacity, Deque, empty_deque, push, pop, steal, Call, pushes, pops, steals, Answer, stored, taken,
  step, run,
}
use coroutine_library.Deque.Sequential.{
  Holds, empty_deque-Holds, push-Holds, push_full, pop-Holds, pop_empty, steal-Holds, steal_empty,
}

module _ {ℓ} {A : Type ℓ} where
  -- The contract: a list with the oldest task first, of at most `capacity` tasks.
  abbrev pub unsnoc : List A → Option (List A × A)
  unsnoc [] = none
  unsnoc (x ∷ xs) = elim (unsnoc xs) [ none ↦ some ([], x) | some (ys, y) ↦ some (x ∷ ys, y) ]

  pub unsnoc-snoc : (xs : List A) (x : A) → unsnoc (xs ++ x ∷ []) ≡ some (xs, x)
  unsnoc-snoc [] x = refl
  unsnoc-snoc (y ∷ xs) x = rw (unsnoc-snoc xs x)

  pub snoc-cases : (xs : List A) → (xs ≡ []) ⊎ ((ys : List A) × (y : A) × (xs ≡ ys ++ y ∷ []))
  snoc-cases [] = inl refl
  snoc-cases (x ∷ xs) = elim (snoc-cases xs) [
    | inl e ↦ inr ([], x, rw e)
    | inr (ys, y, e) ↦ inr (x ∷ ys, y, rw e)
  ]

  unfoldable pub spec_pop : Option (List A × A) → List A → Answer A × List A
  spec_pop none xs = (taken none, xs)
  spec_pop (some (ys, y)) xs = (taken (some y), ys)

  unfoldable pub spec_steal : List A → Answer A × List A
  spec_steal [] = (taken none, [])
  spec_steal (x ∷ xs) = (taken (some x), xs)

  unfoldable pub spec_step : Call A → List A → Answer A × List A
  unfolding spec_pop spec_steal
  spec_step (pushes x) xs =
      if ltb (length xs) capacity then (stored true, xs ++ x ∷ []) else (stored false, xs)
  spec_step pops xs = spec_pop (unsnoc xs) xs
  spec_step steals xs = spec_steal xs

  unfoldable pub spec_run : List (Call A) → List A → List (Answer A) × List A
  spec_run [] xs = ([], xs)
  spec_run (c ∷ cs) xs =
      let r = spec_step c xs in let rest = spec_run cs r.1 in (r.0 ∷ rest.0, rest.1)

  abbrev pub pushes_in : List (Call A) → ℕ
  pushes_in [] = 0
  pushes_in (pushes x ∷ cs) = suc (pushes_in cs)
  pushes_in (pops ∷ cs) = pushes_in cs
  pushes_in (steals ∷ cs) = pushes_in cs

  record Follows (c : Call A) (d : Deque A) (xs : List A) : Type ℓ where
    answer : (step c d).0 ≡ (spec_step c xs).0
    holds : Holds (step c d).1 (spec_step c xs).1

  push-Follows :
      (x : A) (d : Deque A) (xs : List A)
      → Holds d xs
      → d.bottom + 1 < size_mod
      → Follows (pushes x) d xs
  unfolding step spec_step
  push-Follows x d xs h k = elim (dec_lt (length xs) capacity) [
    | yes room ↦
        let (e, h') = push-Holds d xs x h room k in
        record { answer = rw (e, lt→ltb _ _ room); holds = rw (lt→ltb _ _ room) h' }
    | no full ↦
        let f : length xs ≡ capacity = omega (arith, h.fits) in
        let g : ltb (length xs) capacity ≡ false = ground arith in
        record { answer = rw (push_full d xs x h f, g); holds = rw (push_full d xs x h f, g) h }
  ]

  pop-Follows : (d : Deque A) (xs : List A) → Holds d xs → Follows pops d xs
  unfolding step spec_step
  pop-Follows d xs h = elim (snoc-cases xs) [
    | inl e ↦ let (a, h') = pop_empty d (rw e at h) in rw e (record { answer = rw a; holds = h' })
    | inr (ys, y, e) ↦
        let (a, h') = pop-Holds d ys y (rw e at h) in
        rw e (record { answer = rw (a, unsnoc-snoc ys y); holds = rw (unsnoc-snoc ys y) h' })
  ]

  steal-Follows : (d : Deque A) (xs : List A) → Holds d xs → Follows steals d xs
  unfolding step spec_step
  steal-Follows d [] h = record { answer = rw (steal_empty d h); holds = rw (steal_empty d h) h }
  steal-Follows d (x ∷ xs) h =
      let (a, h') = steal-Holds d x xs h in record { answer = rw a; holds = h' }

  -- The calls left, with the index reached, stay below the width of the index.
  step-bottom :
      (c : Call A) (cs : List (Call A)) (d : Deque A) (xs : List A)
      → Holds d xs
      → pushes_in (c ∷ cs) + d.bottom < size_mod
      → pushes_in cs + (step c d).1.bottom < size_mod
  unfolding step push pop steal
  step-bottom (pushes x) cs d xs h k = ground (arith, h.back, h.unwrapped)
  step-bottom pops cs d xs h k = ground (arith, h.back, h.unwrapped)
  step-bottom steals cs d xs h k = ground (arith, h.back, h.unwrapped)

  step-Follows :
      (c : Call A) (cs : List (Call A)) (d : Deque A) (xs : List A)
      → Holds d xs
      → pushes_in (c ∷ cs) + d.bottom < size_mod
      → Follows c d xs
  step-Follows (pushes x) cs d xs h k = push-Follows x d xs h (omega arith)
  step-Follows pops cs d xs h k = pop-Follows d xs h
  step-Follows steals cs d xs h k = steal-Follows d xs h

  run-bounded_list_from :
      (cs : List (Call A)) (d : Deque A) (xs : List A)
      → Holds d xs
      → pushes_in cs + d.bottom < size_mod
      → ((run cs d).0 ≡ (spec_run cs xs).0) × Holds (run cs d).1 (spec_run cs xs).1
  unfolding run spec_run
  run-bounded_list_from [] d xs h k = (refl, h)
  run-bounded_list_from (c ∷ cs) d xs h k =
      let f = step-Follows c cs d xs h k in
      let (rest, h') =
        run-bounded_list_from cs (step c d).1 (spec_step c xs).1 f.holds
          (step-bottom c cs d xs h k) in
      (rw (f.answer, rest), h')

  -- Any fewer than 2 ^ 64 pushes, with pops and steals between them in any order and no two calls
  -- at once, get the answers of a bounded list: pushes and pops at its back, steals at its front.
  pub run-bounded_list :
      (cs : List (Call A))
      → pushes_in cs < size_mod
      → ((run cs empty_deque).0 ≡ (spec_run cs []).0)
        × Holds (run cs empty_deque).1 (spec_run cs []).1
  unfolding empty_deque
  run-bounded_list cs k = run-bounded_list_from cs empty_deque [] empty_deque-Holds (omega arith)
