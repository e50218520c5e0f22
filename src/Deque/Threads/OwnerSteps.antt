-- ===== src/Deque/Threads/OwnerSteps.antt =====
-- src/work_stealing_deque.cpp: the steps of the owner against the bounded list.
use coroutine_library.Prelude.{
  ℕ, ◌+◌, ◌%◌, ◌<◌, ◌≡◌, inl, inr, refl, subst, true, false, Option, some, List, [], ◌∷◌, ◌++◌, ltb,
  leb, ◌==◌, arith, length, length-append, Bool-cases,
}
use coroutine_library.Prelude.Words.{sub64, size_mod}
use coroutine_library.Deque.{capacity, Deque}
use coroutine_library.Deque.Window.{Window-snoc, Window-store}
use coroutine_library.Deque.Runs.{spec_step, spec_pop}
use coroutine_library.Deque.Threads.{
  resting, storing, publishing, restoring, closing, begin_push, begin_pop, owner_step,
}
use coroutine_library.Deque.Threads.Knowledge.{Ok, Follows, Kept-same, Kept-refl}

module _ {A : Type 0} where
  pub begin_push-Follows :
      (x : A) (d : Deque A) (xs : List A)
      → Ok resting d xs
      → d.bottom < size_mod
      → Follows 1 resting d xs (begin_push x d)
  unfolding begin_push spec_step
  begin_push-Follows x d xs h small = elim (Bool-cases (leb capacity (sub64 d.bottom d.top))) [
    | inl b ↦
        let full : ltb (length xs) capacity ≡ false = ground (arith, h.back, h.fits) in
        rw b (record {
          after = xs;
          decided = rw full refl;
          ok = h;
          kept = Kept-refl d (length xs);
          far = omega arith;
        })
    | inr b ↦
        let room : length xs < capacity = ground (arith, h.back, h.fits) in
        rw b (record {
          after = xs;
          decided = refl;
          ok = record { window = h.window; fits = h.fits; back = h.back; owner = (refl, room) };
          kept = Kept-refl d (length xs);
          far = omega arith;
        })
  ]

  pub empty_list : (xs : List A) → length xs ≡ 0 → xs ≡ []
  empty_list [] e = refl
  empty_list (x ∷ xs) e = absurd (omega arith)

  pub begin_pop-Follows :
      (d : Deque A) (xs : List A) → Ok resting d xs → Follows 0 resting d xs (begin_pop d)
  unfolding begin_pop spec_step spec_pop
  begin_pop-Follows d xs h = elim (Bool-cases (d.bottom == 0)) [
    | inl b ↦
        let e : xs ≡ [] = empty_list xs (ground (arith, h.back)) in
        rw b (record {
          after = xs;
          decided = rw e refl;
          ok = h;
          kept = Kept-refl d (length xs);
          far = omega arith;
        })
    | inr b ↦ rw b (record {
      after = xs;
      decided = refl;
      ok = record { window = h.window; fits = h.fits; back = ground (arith, h.back); owner = refl };
      kept = Kept-same d _ (length xs) (length xs) refl (λ q. q) (λ q. refl);
      far = ground arith;
    })
  ]

  pub storing-Follows :
      (x : A) (b : ℕ) (d : Deque A) (xs : List A)
      → Ok (storing x b) d xs
      → Follows 0 (storing x b) d xs (owner_step (storing x b) d)
  unfolding owner_step
  storing-Follows x b d xs h = record {
    after = xs;
    decided = refl;
    ok = record {
      window =
          Window-store d.slots d.top xs b (some x) (omega (arith, h.back, h.owner.0))
            (omega (arith, h.back, h.owner)) h.window;
      fits = h.fits;
      back = h.back;
      owner = (h.owner.0, h.owner.1, ground arith);
    };
    kept =
        Kept-same d _ (length xs) (length xs) refl (λ q. q)
          (λ q. ground (arith, h.back, h.owner.0, h.owner.1));
    far = omega arith;
  }

  pub publishing-Follows :
      (x : A) (b : ℕ) (d : Deque A) (xs : List A)
      → Ok (publishing x b) d xs
      → b + 1 < size_mod
      → Follows 0 (publishing x b) d xs (owner_step (publishing x b) d)
  unfolding owner_step spec_step
  publishing-Follows x b d xs h small = record {
    after = xs ++ x ∷ [];
    decided =
        (let room : ltb (length xs) capacity ≡ true = ground (arith, h.owner.1) in rw room refl);
    ok = record {
      window = Window-snoc d.slots d.top xs x h.window (
          subst (λ i. d.slots (i % capacity) ≡ some x) (omega (arith, h.back, h.owner.0))
            h.owner.2);
      fits = omega (arith, length-append xs (x ∷ []), h.owner.1);
      back = ground (arith, length-append xs (x ∷ []), h.back, h.owner.0);
      owner = tt;
    };
    kept =
        Kept-same d _ (length xs) _ refl (λ q. omega (arith, length-append xs (x ∷ [])))
          (λ q. refl);
    far = ground (arith, h.owner.0);
  }

  pub restoring-Follows :
      (b : ℕ) (d : Deque A) (xs : List A)
      → Ok (restoring b) d xs
      → Follows 0 (restoring b) d xs (owner_step (restoring b) d)
  unfolding owner_step
  restoring-Follows b d xs h = record {
    after = xs;
    decided = refl;
    ok = record { window = h.window; fits = h.fits; back = h.back; owner = tt };
    kept = Kept-same d _ (length xs) (length xs) refl (λ q. q) (λ q. refl);
    far = omega arith;
  }

  pub closing-Follows :
      (x : Option A) (b : ℕ) (d : Deque A) (xs : List A)
      → Ok (closing x b) d xs
      → Follows 0 (closing x b) d xs (owner_step (closing x b) d)
  unfolding owner_step
  closing-Follows x b d xs h = record {
    after = xs;
    decided = refl;
    ok = record { window = h.window; fits = h.fits; back = h.back; owner = tt };
    kept = Kept-same d _ (length xs) (length xs) refl (λ q. q) (λ q. refl);
    far = omega arith;
  }
