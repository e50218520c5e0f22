-- ===== src/Deque/Threads/OwnerPops.antt =====
-- src/work_stealing_deque.cpp: the end of a pop, and every step of the owner, against the bounded list.
use coroutine_library.Prelude.{
  ℕ, ◌+◌, ◌%◌, ◌≤◌, ◌<◌, ◌≡◌, ◌⊎◌, inl, inr, refl, sym, ap, ◌∙◌, subst, Bool, true, Option, some,
  List, [], ◌∷◌, ◌++◌, ltb, ◌==◌, arith, length, length-append, Bool-cases,
}
use coroutine_library.Prelude.Words.{add64, size_mod}
use coroutine_library.Deque.{capacity, Deque, pops, taken}
use coroutine_library.Deque.Window.{Window-init}
use coroutine_library.Deque.Runs.{spec_step, spec_pop, unsnoc-snoc, snoc-cases}
use coroutine_library.Deque.Threads.{
  Owner, resting, storing, publishing, popping, restoring, racing, closing, did, owner_step,
}
use coroutine_library.Deque.Threads.Knowledge.{Ok, reach, Follows, Kept-same, Kept-later, Kept-refl}
use coroutine_library.Deque.Threads.OwnerSteps.{
  empty_list, storing-Follows, publishing-Follows, restoring-Follows, closing-Follows,
}

module _ {A : Type 0} where
  pub popping_last-Follows :
      (b : ℕ) (d : Deque A) (ys : List A) (y : A)
      → Ok (popping b) d (ys ++ y ∷ [])
      → d.top < b
      → Follows 0
          (popping b)
          d
          (ys ++ y ∷ [])
          (did pops (taken (d.slots (b % capacity))), resting, d)
  unfolding spec_step spec_pop
  popping_last-Follows b d ys y h l =
      let n : length (ys ++ y ∷ []) ≡ length ys + 1 = length-append ys (y ∷ []) in
      let (w, last) = Window-init d.slots d.top ys y h.window in
      let e : b ≡ d.top + length ys = omega (arith, h.back, n) in
      record {
        after = ys;
        decided =
            rw (unsnoc-snoc ys y, subst (λ i. d.slots (i % capacity) ≡ some y) (sym e) last) refl;
        ok = record {
          window = w;
          fits = omega (arith, h.fits, n);
          back = omega (arith, h.owner);
          owner = tt;
        };
        kept = Kept-same d d _ (length ys) refl (λ q. omega arith) (λ q. refl);
        far = omega (arith, h.owner);
      }

  pub popping-Follows :
      (b : ℕ) (d : Deque A) (xs : List A)
      → Ok (popping b) d xs
      → Follows 0 (popping b) d xs (owner_step (popping b) d)
  unfolding owner_step
  popping-Follows b d xs h = elim (Bool-cases (ltb b d.top)) [
    | inl l ↦
        let none_left : length xs ≡ 0 = ground (arith, h.back) in
        rw l (record {
          after = xs;
          decided = (rw (empty_list xs none_left) (unfold spec_step in unfold spec_pop in refl));
          ok = record {
            window = h.window;
            fits = h.fits;
            back = omega (arith, none_left);
            owner = (none_left, ground (arith, h.owner));
          };
          kept = Kept-refl d (length xs);
          far = ground (arith, h.back);
        })
    | inr l ↦ elim (Bool-cases (d.top == b)) [
      | inl e ↦
          rw (l, e)
            (record {
              after = xs;
              decided = refl;
              ok = record {
                window = h.window;
                fits = h.fits;
                back = h.back;
                owner = (h.owner, ground arith, refl);
              };
              kept = Kept-refl d (length xs);
              far = omega arith;
            })
      | inr e ↦ let less : d.top < b = ground arith in rw (l, e) (by_last less (snoc-cases xs))
    ]
  ]
    where
      by_last :
          d.top < b
          → (xs ≡ []) ⊎ ((ys : List A) × (y : A) × (xs ≡ ys ++ y ∷ []))
          → Follows 0 (popping b) d xs (did pops (taken (d.slots (b % capacity))), resting, d)
      by_last less (inl e) = absurd (omega (arith, h.back, ap length e))
      by_last less (inr (ys, y, e)) =
          subst
            (λ zs.
              Follows 0 (popping b) d zs (did pops (taken (d.slots (b % capacity))), resting, d))
            (sym e) (popping_last-Follows b d ys y (subst (Ok (popping b) d) e h) less)

  pub racing-Follows :
      (v : Option A) (b : ℕ) (d : Deque A) (xs : List A)
      → Ok (racing v b) d xs
      → (d.top == b) ≡ true
      → b + 1 < size_mod
      → Follows 0 (racing v b) d xs (owner_step (racing v b) d)
  unfolding owner_step spec_step spec_pop
  racing-Follows v b d [] h e small = absurd (ground (arith, h.back))
  racing-Follows v b d (x ∷ y ∷ xs) h e small = absurd (ground (arith, h.back))
  racing-Follows v b d (x ∷ []) h e small =
      let p : b ≡ d.top = ground arith in
      let q : v ≡ some x = h.owner.2 ∙ ap (λ i. d.slots (i % capacity)) p ∙ h.window.0 in
      let wrap : add64 b 1 ≡ b + 1 = ground arith in
      rw (e, q, wrap)
        (record {
          after = [];
          decided = refl;
          ok = record {
            window = tt;
            fits = omega arith;
            back = omega arith;
            owner = (refl, omega (arith, h.owner.0));
          };
          kept = Kept-later d _ 1 0 (omega arith);
          far = omega arith;
        })

  pub reach-le :
      (o : Owner A) (d : Deque A) (xs : List A) → Ok o d xs → d.top + length xs ≤ reach o d.bottom
  reach-le resting d xs h = omega (arith, h.back)
  reach-le (storing x b) d xs h = omega (arith, h.back)
  reach-le (publishing x b) d xs h = omega (arith, h.back)
  reach-le (popping b) d xs h = omega (arith, h.back)
  reach-le (restoring b) d xs h = omega (arith, h.back)
  reach-le (racing x b) d xs h = omega (arith, h.back)
  reach-le (closing x b) d xs h = omega (arith, h.back)

  -- Whether an exchange by the owner succeeds.
  unfoldable pub wins : Owner A → Deque A → Bool
  wins (racing v t) d = d.top == t
  wins o d = true

  pub owner_step-Follows :
      (o : Owner A) (d : Deque A) (xs : List A)
      → Ok o d xs
      → wins o d ≡ true
      → reach o d.bottom < size_mod
      → Follows 0 o d xs (owner_step o d)
  unfolding wins
  owner_step-Follows resting d xs h w small =
      unfold owner_step in
      record {
        after = xs;
        decided = refl;
        ok = h;
        kept = Kept-refl d (length xs);
        far = omega arith;
      }
  owner_step-Follows (storing x b) d xs h w small = storing-Follows x b d xs h
  owner_step-Follows (publishing x b) d xs h w small =
      publishing-Follows x b d xs h (omega (arith, h.owner.0))
  owner_step-Follows (popping b) d xs h w small = popping-Follows b d xs h
  owner_step-Follows (restoring b) d xs h w small = restoring-Follows b d xs h
  owner_step-Follows (racing v b) d xs h w small = racing-Follows v b d xs h w small
  owner_step-Follows (closing v b) d xs h w small = closing-Follows v b d xs h
