-- ===== src/Deque/Threads/ThiefSteps.antt =====
-- src/work_stealing_deque.cpp: the steps of a thief against the bounded list.
use coroutine_library.Prelude.{
  ℕ, suc, ◌+◌, ◌%◌, ◌≤◌, ◌<◌, ◌≡◌, inl, inr, refl, sym, ap, ◌∙◌, true, Option, some, List, [], ◌∷◌,
  leb, ◌==◌, ==_iff, arith, length, Bool-cases,
}
use coroutine_library.Prelude.Words.{add64, size_mod}
use coroutine_library.Deque.{capacity, Deque, steals, taken}
use coroutine_library.Deque.Runs.{spec_step, spec_steal}
use coroutine_library.Deque.Threads.{
  Owner, resting, storing, publishing, popping, restoring, racing, closing, Thief, away, looking,
  reading, claiming, Decision, did, thief_step,
}
use coroutine_library.Deque.Threads.Knowledge.{
  OwnerOk, ThiefOk, Ok, Kept, Decides, Kept-later, Kept-refl,
}

module _ {A : Type 0} where
  -- The same for a step of a thief, with what it knows next.
  pub record ThiefFollows (o : Owner A) (d : Deque A) (xs : List A)
      (r : Decision A × Thief A × Deque A) : Type 0 where
    pub after : List A
    pub decided : Decides r.0 xs after
    pub ok : Ok o r.2 after
    pub mine : ThiefOk r.1 r.2 (length after)
    pub kept : Kept d (length xs) r.2 (length after)
    pub same : r.2.bottom ≡ d.bottom

  pub bottom-le :
      (o : Owner A) (d : Deque A) (xs : List A) → Ok o d xs → d.bottom ≤ d.top + length xs
  bottom-le resting d xs h = omega (arith, h.back)
  bottom-le (storing x b) d xs h = omega (arith, h.back)
  bottom-le (publishing x b) d xs h = omega (arith, h.back)
  bottom-le (popping b) d xs h = omega (arith, h.back, h.owner)
  bottom-le (restoring b) d xs h = omega (arith, h.owner.1)
  bottom-le (racing x b) d xs h = omega (arith, h.back, h.owner.0)
  bottom-le (closing x b) d xs h = omega (arith, h.owner.1)

  -- A theft, seen by the owner.
  pub stolen-Ok :
      (o : Owner A) (d : Deque A) (x : A) (xs : List A)
      → Ok o d (x ∷ xs)
      → Ok o (record d { top = suc d.top }) xs
  stolen-Ok o d x xs h = record {
    window = h.window.1;
    fits = omega (arith, h.fits);
    back = omega (arith, h.back);
    owner = seen o h.owner;
  }
    where
      seen :
          (p : Owner A)
          → OwnerOk p d (suc (length xs))
          → OwnerOk p (record d { top = suc d.top }) (length xs)
      seen resting k = tt
      seen (storing y b) k = (k.0, omega (arith, k.1))
      seen (publishing y b) k = (k.0, omega (arith, k.1), k.2)
      seen (popping b) k = k
      seen (restoring b) k = absurd (omega (arith, k.0))
      seen (racing v b) k = (k.0, omega (arith, k.1), k.2)
      seen (closing v b) k = absurd (omega (arith, k.0))

  pub claim-ThiefFollows :
      (v : Option A) (t : ℕ) (o : Owner A) (d : Deque A) (xs : List A)
      → Ok o d xs
      → ThiefOk (claiming v t) d (length xs)
      → (d.top == t) ≡ true
      → d.top + length xs < size_mod
      → ThiefFollows o d xs (did steals (taken v), away, record d { top = add64 t 1 })
  unfolding spec_step spec_steal
  claim-ThiefFollows v t o d [] h k e small = absurd (omega (arith, (k.1 ((==_iff d.top t).0 e)).0))
  claim-ThiefFollows v t o d (x ∷ xs) h k e small =
      let p : t ≡ d.top = sym ((==_iff d.top t).0 e) in
      let q : v ≡ some x = (k.1 (sym p)).1 ∙ ap (λ i. d.slots (i % capacity)) p ∙ h.window.0 in
      let up : add64 t 1 ≡ suc d.top = ground (arith, p) in
      rw (q, up)
        (record {
          after = xs;
          decided = refl;
          ok = stolen-Ok o d x xs h;
          mine = tt;
          kept = Kept-later d _ _ (length xs) (omega arith);
          same = refl;
        })

  pub thief_step-ThiefFollows :
      (th : Thief A) (o : Owner A) (d : Deque A) (xs : List A)
      → Ok o d xs
      → ThiefOk th d (length xs)
      → d.top + length xs < size_mod
      → ThiefFollows o d xs (thief_step th d)
  unfolding thief_step
  thief_step-ThiefFollows away o d xs h k small = record {
    after = xs;
    decided = refl;
    ok = h;
    mine = omega arith;
    kept = Kept-refl d (length xs);
    same = refl;
  }
  thief_step-ThiefFollows (looking t) o d xs h k small = elim (Bool-cases (leb d.bottom t)) [
    | inl b ↦ rw b (record {
      after = xs;
      decided = refl;
      ok = h;
      mine = tt;
      kept = Kept-refl d (length xs);
      same = refl;
    })
    | inr b ↦
        let above : t < d.bottom = ground arith in
        let low = bottom-le o d xs h in
        rw b (record {
          after = xs;
          decided = refl;
          ok = h;
          mine = (k, λ q. omega (arith, q));
          kept = Kept-refl d (length xs);
          same = refl;
        })
  ]
  thief_step-ThiefFollows (reading t) o d xs h k small = record {
    after = xs;
    decided = refl;
    ok = h;
    mine = (k.0, λ q. (k.1 q, refl));
    kept = Kept-refl d (length xs);
    same = refl;
  }
  thief_step-ThiefFollows (claiming v t) o d xs h k small = elim (Bool-cases (d.top == t)) [
    | inl e ↦ rw e (claim-ThiefFollows v t o d xs h k e small)
    | inr e ↦ rw e (record {
      after = xs;
      decided = refl;
      ok = h;
      mine = tt;
      kept = Kept-refl d (length xs);
      same = refl;
    })
  ]
