-- ===== src/Deque/Sequential.antt =====
-- src/work_stealing_deque.cpp against its contract: a bounded double-ended queue. The owner pushes
-- and pops at the back, thieves take from the front.
use coroutine_library.Prelude.{
  ℕ, zero, suc, ◌+◌, ◌-◌, ◌%◌, ◌≤◌, ◌<◌, ◌≡◌, ◌⊎◌, inl, inr, refl, ap, true, false, Option, none,
  some, arith, List, [], ◌∷◌, ◌++◌, ltb, ◌==◌, length, length-append, Bool-cases,
}
use coroutine_library.Prelude.Words.{size_mod}
use coroutine_library.Deque.{
  capacity, Deque, store, empty_deque, push, pop, steal, approximate_size,
}
use coroutine_library.Deque.Window.{Window, Window-snoc, Window-init, Window-store}

-- The deque holds the tasks of the list, oldest first, and its indices have not wrapped.
pub record Holds {ℓ} {A : Type ℓ} (d : Deque A) (xs : List A) : Type ℓ where
  pub window : Window d.slots d.top xs
  pub fits : length xs ≤ capacity
  pub back : d.bottom ≡ d.top + length xs
  pub unwrapped : d.bottom < size_mod

module _ {ℓ} {A : Type ℓ} where
  pub empty_deque-Holds : Holds (empty_deque {A = A}) []
  unfolding empty_deque
  empty_deque-Holds = record {
    window = tt;
    fits = omega arith;
    back = omega arith;
    unwrapped = omega arith;
  }

  push_room :
      (d : Deque A) (xs : List A) (x : A)
      → Holds d xs
      → length xs < capacity
      → d.bottom + 1 < size_mod
      → push (some x) d ≡ (
        true,
        record {
          slots = store d.slots ((d.top + length xs) % capacity) (some x);
          top = d.top;
          bottom = suc (d.top + length xs);
        },
      )
  unfolding push
  push_room d xs x h room small = ground (arith, h.back)

  -- With room and an index that does not wrap, `push` accepts the task and puts it last.
  pub push-Holds :
      (d : Deque A) (xs : List A) (x : A)
      → Holds d xs
      → length xs < capacity
      → d.bottom + 1 < size_mod
      → ((push (some x) d).0 ≡ true) × Holds (push (some x) d).1 (xs ++ x ∷ [])
  push-Holds d xs x h room small = rw (push_room d xs x h room small) (
    refl,
    record {
      window =
          Window-snoc (store d.slots ((d.top + length xs) % capacity) (some x)) d.top xs x
            (Window-store d.slots d.top xs (d.top + length xs) (some x) (omega arith) (omega arith)
              h.window)
            (ground arith);
      fits = omega (arith, length-append xs (x ∷ []));
      back = omega (arith, length-append xs (x ∷ []));
      unwrapped = omega (arith, h.back);
    },
  )

  pub push_full :
      (d : Deque A) (xs : List A) (x : A)
      → Holds d xs
      → length xs ≡ capacity
      → push (some x) d ≡ (false, d)
  unfolding push
  push_full d xs x h full = ground (arith, h.back, h.unwrapped)

  pub push-bottom-le :
      (d : Deque A) (x : A) → d.bottom < size_mod → (push (some x) d).1.bottom ≤ d.bottom + 1
  unfolding push
  push-bottom-le d x h = ground arith

  pub pop-bottom-le : (d : Deque A) (xs : List A) → Holds d xs → (pop d).1.bottom ≤ d.bottom
  unfolding pop
  pop-bottom-le d xs h = ground (arith, h.back, h.unwrapped)

  pop_last :
      (d : Deque A) (n : ℕ)
      → d.bottom ≡ d.top + suc n
      → d.bottom < size_mod
      → (t : ℕ) × (pop d
          ≡ (d.slots ((d.top + n) % capacity), record { slots = d.slots; top = t; bottom = t + n }))
        × ((t ≡ d.top) ⊎ (n ≡ 0))
        × (t + n ≤ d.bottom)
  unfolding pop
  pop_last d zero e s = (suc d.top, ground arith, inr refl, omega arith)
  pop_last d (suc n) e s = (d.top, ground arith, inl refl, omega arith)

  Window-nil :
      (slots : ℕ → Option A) (t u : ℕ) (xs : List A)
      → Window slots t xs
      → (u ≡ t) ⊎ (length xs ≡ 0)
      → Window slots u xs
  Window-nil slots t u [] w e = tt
  Window-nil slots t u (x ∷ xs) w (inl e) = rw e w
  Window-nil slots t u (x ∷ xs) w (inr e) = absurd (omega arith)

  pub pop-Holds :
      (d : Deque A) (xs : List A) (x : A)
      → Holds d (xs ++ x ∷ [])
      → ((pop d).0 ≡ some x) × Holds (pop d).1 xs
  pop-Holds d xs x h =
      let (t, e, same, low) =
        pop_last d (length xs) (omega (arith, length-append xs (x ∷ []), h.back)) h.unwrapped in
      let (w, last) = Window-init d.slots d.top xs x h.window in
      rw e (
        last,
        record {
          window = Window-nil d.slots d.top t xs w same;
          fits = omega (arith, length-append xs (x ∷ []), h.fits);
          back = refl;
          unwrapped = omega (arith, h.unwrapped);
        },
      )

  pop-none : (d : Deque A) → d.bottom ≡ d.top → pop d ≡ (none, record d { bottom = d.top })
  unfolding pop
  pop-none d e = elim (Bool-cases (d.bottom == 0)) [
    | inl z ↦ rw z (ap (λ b. (none, record d { bottom = b })) e)
    | inr z ↦ let short : ltb (d.bottom - 1) d.top ≡ true = ground arith in rw (z, short)
  ]

  pub pop_empty : (d : Deque A) → Holds d [] → ((pop d).0 ≡ none) × Holds (pop d).1 []
  pop_empty d h = rw (pop-none d (omega (arith, h.back))) (
    refl,
    record {
      window = tt;
      fits = omega arith;
      back = omega arith;
      unwrapped = omega (arith, h.back, h.unwrapped);
    },
  )

  steal_first :
      (d : Deque A)
      → d.top < d.bottom
      → d.bottom < size_mod
      → steal d ≡ (d.slots (d.top % capacity), record d { top = suc d.top })
  unfolding steal
  steal_first d h k = ground arith

  pub steal-Holds :
      (d : Deque A) (x : A) (xs : List A)
      → Holds d (x ∷ xs)
      → ((steal d).0 ≡ some x) × Holds (steal d).1 xs
  steal-Holds d x xs h = rw (steal_first d (omega (arith, h.back)) h.unwrapped) (
    h.window.0,
    record {
      window = h.window.1;
      fits = omega (arith, h.fits);
      back = omega (arith, h.back);
      unwrapped = h.unwrapped;
    },
  )

  pub steal_empty : (d : Deque A) → Holds d [] → steal d ≡ (none, d)
  unfolding steal
  steal_empty d h = ground (arith, h.back)

  -- With no concurrent call the approximate size is exact.
  pub approximate_size-length :
      (d : Deque A) (xs : List A) → Holds d xs → approximate_size d ≡ length xs
  unfolding approximate_size
  approximate_size-length d xs h = ground (arith, h.back)
