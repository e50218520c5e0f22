-- ===== src/Deque/Window.antt =====
-- The part of the ring of src/work_stealing_deque.cpp between `top_` and `bottom_`, as a list.
use coroutine_library.Prelude.{
  ℕ, suc, ◌+◌, ◌%◌, ◌≤◌, ◌<◌, ◌≡◌, subst, Option, some, arith, List, [], ◌∷◌, ◌++◌, length,
}
use coroutine_library.Deque.{capacity, store}

module _ {ℓ} {A : Type ℓ} where
  -- The slots from `start` on hold the tasks of the list.
  abbrev pub Window : (ℕ → Option A) → ℕ → List A → Type ℓ
  Window slots start [] = Unit
  Window slots start (x ∷ xs) = (slots (start % capacity) ≡ some x) × Window slots (suc start) xs

  at_index :
      (slots : ℕ → Option A) (y : A) {a b : ℕ}
      → a ≡ b
      → slots (a % capacity) ≡ some y
      → slots (b % capacity) ≡ some y
  at_index slots y e h = subst (λ i. slots (i % capacity) ≡ some y) e h

  pub Window-snoc :
      (slots : ℕ → Option A) (start : ℕ) (xs : List A) (y : A)
      → Window slots start xs
      → slots ((start + length xs) % capacity) ≡ some y
      → Window slots start (xs ++ y ∷ [])
  Window-snoc slots start [] y w e = (at_index slots y (omega arith) e, tt)
  Window-snoc slots start (x ∷ xs) y w e =
      (w.0, Window-snoc slots (suc start) xs y w.1 (at_index slots y (omega arith) e))

  pub Window-init :
      (slots : ℕ → Option A) (start : ℕ) (xs : List A) (y : A)
      → Window slots start (xs ++ y ∷ [])
      → Window slots start xs × (slots ((start + length xs) % capacity) ≡ some y)
  Window-init slots start [] y w = (tt, at_index slots y (omega arith) w.0)
  Window-init slots start (x ∷ xs) y w =
      let rest = Window-init slots (suc start) xs y w.1 in
      ((w.0, rest.0), at_index slots y (omega arith) rest.1)

  -- A write outside the window leaves it alone.
  pub Window-store :
      (slots : ℕ → Option A) (start : ℕ) (xs : List A) (p : ℕ) (v : Option A)
      → start + length xs ≤ p
      → p < start + capacity
      → Window slots start xs
      → Window (store slots (p % capacity) v) start xs
  Window-store slots start [] p v h k w = tt
  Window-store slots start (x ∷ xs) p v h k w =
      (ground arith, Window-store slots (suc start) xs p v (omega arith) (omega arith) w.1)
