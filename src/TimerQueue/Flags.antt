-- ===== src/TimerQueue/Flags.antt =====
-- src/timer_queue.cpp: `active_` and the entries that can fire.
use coroutine_library.Prelude.{
  ℕ, ◌≡◌, ◌≢◌, inl, inr, refl, Bool, true, false, some, if◌then◌else◌, List, [], ◌∷◌, ◌&&◌, leb,
  ◌==◌, ==_iff, All, arith, Bool-cases,
}
use coroutine_library.Prelude.Maps.{Map, put, erase, nat_eq}
use coroutine_library.TimerQueue.{Entry, is_active, insert, next_loop, expire_loop}
use coroutine_library.TimerQueue.Live.{
  Sorted, live, has, remove, All-live, live-insert, live-put_other, live-erase_other, live-cancel,
}

module _ {ℓ} {C : Type ℓ} where
  abbrev pub Marks : Map ℕ Bool → List (Entry C) → Type 0
  Marks active es = (j : ℕ) → is_active (active j) ≡ has j (live active es)

  has-none : (h : ℕ) (es : List (Entry C)) → All (λ x. x.handle ≢ h) es → has h es ≡ false
  unfolding has
  has-none h [] n = refl
  has-none h (e ∷ es) n = ground (arith, n.0, has-none h es n.1)

  has-insert :
      (j : ℕ) (e : Entry C) (es : List (Entry C))
      → has j (insert e es) ≡ (if e.handle == j then true else has j es)
  unfolding has insert
  has-insert j e [] = refl
  has-insert j e (x ∷ xs) = ground (arith, has-insert j e xs)

  has-remove :
      (j h : ℕ) (es : List (Entry C))
      → Sorted es
      → has j (remove h es) ≡ (if h == j then false else has j es)
  unfolding has remove
  has-remove j h [] s = ground arith
  has-remove j h (e ∷ es) s =
      ground (arith, has-remove j h es s.2, has-none e.handle es s.1, ==_iff h j)

  pub live-Sorted :
      (active : Map ℕ Bool) (es : List (Entry C)) → Sorted es → Sorted (live active es)
  unfolding live
  live-Sorted active [] s = tt
  live-Sorted active (e ∷ es) s = elim (Bool-cases (is_active (active e.handle))) [
    | inl b ↦ rw b (All-live _ active es s.0, All-live _ active es s.1, live-Sorted active es s.2)
    | inr b ↦ rw b (live-Sorted active es s.2)
  ]

  pub insert-Marks :
      (active : Map ℕ Bool) (e : Entry C) (es : List (Entry C))
      → Sorted es
      → All (λ x. x.handle ≢ e.handle) es
      → Marks active es
      → Marks (put active e.handle true) (insert e es)
  insert-Marks active e es s n m j =
      let flag : put active e.handle true e.handle ≡ some true = ground arith in
      rw
        (
          live-insert (put active e.handle true) e es s flag,
          live-put_other active e.handle true es n,
        )
        (ground (arith, m j, has-insert j e (live active es)))

  pub cancel-Marks :
      (active : Map ℕ Bool) (h : ℕ) (es : List (Entry C))
      → Sorted es
      → Marks active es
      → Marks (put active h false) es
  cancel-Marks active h es s m j =
      rw (live-cancel active h es s, has-remove j h (live active es) (live-Sorted active es s))
        (ground (arith, m j))

  Marks-cons :
      (active : Map ℕ Bool) (e : Entry C) (es : List (Entry C)) (b : Bool)
      → is_active (active e.handle) ≡ b
      → Marks active (e ∷ es)
      → (j : ℕ)
      → is_active (active j) ≡ (if b && (e.handle == j) then true else has j (live active es))
  unfolding live has
  Marks-cons active e es true h m j = rw h at (m j)
  Marks-cons active e es false h m j = rw h at (m j)

  erase-Marks :
      (active : Map ℕ Bool) (h : ℕ) (b : Bool) (es : List (Entry C))
      → All (λ x. x.handle ≢ h) es
      → ((j : ℕ) → is_active (active j) ≡ (if b && (h == j) then true else has j (live active es)))
      → Marks (erase active h) es
  erase-Marks active h b es n m j =
      rw (live-erase_other active h es n)
        (ground (arith, m j, has-none h (live active es) (All-live _ active es n), ==_iff h j))

  pub next_loop-Marks :
      (now : ℕ) (active : Map ℕ Bool) (es : List (Entry C))
      → Sorted es
      → Marks active es
      → (let r = next_loop now es active in Marks r.2 r.1)
  unfolding next_loop
  next_loop-Marks now active [] s m = m
  next_loop-Marks now active (e ∷ es) s m = elim (Bool-cases (is_active (active e.handle))) [
    | inl b ↦ rw b m
    | inr b ↦ rw b (
        next_loop-Marks now (erase active e.handle) es s.2
          (erase-Marks active e.handle false es s.1 (Marks-cons active e es false b m)))
  ]

  pub expire_loop-Marks :
      (now : ℕ) (active : Map ℕ Bool) (es : List (Entry C))
      → Sorted es
      → Marks active es
      → (let r = expire_loop now es active in Marks r.2 r.1)
  unfolding expire_loop
  expire_loop-Marks now active [] s m = m
  expire_loop-Marks now active (e ∷ es) s m = elim (Bool-cases (leb e.deadline now)) [
    | inl l ↦ elim (Bool-cases (is_active (active e.handle))) [
      | inl b ↦
          rw (l, b)
            (expire_loop-Marks now (erase active e.handle) es s.2
              (erase-Marks active e.handle true es s.1 (Marks-cons active e es true b m)))
      | inr b ↦ rw (l, b) (expire_loop-Marks now active es s.2 (Marks-cons active e es false b m))
    ]
    | inr l ↦ rw l m
  ]

  pub next_loop-All {κ} :
      (P : Entry C → Type κ) (now : ℕ) (active : Map ℕ Bool) (es : List (Entry C))
      → All P es
      → All P (next_loop now es active).1
  unfolding next_loop
  next_loop-All P now active [] p = tt
  next_loop-All P now active (e ∷ es) p = elim (Bool-cases (is_active (active e.handle))) [
    | inl b ↦ rw b p
    | inr b ↦ rw b (next_loop-All P now (erase active e.handle) es p.1)
  ]

  pub expire_loop-All {κ} :
      (P : Entry C → Type κ) (now : ℕ) (active : Map ℕ Bool) (es : List (Entry C))
      → All P es
      → All P (expire_loop now es active).1
  unfolding expire_loop
  expire_loop-All P now active [] p = tt
  expire_loop-All P now active (e ∷ es) p = elim (Bool-cases (leb e.deadline now)) [
    | inl l ↦ elim (Bool-cases (is_active (active e.handle))) [
      | inl b ↦ rw (l, b) (expire_loop-All P now (erase active e.handle) es p.1)
      | inr b ↦ rw (l, b) (expire_loop-All P now active es p.1)
    ]
    | inr l ↦ rw l p
  ]
