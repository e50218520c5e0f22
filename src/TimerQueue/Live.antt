-- ===== src/TimerQueue/Live.antt =====
-- src/timer_queue.cpp: the entries that can still fire, and how each loop changes them.
use coroutine_library.Prelude.{
  ℕ, ◌-◌, ◌/◌, ◌≤◌, ◌<◌, ◌≡◌, ◌≢◌, inl, inr, refl, subst, sym, Bool, true, false, Option, none,
  some, if◌then◌else◌, List, [], ◌∷◌, ltb, leb, ◌==◌, ltb→lt, All, arith, Bool-cases,
}
use coroutine_library.Prelude.Maps.{Map, put, erase, nat_eq}
use coroutine_library.TimerQueue.{Entry, is_active, insert, next_loop, expire_loop}

module _ {ℓ} {C : Type ℓ} where
  -- Ordered by deadline, each handle once.
  abbrev pub Sorted : List (Entry C) → Type 0
  Sorted [] = Unit
  Sorted (e ∷ es) =
      All (λ x. e.deadline ≤ x.deadline) es × All (λ x. x.handle ≢ e.handle) es × Sorted es

  unfoldable pub live : Map ℕ Bool → List (Entry C) → List (Entry C)
  live active [] = []
  live active (e ∷ es) =
      let rest = live active es in if is_active (active e.handle) then e ∷ rest else rest

  pub All-insert {κ} :
      (P : Entry C → Type κ) (e : Entry C) (es : List (Entry C))
      → P e
      → All P es
      → All P (insert e es)
  unfolding insert
  All-insert P e [] p ps = (p, tt)
  All-insert P e (x ∷ xs) p ps = elim (Bool-cases (ltb e.deadline x.deadline)) [
    | inl b ↦ rw b (p, ps)
    | inr b ↦ rw b (ps.0, All-insert P e xs p ps.1)
  ]

  pub All-live {κ} :
      (P : Entry C → Type κ) (active : Map ℕ Bool) (es : List (Entry C))
      → All P es
      → All P (live active es)
  unfolding live
  All-live P active [] ps = tt
  All-live P active (e ∷ es) ps = elim (Bool-cases (is_active (active e.handle))) [
    | inl b ↦ rw b (ps.0, All-live P active es ps.1)
    | inr b ↦ rw b (All-live P active es ps.1)
  ]

  pub All-map {κ μ} :
      (P : Entry C → Type κ) (Q : Entry C → Type μ) (es : List (Entry C))
      → ((e : Entry C) → P e → Q e)
      → All P es
      → All Q es
  All-map P Q [] f ps = tt
  All-map P Q (e ∷ es) f ps = (f e ps.0, All-map P Q es f ps.1)

  -- Only the flags of the handles in the list matter.
  live-congr :
      (f g : Map ℕ Bool) (es : List (Entry C))
      → All (λ e. f e.handle ≡ g e.handle) es
      → live f es ≡ live g es
  unfolding live
  live-congr f g [] h = refl
  live-congr f g (e ∷ es) h = rw (h.0, live-congr f g es h.1)

  insert-first :
      (e : Entry C) (es : List (Entry C))
      → All (λ x. e.deadline < x.deadline) es
      → insert e es ≡ e ∷ es
  unfolding insert
  insert-first e [] h = refl
  insert-first e (x ∷ xs) h = let b : ltb e.deadline x.deadline ≡ true = ground (arith, h.0) in rw b

  pub live-insert :
      (active : Map ℕ Bool) (e : Entry C) (es : List (Entry C))
      → Sorted es
      → active e.handle ≡ some true
      → live active (insert e es) ≡ insert e (live active es)
  unfolding live insert
  live-insert active e [] s h = rw h
  live-insert active e (x ∷ xs) s h = elim (Bool-cases (ltb e.deadline x.deadline)) [
    | inl b ↦ elim (Bool-cases (is_active (active x.handle))) [
      | inl c ↦ rw (b, h, c, b)
      | inr c ↦
          let below : e.deadline < x.deadline = ltb→lt _ _ b in
          let later =
            All-live (λ y. e.deadline < y.deadline) active xs
              (All-map (λ y. x.deadline ≤ y.deadline) _ xs (λ y p. omega arith) s.0) in
          rw (b, h, c, insert-first e (live active xs) later)
    ]
    | inr b ↦ elim (Bool-cases (is_active (active x.handle))) [
      | inl c ↦ rw (b, c, b, live-insert active e xs s.2 h)
      | inr c ↦ rw (b, c, live-insert active e xs s.2 h)
    ]
  ]

  pub insert-Sorted :
      (e : Entry C) (es : List (Entry C))
      → Sorted es
      → All (λ x. x.handle ≢ e.handle) es
      → Sorted (insert e es)
  unfolding insert
  insert-Sorted e [] s n = (tt, tt, tt)
  insert-Sorted e (x ∷ xs) s n = elim (Bool-cases (ltb e.deadline x.deadline)) [
    | inl b ↦
        let below : e.deadline < x.deadline = ltb→lt _ _ b in
        rw b (
          (omega arith, All-map (λ y. x.deadline ≤ y.deadline) _ xs (λ y p. omega arith) s.0),
          n,
          s,
        )
    | inr b ↦ rw b (
      All-insert (λ y. x.deadline ≤ y.deadline) e xs (ground arith) s.0,
      All-insert (λ y. y.handle ≢ x.handle) e xs (λ p. n.0 (sym p)) s.1,
      insert-Sorted e xs s.2 n.1,
    )
  ]

  -- The contract of each loop, on the entries that can fire.
  unfoldable pub has : ℕ → List (Entry C) → Bool
  has h [] = false
  has h (e ∷ es) = if e.handle == h then true else has h es

  unfoldable pub remove : ℕ → List (Entry C) → List (Entry C)
  remove h [] = []
  remove h (e ∷ es) = if e.handle == h then es else e ∷ remove h es

  unfoldable pub due : ℕ → List (Entry C) → List C
  due now [] = []
  due now (e ∷ es) = if leb e.deadline now then e.callback ∷ due now es else []

  unfoldable pub later : ℕ → List (Entry C) → List (Entry C)
  later now [] = []
  later now (e ∷ es) = if leb e.deadline now then later now es else e ∷ es

  unfoldable pub first_timeout : ℕ → List (Entry C) → Option ℕ
  first_timeout now [] = none
  first_timeout now (e ∷ es) = some ((e.deadline - now) / 1_000_000)

  pub live-put_other :
      (active : Map ℕ Bool) (h : ℕ) (b : Bool) (es : List (Entry C))
      → All (λ x. x.handle ≢ h) es
      → live (put active h b) es ≡ live active es
  live-put_other active h b es n =
      live-congr (put active h b) active es
        (All-map (λ x. x.handle ≢ h) _ es (λ x p. ground (arith, p)) n)

  pub live-erase_other :
      (active : Map ℕ Bool) (h : ℕ) (es : List (Entry C))
      → All (λ x. x.handle ≢ h) es
      → live (erase active h) es ≡ live active es
  live-erase_other active h es n =
      live-congr (erase active h) active es
        (All-map (λ x. x.handle ≢ h) _ es (λ x p. ground (arith, p)) n)

  pub remove-none : (h : ℕ) (es : List (Entry C)) → All (λ x. x.handle ≢ h) es → remove h es ≡ es
  unfolding remove
  remove-none h [] n = refl
  remove-none h (e ∷ es) n = ground (arith, n.0, remove-none h es n.1)

  pub live-cancel :
      (active : Map ℕ Bool) (h : ℕ) (es : List (Entry C))
      → Sorted es
      → live (put active h false) es ≡ remove h (live active es)
  unfolding live remove
  live-cancel active h [] s = refl
  live-cancel active h (e ∷ es) s = elim (Bool-cases (e.handle == h)) [
    | inl b ↦
        let same : e.handle ≡ h = ground arith in
        let met : (h == e.handle) ≡ true = ground arith in
        let n : All (λ x. x.handle ≢ h) es = subst (λ k. All (λ x. x.handle ≢ k) es) same s.1 in
        elim (Bool-cases (is_active (active e.handle))) [
          | inl c ↦ rw (met, c, b, live-put_other active h false es n)
          | inr c ↦
              rw (met, c, live-put_other active h false es n)
                (sym (remove-none h (live active es) (All-live _ active es n)))
        ]
    | inr b ↦
        let other : (h == e.handle) ≡ false = ground arith in
        elim (Bool-cases (is_active (active e.handle))) [
          | inl c ↦ rw (other, c, b, live-cancel active h es s.2)
          | inr c ↦ rw (other, c) (live-cancel active h es s.2)
        ]
  ]

  due-later_none :
      (now : ℕ) (es : List (Entry C))
      → All (λ x. now < x.deadline) es
      → (due now es ≡ []) × (later now es ≡ es)
  unfolding due later
  due-later_none now [] n = (refl, refl)
  due-later_none now (e ∷ es) n =
      let b : leb e.deadline now ≡ false = ground (arith, n.0) in rw b (refl, refl)

  pub next_loop-live :
      (now : ℕ) (active : Map ℕ Bool) (es : List (Entry C))
      → Sorted es
      → (let r = next_loop now es active in
          (r.0 ≡ first_timeout now (live active es)) × (live r.2 r.1 ≡ live active es) × Sorted r.1)
  unfolding next_loop live first_timeout
  next_loop-live now active [] s = (refl, refl, tt)
  next_loop-live now active (e ∷ es) s = elim (Bool-cases (is_active (active e.handle))) [
    | inl b ↦ rw b (ground arith, rw b refl, s)
    | inr b ↦
        rw (b, ← live-erase_other active e.handle es s.1)
          (next_loop-live now (erase active e.handle) es s.2)
  ]

  pub expire_loop-live :
      (now : ℕ) (active : Map ℕ Bool) (es : List (Entry C))
      → Sorted es
      → (let r = expire_loop now es active in
          (r.0 ≡ due now (live active es))
          × (live r.2 r.1 ≡ later now (live active es))
          × Sorted r.1)
  unfolding expire_loop live due later
  expire_loop-live now active [] s = (refl, refl, tt)
  expire_loop-live now active (e ∷ es) s = elim (Bool-cases (leb e.deadline now)) [
    | inl l ↦ elim (Bool-cases (is_active (active e.handle))) [
      | inl b ↦
          let (d, r, o) = expire_loop-live now (erase active e.handle) es s.2 in
          let same = live-erase_other active e.handle es s.1 in
          rw (l, b, l) (rw (d, same), rw (r, same), o)
      | inr b ↦ rw (l, b) (expire_loop-live now active es s.2)
    ]
    | inr l ↦
        let above : now < e.deadline = ground arith in
        let n =
          All-live (λ x. now < x.deadline) active es
            (All-map (λ x. e.deadline ≤ x.deadline) _ es (λ x p. omega arith) s.0) in
        let (d, r) = due-later_none now (live active es) n in
        elim (Bool-cases (is_active (active e.handle))) [
          | inl b ↦ rw (l, b, l) (refl, refl, s)
          | inr b ↦ rw (l, b) (sym d, sym r, s)
        ]
  ]
