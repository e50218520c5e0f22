-- ===== src/LoadBalancer/Least.antt =====
-- src/load_balancer.cpp: the loops that look for the smallest value.
use coroutine_library.Prelude.{
  ℕ, suc, ◌+◌, ◌≤◌, ◌<◌, ◌≡◌, ◌⊎◌, inl, inr, refl, sym, subst, true, false, some, if◌then◌else◌,
  List, [], ◌∷◌, length, get_elem?, arith, Bool-cases,
}
use coroutine_library.Floats.{Double}
use coroutine_library.LoadBalancer.{WorkerLoadSnapshot, pick_loop}

module _ (F : Double) where
  open F use {
    D, lt, infinity, is_nan, lt_irrefl, lt_asymm, lt-number, not_lt_trans, infinity-number,
    infinity_top,
  }

  module _ (value : ℕ → WorkerLoadSnapshot D → D) where
    pub pick_loop-bound :
        (index : ℕ) (ws : List (WorkerLoadSnapshot D)) (selected : ℕ) (best : D)
        → (pick_loop F value index ws selected best ≡ selected)
          ⊎ ((index ≤ pick_loop F value index ws selected best)
              × (pick_loop F value index ws selected best < index + length ws))
    unfolding pick_loop
    pick_loop-bound index [] selected best = inl refl
    pick_loop-bound index (w ∷ ws) selected best = elim (Bool-cases (lt (value index w) best)) [
      | inl b ↦ rw b (ground (arith, pick_loop-bound (suc index) ws index (value index w)))
      | inr b ↦ rw b (ground (arith, pick_loop-bound (suc index) ws selected best))
    ]

    -- The least value, as the loop leaves it beside its choice.
    pub pick_best : ℕ → List (WorkerLoadSnapshot D) → D → D
    pick_best index [] best = best
    pick_best index (w ∷ ws) best =
        pick_best (suc index) ws (if lt (value index w) best then value index w else best)

    -- Nothing from `index` on is below `x`.
    abbrev pub NoneBelow : D → ℕ → List (WorkerLoadSnapshot D) → Type 0
    NoneBelow x index [] = Unit
    NoneBelow x index (w ∷ ws) = (lt (value index w) x ≡ false) × NoneBelow x (suc index) ws

    pick_best-hit :
        (index : ℕ) (w : WorkerLoadSnapshot D) (ws : List (WorkerLoadSnapshot D)) (best : D)
        → lt (value index w) best ≡ true
        → pick_best index (w ∷ ws) best ≡ pick_best (suc index) ws (value index w)
    unfolding pick_best
    pick_best-hit index w ws best b = rw b

    pick_best-miss :
        (index : ℕ) (w : WorkerLoadSnapshot D) (ws : List (WorkerLoadSnapshot D)) (best : D)
        → lt (value index w) best ≡ false
        → pick_best index (w ∷ ws) best ≡ pick_best (suc index) ws best
    unfolding pick_best
    pick_best-miss index w ws best b = rw b

    pick_best-nil : (index : ℕ) (best : D) → pick_best index [] best ≡ best
    unfolding pick_best
    pick_best-nil index best = refl

    -- What the loop's least value `m` satisfies, from the value `best` that it started with.
    abbrev LeastOf : ℕ → List (WorkerLoadSnapshot D) → D → D → Type 0
    LeastOf index ws best m = (lt best m ≡ false) × NoneBelow m index ws × (is_nan m ≡ false)

    pub pick_best-le :
        (index : ℕ) (ws : List (WorkerLoadSnapshot D)) (best : D)
        → is_nan best ≡ false
        → (lt best (pick_best index ws best) ≡ false)
          × NoneBelow (pick_best index ws best) index ws
          × (is_nan (pick_best index ws best) ≡ false)
    pick_best-le index [] best n = rw (pick_best-nil index best) (lt_irrefl best, tt, n)
    pick_best-le index (w ∷ ws) best n = elim (Bool-cases (lt (value index w) best)) [
      | inl b ↦
          let v : D = value index w in
          let (l, r, m) = pick_best-le (suc index) ws v (lt-number v best b) in
          subst (LeastOf index (w ∷ ws) best) (sym (pick_best-hit index w ws best b))
            (not_lt_trans best v _ (lt-number v best b) (lt_asymm v best b) l, (l, r), m)
      | inr b ↦
          let (l, r, m) = pick_best-le (suc index) ws best n in
          subst (LeastOf index (w ∷ ws) best) (sym (pick_best-miss index w ws best b))
            (l, (not_lt_trans _ best _ n b l, r), m)
    ]

    NoneBelow-mono :
        (x y : D) (index : ℕ) (ws : List (WorkerLoadSnapshot D))
        → is_nan x ≡ false
        → lt x y ≡ false
        → NoneBelow x index ws
        → NoneBelow y index ws
    NoneBelow-mono x y index [] n l h = tt
    NoneBelow-mono x y index (w ∷ ws) n l h =
        (not_lt_trans _ x y n h.0 l, NoneBelow-mono x y (suc index) ws n l h.1)

    -- The choice carries the least value, or nothing was below the value given.
    pub data Outcome (index : ℕ) (ws : List (WorkerLoadSnapshot D)) (selected : ℕ) (best : D)
        (chosen : ℕ) (least : D) : Type 0 where
      kept : chosen ≡ selected → least ≡ best → Outcome index ws selected best chosen least
      found :
          (k : ℕ) (w : WorkerLoadSnapshot D)
          → chosen ≡ index + k
          → get_elem? ws k ≡ some w
          → value chosen w ≡ least
          → Outcome index ws selected best chosen least

    pub pick_loop-Outcome :
        (index : ℕ) (ws : List (WorkerLoadSnapshot D)) (selected : ℕ) (best : D)
        → Outcome index ws selected best
            (pick_loop F value index ws selected best)
            (pick_best index ws best)
    unfolding pick_loop pick_best
    pick_loop-Outcome index [] selected best = kept refl refl
    pick_loop-Outcome index (w ∷ ws) selected best = elim (Bool-cases (lt (value index w) best)) [
      | inl b ↦ rw b (later (pick_loop-Outcome (suc index) ws index (value index w)))
      | inr b ↦ rw b (skip (pick_loop-Outcome (suc index) ws selected best))
    ]
      where
        later :
            {chosen : ℕ} {least : D}
            → Outcome (suc index) ws index (value index w) chosen least
            → Outcome index (w ∷ ws) selected best chosen least
        later (kept c l) = found 0 w (omega arith) refl (rw c (sym l))
        later (found k v c e l) = found (suc k) v (omega arith) e l

        skip :
            {chosen : ℕ} {least : D}
            → Outcome (suc index) ws selected best chosen least
            → Outcome index (w ∷ ws) selected best chosen least
        skip (kept c l) = kept c l
        skip (found k v c e l) = found (suc k) v (omega arith) e l

    -- Started from position 0 and an infinite value, the loop ends at a worker of the list, and no
    -- worker has a value below that one's.
    pub pick_loop-least :
        (w : WorkerLoadSnapshot D) (ws : List (WorkerLoadSnapshot D))
        → (let chosen = pick_loop F value 0 (w ∷ ws) 0 infinity in
            (v : WorkerLoadSnapshot D) × (get_elem? (w ∷ ws) chosen ≡ some v)
            × NoneBelow (value chosen v) 0 (w ∷ ws))
    pick_loop-least w ws = settle (pick_loop-Outcome 0 (w ∷ ws) 0 infinity)
      where
        below : NoneBelow (pick_best 0 (w ∷ ws) infinity) 0 (w ∷ ws)
        below = (pick_best-le 0 (w ∷ ws) infinity infinity-number).1

        settle :
            {chosen : ℕ}
            → Outcome 0 (w ∷ ws) 0 infinity chosen (pick_best 0 (w ∷ ws) infinity)
            → (v : WorkerLoadSnapshot D) × (get_elem? (w ∷ ws) chosen ≡ some v)
              × NoneBelow (value chosen v) 0 (w ∷ ws)
        settle (kept c l) = (
          w,
          rw c refl,
          subst (λ x. NoneBelow (value x w) 0 (w ∷ ws)) (sym c)
              (NoneBelow-mono infinity (value 0 w) 0 (w ∷ ws) infinity-number
                (infinity_top (value 0 w)) (subst (λ x. NoneBelow x 0 (w ∷ ws)) l below)),
        )
        settle {chosen} (found k v c e l) = (
          v,
          (let c' : chosen ≡ k = omega (arith, c) in rw c' e),
          subst (λ x. NoneBelow x 0 (w ∷ ws)) (sym l) below,
        )
