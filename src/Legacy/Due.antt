-- ===== src/Legacy/Due.antt =====
-- fiber_lib/6hook/timer.cpp: the timers that are due in a set, and what an insertion does to it.
use coroutine_library.Prelude.{
  ℕ, suc, ◌<◌, ◌≡◌, ◌≢◌, refl, sym, Option, none, some, if◌then◌else◌, List, [], ◌∷◌, ltb, leb,
  ◌==◌, All, Bool-cases, inl, inr, arith,
}
use coroutine_library.Prelude.Maps.{Map, put, nat_eq}
use coroutine_library.Legacy.Timers.{Timer, Keyed, insert_key}

-- The timers that are due, counted.
abbrev pub count_due : ℕ → List Keyed → ℕ
count_due now [] = 0
count_due now (x ∷ xs) = if leb x.key now then suc (count_due now xs) else count_due now xs

-- The order of the set, and that no object is in it twice.
abbrev pub IsOrdered : List Keyed → Type 0
IsOrdered [] = Unit {0}
IsOrdered (x ∷ xs) = All (λ y. x.key < y.key) xs × IsOrdered xs

abbrev pub IsDistinct : List Keyed → Type 0
IsDistinct [] = Unit {0}
IsDistinct (x ∷ xs) = All (λ y. y.object ≢ x.object) xs × IsDistinct xs

insert_key-All {ℓ} :
    (P : Keyed → Type ℓ) (k : Keyed) (xs : List Keyed) → P k → All P xs → All P (insert_key k xs)
unfolding insert_key
insert_key-All P k [] p h = (p, tt)
insert_key-All P k (x ∷ xs) p h = elim (Bool-cases (ltb k.key x.key)) [
  | inl e ↦ rw e (p, h)
  | inr e ↦ elim (Bool-cases (k.key == x.key)) [
    | inl d ↦ rw (e, d) h
    | inr d ↦ rw (e, d) (h.0, insert_key-All P k xs p h.1)
  ]
]

pub All-lt : (a b : ℕ) (xs : List Keyed) → a < b → All (λ y. b < y.key) xs → All (λ y. a < y.key) xs
All-lt a b [] h all = tt
All-lt a b (x ∷ xs) h all = (omega arith, All-lt a b xs h all.1)

pub insert_key-IsOrdered :
    (k : Keyed) (xs : List Keyed) → IsOrdered xs → IsOrdered (insert_key k xs)
unfolding insert_key
insert_key-IsOrdered k [] h = (tt, tt)
insert_key-IsOrdered k (x ∷ xs) h = elim (Bool-cases (ltb k.key x.key)) [
  | inl e ↦ rw e (let lt : k.key < x.key = ground arith in ((lt, All-lt k.key x.key xs lt h.0), h))
  | inr e ↦ elim (Bool-cases (k.key == x.key)) [
    | inl d ↦ rw (e, d) h
    | inr d ↦
        rw (e, d)
          (
            insert_key-All (λ y. x.key < y.key) k xs (ground arith) h.0,
            insert_key-IsOrdered k xs h.1,
          )
  ]
]

-- An object that is not in the set is put in.
pub insert_key-IsDistinct :
    (k : Keyed) (xs : List Keyed)
    → All (λ y. y.object ≢ k.object) xs
    → IsDistinct xs
    → IsDistinct (insert_key k xs)
unfolding insert_key
insert_key-IsDistinct k [] n h = (tt, tt)
insert_key-IsDistinct k (x ∷ xs) n h = elim (Bool-cases (ltb k.key x.key)) [
  | inl e ↦ rw e (n, h)
  | inr e ↦ elim (Bool-cases (k.key == x.key)) [
    | inl d ↦ rw (e, d) h
    | inr d ↦
        rw (e, d)
          (
            insert_key-All (λ y. y.object ≢ x.object) k xs (λ q. n.0 (sym q)) h.0,
            insert_key-IsDistinct k xs n.1 h.1,
          )
  ]
]

pub insert_key-count_due :
    (now : ℕ) (k : Keyed) (xs : List Keyed)
    → now < k.key
    → count_due now (insert_key k xs) ≡ count_due now xs
unfolding insert_key
insert_key-count_due now k [] h = ground arith
insert_key-count_due now k (x ∷ xs) h = ground (arith, insert_key-count_due now k xs)

pub count_due-zero : (now : ℕ) (xs : List Keyed) → All (λ y. now < y.key) xs → count_due now xs ≡ 0
count_due-zero now [] h = refl
count_due-zero now (x ∷ xs) h = ground (arith, count_due-zero now xs h.1)

module _ {C : Type 0} where
  abbrev pub cb_of : Option (Timer C) → Option C
  cb_of none = none
  cb_of (some t) = t.cb

  -- The callbacks of the timers that are due, soonest first.
  abbrev pub due_cbs : ℕ → Map ℕ (Timer C) → List Keyed → List (Option C)
  due_cbs now objects [] = []
  due_cbs now objects (x ∷ xs) =
      if leb x.key now
      then cb_of (objects x.object) ∷ due_cbs now objects xs
      else due_cbs now objects xs

  pub due_cbs-insert_key :
      (now : ℕ) (objects : Map ℕ (Timer C)) (k : Keyed) (xs : List Keyed)
      → now < k.key
      → due_cbs now objects (insert_key k xs) ≡ due_cbs now objects xs
  unfolding insert_key
  due_cbs-insert_key now objects k [] h = ground arith
  due_cbs-insert_key now objects k (x ∷ xs) h = ground (arith, due_cbs-insert_key now objects k xs)

  pub due_cbs-put :
      (now id : ℕ) (t : Timer C) (objects : Map ℕ (Timer C)) (xs : List Keyed)
      → All (λ y. y.object ≢ id) xs
      → due_cbs now (put objects id t) xs ≡ due_cbs now objects xs
  due_cbs-put now id t objects [] h = refl
  due_cbs-put now id t objects (x ∷ xs) h = ground (arith, h.0, due_cbs-put now id t objects xs h.1)

  pub due_cbs-none :
      (now : ℕ) (objects : Map ℕ (Timer C)) (xs : List Keyed)
      → All (λ y. now < y.key) xs
      → due_cbs now objects xs ≡ []
  due_cbs-none now objects [] h = refl
  due_cbs-none now objects (x ∷ xs) h = ground (arith, due_cbs-none now objects xs h.1)
