-- ===== src/Scheduler/Fetch.antt =====
-- src/scheduler.cpp: what a worker finds in its own two queues, and what the move between them loses.
use coroutine_library.Prelude.{
  ℕ, zero, suc, ◌+◌, ◌≤◌, ◌<◌, ◌≡◌, inl, inr, refl, ap, subst, Option, none, some, List, [], ◌∷◌,
  ◌++◌, append-nil, append_assoc, length, length-append, arith,
}
use coroutine_library.Prelude.Words.{size_mod}
use coroutine_library.Deque.{Deque, capacity, pop, push}
use coroutine_library.Deque.Sequential.{
  Holds, push-Holds, push_full, push-bottom-le, pop-bottom-le, pop-Holds, pop_empty,
}
use coroutine_library.Deque.Runs.{unsnoc, unsnoc-snoc, snoc-cases}
use coroutine_library.Ingress.{Ingress, drain}
use coroutine_library.Scheduler.{RunnableTask, Worker}
use coroutine_library.Scheduler.Take.{push_all, fetch}

-- The first tasks that there is room for.
pub take {ℓ} : {A : Type ℓ} → ℕ → List A → List A
take zero xs = []
take (suc n) [] = []
take (suc n) (x ∷ xs) = x ∷ take n xs

pub take_all {ℓ} : {A : Type ℓ} (n : ℕ) (ys : List A) → length ys ≤ n → take n ys ≡ ys
unfolding take
take_all zero [] h = refl
take_all zero (y ∷ ys) h = elim h [ ]
take_all (suc n) [] h = refl
take_all (suc n) (y ∷ ys) h = ap (◌∷◌ y) (take_all n ys (omega arith))

module _ {T : Type 0} where
  -- Drained tasks go behind those in the deque as long as there is room; the rest are dropped.
  pub push_all-Holds :
      (ys : List (RunnableTask T)) (d : Deque (RunnableTask T)) (xs : List (RunnableTask T)) (n : ℕ)
      → n + length xs ≡ capacity
      → Holds d xs
      → d.bottom + length ys < size_mod
      → Holds (push_all ys d) (xs ++ take n ys)
  unfolding push_all take
  push_all-Holds [] d xs zero e h k = rw append-nil h
  push_all-Holds [] d xs (suc n) e h k = rw append-nil h
  push_all-Holds (y ∷ ys) d xs zero e h k =
      let same = push_full d xs y h (omega arith) in rw same (push_all_full ys d xs (omega arith) h)
    where
      push_all_full :
          (zs : List (RunnableTask T)) (q : Deque (RunnableTask T)) (xs' : List (RunnableTask T))
          → length xs' ≡ capacity
          → Holds q xs'
          → Holds (push_all zs q) (xs' ++ [])
      push_all_full [] q xs' f h' = rw append-nil h'
      push_all_full (z ∷ zs) q xs' f h' = rw (push_full q xs' z h' f) (push_all_full zs q xs' f h')
  push_all-Holds (y ∷ ys) d xs (suc n) e h k =
      let (_, h') = push-Holds d xs y h (omega arith) (omega arith) in
      rw (← append_assoc xs (y ∷ []) (take n ys)) (
        push_all-Holds ys (push (some y) d).1 (xs ++ y ∷ []) n
          (omega (arith, length-append xs (y ∷ []))) h'
          (omega (arith, push-bottom-le d y h.unwrapped)))

-- The deque of the worker holds `xs`, and its ingress queue hands out `ys`.
pub record Contents {D T : Type 0} (w : Worker D T) (xs ys : List (RunnableTask T)) : Type 0 where
  pub local : Holds w.local xs
  pub pending : (drain w.ingress).0 ≡ ys

module _ {T : Type 0} where
  drained : (q : Ingress (RunnableTask T)) → (drain (drain q).1).0 ≡ []
  unfolding drain
  drained q = refl

  -- The contract: the newest task of the deque; with an empty deque the newest of the pending
  -- tasks for which there is room.
  unfoldable pub spec_last :
      Option (List (RunnableTask T) × RunnableTask T)
      → Option (RunnableTask T) × List (RunnableTask T)
  spec_last none = (none, [])
  spec_last (some (rest, task)) = (some task, rest)

  unfoldable pub spec_fetch :
      Option (List (RunnableTask T) × RunnableTask T)
      → List (RunnableTask T)
      → Option (RunnableTask T) × List (RunnableTask T) × List (RunnableTask T)
  unfolding spec_last
  spec_fetch (some (rest, task)) ys = (some task, rest, ys)
  spec_fetch none ys = let r = spec_last (unsnoc (take capacity ys)) in (r.0, r.1, [])

  pop-spec_last :
      (d : Deque (RunnableTask T)) (xs : List (RunnableTask T))
      → Holds d xs
      → ((pop d).0 ≡ (spec_last (unsnoc xs)).0) × Holds (pop d).1 (spec_last (unsnoc xs)).1
  unfolding spec_last
  pop-spec_last d xs h = elim (snoc-cases xs) [
    | inl e ↦ rw e (pop_empty d (rw e at h))
    | inr (ys, y, e) ↦ rw (e, unsnoc-snoc ys y) (pop-Holds d ys y (subst (Holds d) e h))
  ]

module _ {D T : Type 0} where
  pub fetch-hit :
      (w : Worker D T) (task : RunnableTask T) (d : Deque (RunnableTask T))
      → pop w.local ≡ (some task, d)
      → fetch w ≡ (some task, record w { local = d })
  unfolding fetch
  fetch-hit w task d e = rw e

  fetch-miss :
      (w : Worker D T) (d : Deque (RunnableTask T))
      → pop w.local ≡ (none, d)
      → fetch w ≡ (
          let r = pop (push_all (drain w.ingress).0 d) in
          (r.0, record w { local = r.1; ingress = (drain w.ingress).1 }))
  unfolding fetch
  fetch-miss w d e = rw e

  -- The part of `take_task` before the theft, on a worker whose deque holds `xs` and whose ingress
  -- queue holds `ys`, oldest first, where no index wraps. It answers the newest task of a deque that
  -- is not empty, and changes nothing else. With an empty deque it moves the first 65536 pending
  -- tasks there and answers the newest of them; any further pending tasks are lost.
  pub fetch-spec_fetch :
      (w : Worker D T) (xs ys : List (RunnableTask T))
      → Contents w xs ys
      → w.local.bottom + length ys < size_mod
      → (let r = spec_fetch (unsnoc xs) ys in ((fetch w).0 ≡ r.0) × Contents (fetch w).1 r.1 r.2)
  unfolding spec_fetch
  fetch-spec_fetch w xs ys c small = elim (snoc-cases xs) [
    | inl e ↦
        let h : Holds w.local [] = subst (Holds w.local) e c.local in
        let (gone, h') = pop_empty w.local h in
        let d : Deque (RunnableTask T) = (pop w.local).1 in
        let filled =
          push_all-Holds ys d [] capacity refl h' (omega (arith, pop-bottom-le w.local [] h)) in
        let (a, h'') = pop-spec_last (push_all ys d) (take capacity ys) filled in
        rw (e, fetch-miss w d (ap (λ a. (a, (pop w.local).1)) gone), c.pending)
          (a, record { local = h''; pending = drained w.ingress })
    | inr (zs, z, e) ↦
        let h : Holds w.local (zs ++ z ∷ []) = subst (Holds w.local) e c.local in
        let (a, h') = pop-Holds w.local zs z h in
        rw (e, unsnoc-snoc zs z, fetch-hit w z (pop w.local).1 (ap (λ a'. (a', (pop w.local).1)) a))
          (refl, record { local = h'; pending = c.pending })
  ]
