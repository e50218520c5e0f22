-- ===== src/Ingress/Order.antt =====
-- src/work_stealing_deque.cpp: the order in which tasks leave the ingress queue, and what a
-- `close` between the halves of a `push` does.
use mathlib.Core.List.{reverse, reverse-cons}
use coroutine_library.Prelude.{
  ◌≡◌, refl, sym, ◌∙◌, ap, Bool, true, false, some, List, [], ◌∷◌, ◌++◌, append-nil, append_assoc,
}
use coroutine_library.Ingress.{
  Ingress, empty_ingress, push, push_with, push_link, close, reverse_onto, drain,
}

pub data Call {ℓ} (A : Type ℓ) : Type ℓ where
  pushes : A → Call A
  drains closes : Call A

-- What was accepted and what has come out, oldest first.
pub record Log {ℓ} (A : Type ℓ) : Type ℓ where
  pub accepted : List A
  pub delivered : List A
  pub queue : Ingress A

module _ {ℓ} {A : Type ℓ} where
  reverse_onto-append : (xs ys : List A) → reverse_onto xs ys ≡ reverse xs ++ ys
  unfolding reverse_onto
  reverse_onto-append [] ys = refl
  reverse_onto-append (x ∷ xs) ys =
      reverse_onto-append xs (x ∷ ys) ∙ simp (reverse-cons, append_assoc)

  pub drain-reverse : (q : Ingress A) → (drain q).0 ≡ reverse q.head
  unfolding drain
  drain-reverse q = reverse_onto-append q.head [] ∙ append-nil (reverse q.head)

  log_push : A → Log A → Bool × Ingress A → Log A
  log_push x l (true, q) = record l { accepted = l.accepted ++ x ∷ []; queue = q }
  log_push x l (false, q) = record l { queue = q }

  pub step : Call A → Log A → Log A
  unfolding log_push
  step (pushes x) l = log_push x l (push (some x) l.queue)
  step drains l = let r = drain l.queue in record l { delivered = l.delivered ++ r.0; queue = r.1 }
  step closes l = record l { queue = close l.queue }

  pub run : List (Call A) → Log A → Log A
  run [] l = l
  run (c ∷ cs) l = run cs (step c l)

  pub initial : Log A
  initial = record { accepted = []; delivered = []; queue = empty_ingress }

  abbrev Balanced : Log A → Type ℓ
  Balanced l = l.delivered ++ reverse l.queue.head ≡ l.accepted

  push-Balanced :
      (x : A) (l : Log A) (b : Bool)
      → l.queue.is_closed ≡ b
      → Balanced l
      → Balanced (step (pushes x) l)
  unfolding step push
  push-Balanced x l true e h = rw (e, push_link, log_push) h
  push-Balanced x l false e h =
      rw (e, push_link, log_push)
        (simp reverse-cons (
          sym (append_assoc l.delivered (reverse l.queue.head) (x ∷ []))
          ∙ ap (λ (xs : List A). xs ++ x ∷ []) h))

  step-Balanced : (c : Call A) (l : Log A) → Balanced l → Balanced (step c l)
  unfolding step
  step-Balanced (pushes x) l h = push-Balanced x l l.queue.is_closed refl h
  step-Balanced drains l h = unfold drain in rw reverse_onto-append (simp append-nil h)
  step-Balanced closes l h = unfold close in h

  run-Balanced : (cs : List (Call A)) (l : Log A) → Balanced l → Balanced (run cs l)
  unfolding run
  run-Balanced [] l h = h
  run-Balanced (c ∷ cs) l h = run-Balanced cs (step c l) (step-Balanced c l h)

  -- After any pushes, drains and closes, one at a time: the tasks of all drains in turn, and then
  -- those still in the queue, are the tasks that were accepted, in that order.
  pub run-fifo :
      (cs : List (Call A))
      → (run cs initial).delivered ++ reverse (run cs initial).queue.head
        ≡ (run cs initial).accepted
  run-fifo cs = run-Balanced cs initial (unfold initial empty_ingress in refl)

  push_with-close_eq :
      (x : A) (q : Ingress A)
      → q.is_closed ≡ false
      → push_with close (some x) q ≡ (false, record { head = x ∷ q.head; is_closed = true })
  unfolding push_with close
  push_with-close_eq x q e = rw (e, push_link) refl

  -- A `close` between the two halves of a push on an open queue: the push answers false, and the
  -- task is in the queue all the same, so the next drain hands it out last.
  pub push_with-close :
      (x : A) (q : Ingress A)
      → q.is_closed ≡ false
      → ((push_with close (some x) q).0 ≡ false)
        × ((drain (push_with close (some x) q).1).0 ≡ (drain q).0 ++ x ∷ [])
  push_with-close x q e = rw (push_with-close_eq x q e) (refl, simp (drain-reverse, reverse-cons))

  pub push-open :
      (x : A) (q : Ingress A)
      → q.is_closed ≡ false
      → push (some x) q ≡ (true, record q { head = x ∷ q.head })
  unfolding push
  push-open x q e = rw (e, push_link) refl

  pub push-closed : (x : A) (q : Ingress A) → q.is_closed ≡ true → push (some x) q ≡ (false, q)
  unfolding push
  push-closed x q e = rw (e, push_link) refl

  pub drain-cons :
      (x : A) (q : Ingress A) → (drain (record q { head = x ∷ q.head })).0 ≡ (drain q).0 ++ x ∷ []
  drain-cons x q = simp (drain-reverse, reverse-cons)
