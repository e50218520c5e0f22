-- ===== src/Ingress.antt =====
-- include/coroutine/work_stealing_deque.h, src/work_stealing_deque.cpp: `IngressQueue`, the list
-- through which other threads hand tasks to a worker.
pub mod Order
use coroutine_library.Prelude.{Bool, true, false, Option, none, some, if◌then◌else◌, List, [], ◌∷◌}

-- `head_` and the nodes that hang from it by `next`, newest first.
pub record Ingress {ℓ} (A : Type ℓ) : Type ℓ where
  pub head : List A
  pub is_closed : Bool

module _ {ℓ} {A : Type ℓ} where
  unfoldable pub empty_ingress : Ingress A
  empty_ingress = record { head = []; is_closed = false }

  -- `push` up to its exchange of `head_`: `none` if it has returned false.
  unfoldable pub push_link : Option A → Ingress A → Option (Ingress A)
  push_link none q = none
  push_link (some task) q = if q.is_closed then none else some (record q { head = task ∷ q.head })

  -- `push` from there on: it looks at `closed_` a second time.
  unfoldable pub push_recheck : Ingress A → Bool
  push_recheck q = if q.is_closed then false else true

  unfoldable pub close : Ingress A → Ingress A
  close q = record q { is_closed = true }

  unfoldable pub closed : Ingress A → Bool
  closed q = q.is_closed

  -- `push`, with what other threads do to the queue between its two halves.
  push_after : (Ingress A → Ingress A) → Ingress A → Option (Ingress A) → Bool × Ingress A
  push_after meanwhile q none = (false, q)
  push_after meanwhile q (some linked) = (push_recheck (meanwhile linked), meanwhile linked)

  unfoldable pub push_with : (Ingress A → Ingress A) → Option A → Ingress A → Bool × Ingress A
  unfolding push_after push_link push_recheck
  push_with meanwhile task q = push_after meanwhile q (push_link task q)

  unfoldable pub push : Option A → Ingress A → Bool × Ingress A
  unfolding push_with
  push = push_with (λ q. q)

  -- The loop of `drain`: each node in turn is put before `reversed`.
  unfoldable pub reverse_onto : List A → List A → List A
  reverse_onto [] reversed = reversed
  reverse_onto (task ∷ next) reversed = reverse_onto next (task ∷ reversed)

  unfoldable pub drain : Ingress A → List A × Ingress A
  unfolding reverse_onto
  drain q = (reverse_onto q.head [], record q { head = [] })
