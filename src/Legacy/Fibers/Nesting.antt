-- ===== src/Legacy/Fibers/Nesting.antt =====
-- fiber_lib/6hook/fiber.cpp: a fiber that resumes another one with the same base.
use coroutine_library.Prelude.{ℕ, ◌≡◌, refl, sym, subst, ◌∙◌, none, some, arith}
use coroutine_library.Prelude.Maps.{nat_eq}
use coroutine_library.Legacy.Fibers.{
  Fiber, FiberThread, base_of, resume_fiber, yield_fiber, finish_fiber,
}
use coroutine_library.Legacy.Fibers.Rounds.{
  CanRun, resumed, yielded, resume_fiber-resumed, yield_fiber-Back,
}

from_some : {A : Type 0} (x y : A) → some x ≡ some y → x ≡ y
from_some x y e = cc

abbrev Strays : ℕ → ℕ → ℕ → FiberThread → Type 0
Strays a b c w1 =
    (w2 : FiberThread) × (w3 : FiberThread) × (resume_fiber c w1 ≡ some w2)
    × (yield_fiber c w2 ≡ some w3)
    × (w3.stack ≡ a)
    × (w3.this_fiber ≡ some b)
    × (finish_fiber a w3 ≡ none)

strays :
    (a b c : ℕ) (outer inner base base' : Fiber) (w : FiberThread)
    → CanRun a b outer base w
    → CanRun c b inner base' (resumed a b outer base w)
    → Strays a b c (resumed a b outer base w)
unfolding finish_fiber yield_fiber base_of
strays a b c outer inner base base' w p q =
    let w1 : FiberThread = resumed a b outer base w in
    (
      resumed c b inner base' w1,
      yielded c b inner base' w1,
      resume_fiber-resumed c b inner base' w1 q,
      (yield_fiber-Back c b inner base' w1 q).0,
      refl,
      refl,
      ground (arith, p.apart, p.base_is, q.away, q.apart),
    )

-- Fiber `a` is resumed and resumes fiber `c`, which has the same base and yields. Control comes back
-- to `a`, but the base is the current fiber, and its context is now a place in `a`: when `a` ends,
-- control does not get back to the base, since that place has been left.
pub resume_fiber-finish_fiber :
    (a b c : ℕ) (outer inner base base' : Fiber) (w w1 : FiberThread)
    → CanRun a b outer base w
    → resume_fiber a w ≡ some w1
    → CanRun c b inner base' w1
    → (w2 : FiberThread) × (w3 : FiberThread) × (resume_fiber c w1 ≡ some w2)
      × (yield_fiber c w2 ≡ some w3)
      × (w3.stack ≡ a)
      × (w3.this_fiber ≡ some b)
      × (finish_fiber a w3 ≡ none)
resume_fiber-finish_fiber a b c outer inner base base' w w1 p e q =
    let same : resumed a b outer base w ≡ w1 =
      from_some (resumed a b outer base w) w1 (sym (resume_fiber-resumed a b outer base w p) ∙ e) in
    subst (Strays a b c) same
      (strays a b c outer inner base base' w p (subst (CanRun c b inner base') (sym same) q))
