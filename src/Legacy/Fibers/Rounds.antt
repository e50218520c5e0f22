-- ===== src/Legacy/Fibers/Rounds.antt =====
-- fiber_lib/6hook/fiber.cpp: a fiber that is resumed, yields any number of times, and ends.
use coroutine_library.Prelude.{
  ℕ, zero, suc, ◌+◌, ◌≡◌, ◌≢◌, refl, sym, ap, ◌∙◌, Bool, true, false, Option, none, some, arith,
}
use coroutine_library.Prelude.Maps.{put, nat_eq}
use coroutine_library.Legacy.Fibers.{
  FiberState, ready, running, term, Fiber, FiberThread, base_of, resume_found, resume_fiber,
  yield_fiber, finish_fiber, reset_fiber, make_context, make_context,
}

-- Fiber `f` is ready at the place where its stack was left, and its base `b`, another fiber, is
-- there; another stack runs.
pub record CanRun (f b : ℕ) (fiber base : Fiber) (w : FiberThread) : Type 0 where
  pub found : w.fibers f ≡ some fiber
  pub is_ready : fiber.state ≡ ready
  pub stamp : ℕ
  pub place : fiber.context ≡ some (record { stack = f; stamp = stamp })
  pub left : w.left f ≡ some stamp
  pub base_is : base_of fiber w ≡ some b
  pub base_found : w.fibers b ≡ some base
  pub apart : b ≢ f
  pub away : w.stack ≢ f

module _ (f b : ℕ) (fiber base : Fiber) (w : FiberThread) where
  abbrev pub saved : Fiber
  saved = record base { context = some (record { stack = w.stack; stamp = w.stamp }) }

  abbrev pub resumed : FiberThread
  resumed = record w {
    fibers = put (put w.fibers f (record fiber { state = running })) b saved;
    this_fiber = some f;
    stack = f;
    left = put w.left w.stack w.stamp;
    stamp = w.stamp + 1;
  }

  pub resume_fiber-resumed : CanRun f b fiber base w → resume_fiber f w ≡ some resumed
  unfolding resume_fiber resume_found
  resume_fiber-resumed c =
      ground (arith, c.found, c.is_ready, c.place, c.left, c.base_is, c.base_found, c.apart, c.away)

  -- The fiber when it has left again, and the thread then.
  abbrev pub gone : FiberState → Bool → Fiber
  gone s has_cb = record fiber {
    state = s;
    has_cb = has_cb;
    context = some (record { stack = f; stamp = w.stamp + 1 });
  }

  abbrev pub yielded : FiberThread
  yielded = record resumed {
    fibers =
        put (put resumed.fibers f (record fiber { state = ready })) f (gone ready fiber.has_cb);
    this_fiber = some b;
    stack = w.stack;
    left = put resumed.left f (w.stamp + 1);
    stamp = w.stamp + 1 + 1;
  }

  abbrev finished : FiberThread
  finished = record resumed {
    fibers =
        put
          (put (put resumed.fibers f (record fiber { state = term; has_cb = false })) f
            (record fiber { state = term; has_cb = false }))
          f (gone term false);
    this_fiber = some b;
    stack = w.stack;
    left = put resumed.left f (w.stamp + 1);
    stamp = w.stamp + 1 + 1;
  }

  -- What is the same in two threads of fibers, but for the contexts of `f` and `b`.
  pub record Back (s : FiberState) (w' : FiberThread) : Type 0 where
    stack : w'.stack ≡ w.stack
    this_fiber : w'.this_fiber ≡ some b
    base_kept : w'.fibers b ≡ some saved
    scheduler_fiber : w'.scheduler_fiber ≡ w.scheduler_fiber
    thread_fiber : w'.thread_fiber ≡ w.thread_fiber
    others : (g : ℕ) → g ≢ f → g ≢ b → w'.fibers g ≡ w.fibers g
    stamp : ℕ
    left : w'.left f ≡ some stamp
    has_cb : Bool
    self :
        w'.fibers f
        ≡ some (record fiber {
          state = s;
          context = some (record { stack = f; stamp = stamp });
          has_cb = has_cb;
        })

  pub yield_fiber-Back :
      CanRun f b fiber base w → (yield_fiber f resumed ≡ some yielded) × Back ready yielded
  unfolding yield_fiber base_of
  yield_fiber-Back c = (
    ground (arith, c.found, c.is_ready, c.base_is, c.base_found, c.apart, c.away),
    record {
      stack = refl;
      this_fiber = refl;
      base_kept = ground (arith, c.apart);
      scheduler_fiber = refl;
      thread_fiber = refl;
      others = λ g p q. ground arith;
      stamp = w.stamp + 1;
      left = ground arith;
      has_cb = fiber.has_cb;
      self = ground arith;
    },
  )

  finish_fiber-Back :
      CanRun f b fiber base w → (finish_fiber f resumed ≡ some finished) × Back term finished
  unfolding finish_fiber yield_fiber base_of
  finish_fiber-Back c = (
    ground (arith, c.found, c.is_ready, c.base_is, c.base_found, c.apart, c.away),
    record {
      stack = refl;
      this_fiber = refl;
      base_kept = ground (arith, c.apart);
      scheduler_fiber = refl;
      thread_fiber = refl;
      others = λ g p q. ground arith;
      stamp = w.stamp + 1;
      left = ground arith;
      has_cb = false;
      self = ground arith;
    },
  )

  -- A fiber that has yielded can run again, on the same base.
  Back-CanRun :
      (w' : FiberThread) (k : Back ready w')
      → CanRun f b fiber base w
      → CanRun f b
          (record fiber {
            context = some (record { stack = f; stamp = k.stamp });
            has_cb = k.has_cb;
          })
          saved
          w'
  unfolding base_of
  Back-CanRun w' k c = record {
    found =
        k.self
        ∙ ap some (
            ap
              (λ s. record fiber {
                state = s;
                context = some (record { stack = f; stamp = k.stamp });
                has_cb = k.has_cb;
              })
              (sym c.is_ready));
    is_ready = c.is_ready;
    stamp = k.stamp;
    place = refl;
    left = k.left;
    base_is = ground (arith, c.base_is, k.scheduler_fiber, k.thread_fiber);
    base_found = k.base_kept;
    apart = c.apart;
    away = λ e. c.away (sym k.stack ∙ e);
  }

then_run : (FiberThread → Option FiberThread) → Option FiberThread → Option FiberThread
then_run k none = none
then_run k (some w) = k w

-- The fiber is resumed and yields, so many times; then it is resumed and its callback returns.
pub rounds : ℕ → ℕ → FiberThread → Option FiberThread
unfolding then_run
rounds zero f w = then_run (finish_fiber f) (resume_fiber f w)
rounds (suc n) f w = then_run (rounds n f) (then_run (yield_fiber f) (resume_fiber f w))

-- What a fiber that has ended leaves behind.
pub record Ended (f b : ℕ) (fiber : Fiber) (w w' : FiberThread) : Type 0 where
  pub stack : w'.stack ≡ w.stack
  pub this_fiber : w'.this_fiber ≡ some b
  pub others : (g : ℕ) → g ≢ f → g ≢ b → w'.fibers g ≡ w.fibers g
  pub last : Fiber
  pub self : w'.fibers f ≡ some last
  pub is_term : last.state ≡ term
  pub has_stack : last.has_stack ≡ fiber.has_stack

rounds-Ended :
    (n f b : ℕ) (fiber base : Fiber) (w : FiberThread)
    → CanRun f b fiber base w
    → (w' : FiberThread) × (rounds n f w ≡ some w') × Ended f b fiber w w'
unfolding rounds
rounds-Ended zero f b fiber base w c =
    let (e, k) = finish_fiber-Back f b fiber base w c in
    (
      finished f b fiber base w,
      ap (then_run (finish_fiber f)) (resume_fiber-resumed f b fiber base w c) ∙ e,
      record {
        stack = k.stack;
        this_fiber = k.this_fiber;
        others = k.others;
        last = record fiber {
          state = term;
          context = some (record { stack = f; stamp = k.stamp });
          has_cb = k.has_cb;
        };
        self = k.self;
        is_term = refl;
        has_stack = refl;
      },
    )
rounds-Ended (suc n) f b fiber base w c =
    let (e, k) = yield_fiber-Back f b fiber base w c in
    let w1 : FiberThread = yielded f b fiber base w in
    let (w', e', d) = rounds-Ended n f b _ _ w1 (Back-CanRun f b fiber base w w1 k c) in
    (
      w',
      ap (λ o. then_run (rounds n f) (then_run (yield_fiber f) o))
            (resume_fiber-resumed f b fiber base w c)
          ∙ ap (then_run (rounds n f)) e
          ∙ e',
      record {
        stack = d.stack ∙ k.stack;
        this_fiber = d.this_fiber;
        others = λ g p q. d.others g p q ∙ k.others g p q;
        last = d.last;
        self = d.self;
        is_term = d.is_term;
        has_stack = d.has_stack;
      },
    )

-- A fiber that is ready at its place, with a base that is another fiber and another stack running:
-- it may be resumed and yield any number of times and then be resumed and end. Control is then where
-- it was before, the base is the current fiber, all fibers but the two are as they were, and the
-- fiber has ended: a further `resume` fails its assertion, and `reset` makes it ready if it has a
-- stack.
pub rounds-Ended-resume_fiber :
    (n f b : ℕ) (fiber base : Fiber) (w : FiberThread)
    → CanRun f b fiber base w
    → (w' : FiberThread) × (rounds n f w ≡ some w')
      × Ended f b fiber w w'
      × (resume_fiber f w' ≡ none)
      × (fiber.has_stack ≡ true
          → (w'' : FiberThread) × (again : Fiber) × (reset_fiber f w' ≡ some w'')
            × (w''.fibers f ≡ some again)
            × (again.state ≡ ready))
unfolding resume_fiber reset_fiber make_context
rounds-Ended-resume_fiber n f b fiber base w c =
    let (w', e, d) = rounds-Ended n f b fiber base w c in
    let over : resume_fiber f w' ≡ none = ground (arith, d.self, d.is_term) in
    (
      w',
      e,
      d,
      over,
      λ h. (
        make_context f (record d.last { state = ready; has_cb = true }) w',
        record d.last {
          state = ready;
          has_cb = true;
          context = some (record { stack = f; stamp = w'.stamp });
        },
        ground (arith, d.self, d.is_term, d.has_stack),
        ground arith,
        refl,
      ),
    )
