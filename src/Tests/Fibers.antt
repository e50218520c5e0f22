-- ===== src/Tests/Fibers.antt =====
-- Concrete fibers of the earlier library.
use coroutine_library.Prelude.{◌≡◌, refl, true, false, none, some, arith}
use coroutine_library.Prelude.Maps.{put, empty_map, nat_eq}
use coroutine_library.Legacy.Fibers.{
  Fiber, FiberThread, ready, running, resume_fiber, reset_fiber, base_of,
}
use coroutine_library.Legacy.Fibers.Rounds.{CanRun, rounds, Ended, rounds-Ended-resume_fiber}

abbrev main_fiber : Fiber
main_fiber = record {
  state = running;
  in_scheduler = false;
  context = none;
  has_stack = false;
  has_cb = false;
}

abbrev child : Fiber
child = record {
  state = ready;
  in_scheduler = true;
  context = some (record { stack = 1; stamp = 0 });
  has_stack = true;
  has_cb = true;
}

abbrev two_fibers : FiberThread
two_fibers = record {
  fibers = put (put empty_map 0 main_fiber) 1 child;
  this_fiber = some 0;
  thread_fiber = some 0;
  scheduler_fiber = some 0;
  next_id = 2;
  count = 2;
  stack = 0;
  left = put empty_map 1 0;
  stamp = 1;
}

child-CanRun : CanRun 1 0 child main_fiber two_fibers
unfolding base_of
child-CanRun = record {
  found = refl;
  is_ready = refl;
  stamp = 0;
  place = refl;
  left = refl;
  base_is = refl;
  base_found = refl;
  apart = λ e. omega arith;
  away = λ e. omega arith;
}

rounds-Ended-resume_fiber_example :
    (w' : FiberThread) × (rounds 3 1 two_fibers ≡ some w')
    × Ended 1 0 child two_fibers w'
    × (resume_fiber 1 w' ≡ none)
    × (child.has_stack ≡ true
        → (w'' : FiberThread) × (again : Fiber) × (reset_fiber 1 w' ≡ some w'')
          × (w''.fibers 1 ≡ some again)
          × (again.state ≡ ready))
rounds-Ended-resume_fiber_example =
    rounds-Ended-resume_fiber 3 1 0 child main_fiber two_fibers child-CanRun
