-- ===== src/Legacy/Fibers.antt =====
-- fiber_lib/6hook/fiber.h, fiber.cpp: the fibers of one thread, and the contexts that `swapcontext`
-- saves and enters. A fiber's stack has the fiber's number; the thread's own stack has the main
-- fiber's. `none` is an assertion that fails, a null pointer, or a switch to a place that its stack
-- has left since. `getcontext` and `malloc` do not fail.
pub mod Rounds
pub mod Nesting
use coroutine_library.Prelude.{
  ℕ, ◌+◌, Bool, true, false, Option, none, some, if◌then◌else◌, ◌==◌, is_some, not, ◌&&◌, ◌||◌,
}
use coroutine_library.Prelude.Maps.{Map, put, empty_map, nat_eq}
use coroutine_library.Prelude.Words.{add64, sub64, size_max}

pub data FiberState : Type 0 where
  ready running term : FiberState

-- A place on a stack at which control can go on: each switch away makes a new one.
pub record Place : Type 0 where
  pub stack : ℕ
  pub stamp : ℕ

-- `m_state`, `m_runInScheduler`, `m_ctx`, and whether there are a stack and a callback.
pub record Fiber : Type 0 where
  pub state : FiberState
  pub in_scheduler : Bool
  pub context : Option Place
  pub has_stack : Bool
  pub has_cb : Bool

-- The thread: the variables `t_fiber`, `t_thread_fiber` and `t_scheduler_fiber`, the counters, the
-- stack that runs, and for each stack that does not the place where it was left.
pub record FiberThread : Type 0 where
  pub fibers : Map ℕ Fiber
  pub this_fiber : Option ℕ
  pub thread_fiber : Option ℕ
  pub scheduler_fiber : Option ℕ
  pub next_id : ℕ
  pub count : ℕ
  pub stack : ℕ
  pub left : Map ℕ ℕ
  pub stamp : ℕ

-- `Fiber()`, with the variables that `GetThis` sets. `m_runInScheduler` is left as memory was.
unfoldable pub new_main : Bool → FiberThread → FiberThread
new_main garbage w = record w {
  fibers = put w.fibers w.next_id (record {
    state = running;
    in_scheduler = garbage;
    context = none;
    has_stack = false;
    has_cb = false;
  });
  this_fiber = some w.next_id;
  thread_fiber = some w.next_id;
  scheduler_fiber = some w.next_id;
  next_id = add64 w.next_id 1;
  count = add64 w.count 1;
}

this_found : Bool → FiberThread → Option ℕ → ℕ × FiberThread
unfolding new_main
this_found garbage w none = (w.next_id, new_main garbage w)
this_found garbage w (some f) = (f, w)

unfoldable pub get_this : Bool → FiberThread → ℕ × FiberThread
unfolding this_found
get_this garbage w = this_found garbage w w.this_fiber

fiber_id_found : Option ℕ → ℕ
fiber_id_found none = size_max
fiber_id_found (some f) = f

unfoldable pub get_fiber_id : FiberThread → ℕ
unfolding fiber_id_found
get_fiber_id w = fiber_id_found w.this_fiber

-- `makecontext`: the next entry of the stack is its beginning.
unfoldable pub make_context : ℕ → Fiber → FiberThread → FiberThread
make_context f fiber w = record w {
  fibers = put w.fibers f (record fiber { context = some (record { stack = f; stamp = w.stamp }) });
  left = put w.left f w.stamp;
  stamp = w.stamp + 1;
}

-- `Fiber(cb, stacksize, run_in_scheduler)`: the new fiber's number. Its stack is 128000 bytes if the
-- size is 0.
unfoldable pub stack_size : ℕ → ℕ
stack_size size = if size == 0 then 128_000 else size

unfoldable pub new_fiber : Bool → FiberThread → ℕ × FiberThread
unfolding make_context
new_fiber in_scheduler w = (
  w.next_id,
  make_context w.next_id
      (record {
        state = ready;
        in_scheduler = in_scheduler;
        context = none;
        has_stack = true;
        has_cb = true;
      })
      (record w { next_id = add64 w.next_id 1; count = add64 w.count 1 }),
)

unfoldable pub is_ready : FiberState → Bool
is_ready ready = true
is_ready _ = false

unfoldable pub is_term : FiberState → Bool
is_term term = true
is_term _ = false

reset_found : ℕ → FiberThread → Option Fiber → Option FiberThread
unfolding make_context is_term
reset_found f w none = none
reset_found f w (some fiber) =
    if fiber.has_stack && is_term fiber.state
    then some (make_context f (record fiber { state = ready; has_cb = true }) w)
    else none

unfoldable pub reset_fiber : ℕ → FiberThread → Option FiberThread
unfolding reset_found
reset_fiber f w = reset_found f w (w.fibers f)

-- The saving half of `swapcontext`: the running stack's place goes into a fiber's context.
save_found : ℕ → FiberThread → Option Fiber → Option FiberThread
save_found b w none = none
save_found b w (some fiber) = some (record w {
  fibers =
      put w.fibers b
        (record fiber { context = some (record { stack = w.stack; stamp = w.stamp }) });
  left = put w.left w.stack w.stamp;
  stamp = w.stamp + 1;
})

-- The entering half: the place must be where its stack was left last.
abbrev is_at : ℕ → Option ℕ → Bool
is_at n none = false
is_at n (some m) = n == m

enter_place : FiberThread → Option Place → Option FiberThread
enter_place w none = none
enter_place w (some p) =
    if is_at p.stamp (w.left p.stack) then some (record w { stack = p.stack }) else none

enter_found : FiberThread → Option Fiber → Option FiberThread
unfolding enter_place
enter_found w none = none
enter_found w (some fiber) = enter_place w fiber.context

then_enter : ℕ → Option FiberThread → Option FiberThread
unfolding enter_found
then_enter f none = none
then_enter f (some w) = enter_found w (w.fibers f)

-- `swapcontext(&b->m_ctx, &f->m_ctx)`.
unfoldable pub swap_context : ℕ → ℕ → FiberThread → Option FiberThread
unfolding save_found then_enter
swap_context b f w = then_enter f (save_found b w (w.fibers b))

swap_into : ℕ → FiberThread → Option ℕ → Option FiberThread
unfolding swap_context
swap_into f w none = none
swap_into f w (some b) = swap_context b f w

-- The fiber to which control goes back.
unfoldable pub base_of : Fiber → FiberThread → Option ℕ
base_of fiber w = if fiber.in_scheduler then w.scheduler_fiber else w.thread_fiber

resume_found : ℕ → FiberThread → Option Fiber → Option FiberThread
unfolding is_ready swap_into base_of
resume_found f w none = none
resume_found f w (some fiber) =
    let w' = record w {
      fibers = put w.fibers f (record fiber { state = running });
      this_fiber = some f;
    } in
    if is_ready fiber.state then swap_into f w' (base_of fiber w) else none

unfoldable pub resume_fiber : ℕ → FiberThread → Option FiberThread
unfolding resume_found
resume_fiber f w = resume_found f w (w.fibers f)

swap_out : ℕ → FiberThread → Option ℕ → Option FiberThread
unfolding swap_context
swap_out f w none = none
swap_out f w (some b) = swap_context f b (record w { this_fiber = some b })

yield_found : ℕ → FiberThread → Option Fiber → Option FiberThread
unfolding is_ready is_term swap_out base_of
yield_found f w none = none
yield_found f w (some fiber) =
    let w' = record w {
      fibers =
          put w.fibers f (record fiber { state = if is_term fiber.state then term else ready });
    } in
    if not (is_ready fiber.state) then swap_out f w' (base_of fiber w) else none

unfoldable pub yield_fiber : ℕ → FiberThread → Option FiberThread
unfolding yield_found
yield_fiber f w = yield_found f w (w.fibers f)

finish_found : ℕ → FiberThread → Option Fiber → Option FiberThread
unfolding yield_fiber
finish_found f w none = none
finish_found f w (some fiber) =
    yield_fiber f
      (record w { fibers = put w.fibers f (record fiber { state = term; has_cb = false }) })

-- The end of `MainFunc`, when the callback of the fiber that it found at its start has returned.
unfoldable pub finish_fiber : ℕ → FiberThread → Option FiberThread
unfolding finish_found
finish_fiber f w = finish_found f w (w.fibers f)

-- `~Fiber`.
unfoldable pub destroy_fiber : ℕ → FiberThread → FiberThread
destroy_fiber f w = record w { count = sub64 w.count 1 }
