-- ===== src/Lib.antt =====
-- The coroutine runtime: include/coroutine and src. A program hands tasks to a scheduler, which
-- chooses a worker thread for each by the load balancer's strategy. A task goes through the worker's
-- ingress queue, which any thread may push to, into the worker's deque, from which the worker pops
-- and other workers steal. A worker with no task runs its event loop: timers that have expired and
-- callbacks of descriptors that are ready, most of which submit a coroutine that waits for them. A
-- coroutine runs on its own stack and gives control back by yield, wait or its end. A collector
-- samples the loads of the workers.
--
-- Parts, and the code each is about:
--   Prelude        shared names; lists, maps, integers and words of 64 bits
--   Events         include/coroutine/event_loop.h: events, results, reasons for a cancellation
--   Floats         the operations of `double` that the runtime uses, as an interface
--   Config         include/coroutine/config.h, src/config.cpp
--   LoadBalancer   include/coroutine/load_balancer.h, src/load_balancer.cpp
--   Metrics        include/coroutine/metrics.h, src/metrics_collector.cpp
--   Deque, Ingress include/coroutine/work_stealing_deque.h, src/work_stealing_deque.cpp
--   Scheduler      include/coroutine/scheduler.h, src/scheduler.cpp
--   FdRegistry     include/coroutine/fd_registry.h, src/fd_registry.cpp
--   TimerQueue     include/coroutine/timer_queue.h, src/timer_queue.cpp
--   EventLoop      include/coroutine/event_loop.h, src/event_loop.cpp
--   Coroutine      include/coroutine/coroutine.h, src/coroutine.cpp, and the task that
--                  `Scheduler::submit_coroutine` makes
--   StackAllocator include/coroutine/stack_allocator.h, src/stack_allocator.cpp
--   Hook           include/coroutine/hook.h, src/hook.cpp
--   Poll           src/poll_hook.cpp
--   SocketHooks    src/socket_hooks.cpp
--   CpuAffinity    include/coroutine/cpu_affinity.h, src/cpu_affinity.cpp
--   Legacy         fiber_lib/6hook, the library's earlier form:
--     Timers, Expiry, Due, Collecting, Ties,
--     Conditional                              timer.h, timer.cpp
--     Descriptors                              fd_manager.h, fd_manager.cpp
--     Threads                                  thread.h, thread.cpp
--     Fibers                                   fiber.h, fiber.cpp
--     Tasks, Pool                              scheduler.h, scheduler.cpp
--     EventSets, Contexts, IoManager           ioscheduler.h, ioscheduler.cpp
--     Hooks, Options                           hook.h, hook.cpp
--   Tests          concrete inputs
--
-- A class is a record of its fields and a method is a function to its answer and the new record. A
-- method that holds a mutex is one step. The deque is there twice: with each method as one step,
-- which the scheduler's model uses, and in Deque/Threads with each access to shared memory as one
-- step, the owner and any number of thieves interleaved. The ingress queue's push is two steps with
-- any other calls between them, since it reads the closed flag twice. An exception that leaves a
-- method, and an access out of bounds, is `none`.
--
-- `std::size_t` is a natural number with its wrap-around at 2 ^ 64. Clocks are arguments, in
-- nanoseconds from the clock's epoch, and do not wrap; durations are counts. The priority queue of
-- timers is a list by deadline; the order of two timers with one deadline is not fixed by the
-- standard, and the model has the order of their `add`. `double` is an interface of operations with
-- the laws of its comparisons, NaN included; fixed-point numbers show that the laws can hold.
-- Answers of the kernel (epoll_ctl, epoll_wait) and the number of processors are arguments.
-- `swapcontext` switches contexts as documented and does not fail. The loop of a worker has one
-- clock reading for each round as its fuel: a stopped worker needs as many as its deque has tasks.
-- The loop over expired timers of the earlier library has a number of turns as fuel, since it need
-- not end: with recurring timers that do not fall due again, as many turns as timers are due are
-- enough. The loops that retry after EINTR go down the list of answers that the kernel gives, and
-- the other loops go down a list.
--
-- In the earlier library `none` is a failed assertion, a null pointer that is used or an index out
-- of bounds. Its fibers and timers are numbers under which a map has their fields; a pointer to one
-- is its number. The directories 1thread to 5iomanager hold earlier copies of the files of 6hook.
--
-- Not modelled: memory orders weaker than sequential consistency; what a task does to the scheduler
-- that runs it; condition variables; `dlsym` and the buffers of the interposed calls; of the
-- earlier library, `join` and `detach` of `Thread`, the destructor of its I/O manager, and
-- `getsockopt`; the echo servers of fiber_lib and what their builds generate.
pub mod Prelude
pub mod Events
pub mod Floats
pub mod Config
pub mod LoadBalancer
pub mod Metrics
pub mod Scheduler
pub mod FdRegistry
pub mod EventLoop
pub mod Coroutine
pub mod CpuAffinity
pub mod StackAllocator
pub mod Hook
pub mod Poll
pub mod SocketHooks
pub mod Legacy
pub mod Deque
pub mod Ingress
pub mod TimerQueue
mod Tests
