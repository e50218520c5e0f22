-- ===== src/Tests.antt =====
-- Concrete inputs.
mod Queues
mod Managers
mod Pools
mod Files
mod Fibers
mod Hooks
mod Polls
mod Stacks
mod Stops
mod Threads
mod Loop
mod Balancing
mod Coroutines
mod Scheduling
