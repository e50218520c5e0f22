-- ===== src/Legacy.antt =====
-- fiber_lib/6hook: the earlier form of the library, in namespace sylar.
pub mod Timers
pub mod Expiry
pub mod Conditional
pub mod Due
pub mod Collecting
pub mod Ties
pub mod Descriptors
pub mod Threads
pub mod Fibers
pub mod Hooks
pub mod Tasks
pub mod Pool
pub mod EventSets
pub mod Contexts
pub mod IoManager
pub mod Options
