-- ===== src/Sync.antt =====
-- The blocking primitives of the kernel.
pub mod WaitQueue
pub mod Rwlock
pub mod Mutex
