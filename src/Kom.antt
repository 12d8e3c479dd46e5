-- ===== src/Kom.antt =====
-- The kernel object model: archs/kom/common.
pub mod Object
pub mod Handle
pub mod Error
pub mod Channel
pub mod Container
pub mod Port
pub mod Event
pub mod Blob
pub mod System
pub mod Syscall
pub mod Names
