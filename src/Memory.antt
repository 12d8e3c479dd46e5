-- ===== src/Memory.antt =====
-- Kernel memory: archs/memory.
pub mod Arena
pub mod Words
pub mod Slab
pub mod Heap
pub mod Guarded
