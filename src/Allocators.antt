-- ===== src/Allocators.antt =====
-- The memory allocators of src/runtime/allocators.
pub mod Sync
pub mod Caching
