-- ===== src/Memory.antt =====
-- src/runtime/memory_manager.cpp: buffers with one copy in each memory, the coherence of the
-- copies, and the queue of requests for access to a buffer.
pub mod Types
pub mod Coherence
pub mod AccessQueue
pub mod Lru
