-- ===== src/Examples.antt =====
-- The theorems at concrete inputs, one file for each part.
mod Streams
mod Memory
mod Others
mod Caching
mod Integers
mod Geometry
mod Lru
mod Memops
mod Planner
mod Tasks
