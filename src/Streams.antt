-- ===== src/Streams.antt =====
-- include/kmm/runtime/stream_manager.hpp and src/runtime/stream_manager.cpp: GPU events, sets of
-- them, and the manager that follows which of them have completed.
pub mod Event
pub mod EventSet
pub mod Manager
