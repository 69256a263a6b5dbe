-- ===== src/Libcoro.antt =====
-- The coroutine library of lecture_examples/4_signals/12_libcoro.c.
pub mod State
pub mod Calls
pub mod Chain
pub mod Heaps
pub mod Running
pub mod Waiting
pub mod Creation
mod Tests
