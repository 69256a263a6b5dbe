-- ===== src/Locks.antt =====
-- lecture_examples/6_threads: a lock by futex, and a condition variable.
pub mod Sums
mod Tests
pub mod Futex
pub mod Condvar
