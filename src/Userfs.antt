-- ===== src/Userfs.antt =====
-- The in-memory file system of 3/userfs.c.
pub mod State
pub mod Table
pub mod Transfer
pub mod Calls
pub mod Invariant
mod Tests
