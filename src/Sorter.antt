-- ===== src/Sorter.antt =====
-- The sorting of files by coroutines of 1/main.c.
pub mod Order
pub mod Code
pub mod Merge
pub mod Quick
pub mod File
pub mod Schedule
pub mod Machine
pub mod Program
mod Tests
