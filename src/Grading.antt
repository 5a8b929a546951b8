-- ===== src/Grading.antt =====
-- grading/: the program that measures a transactional library under load and checks what it does.
pub mod Program
pub mod Atomic
pub mod Transaction
pub mod Shared
pub mod Bank
mod Counting
pub mod Latch
pub mod Chrono
pub mod Measure
pub mod Main
pub mod Sync
pub mod Barrier
