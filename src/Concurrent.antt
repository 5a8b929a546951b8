-- ===== src/Concurrent.antt =====
-- 335740/tm.c under concurrency: the threads' accesses to shared memory, interleaved in any order.
pub mod Thread
pub mod System
pub mod Locks
pub mod Versions
pub mod Reads
pub mod Snapshot
pub mod Past
pub mod AsOf
pub mod Commit
pub mod Serial
pub mod Anomaly
pub mod Safety
mod Examples
