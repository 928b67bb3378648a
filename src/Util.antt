-- ===== src/Util.antt =====
-- src/util: the hash functions, the thread wrapper and the locks.
pub mod Hash
pub mod Thread
pub mod Locks
mod Tests
