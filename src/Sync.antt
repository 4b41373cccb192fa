-- ===== src/Sync.antt =====
-- kernel/sync and include/mcs_sync.h: the lock-order checker, the owner mutex and the spinlock.
pub mod Lockdep
pub mod System
pub mod Mutex
pub mod Spinlock
