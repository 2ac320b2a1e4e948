-- ===== src/Storage.antt =====
-- backend/app/storage: the clock, the disk and memory figures, and the file store.
pub mod Timers
pub mod Budget
pub mod Memory
pub mod FileStore
