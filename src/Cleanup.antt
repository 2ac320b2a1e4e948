-- ===== src/Cleanup.antt =====
-- backend/app/cleanup: what becomes of a room that closed, and of uploads that went silent.
pub mod Room
pub mod Reaper
