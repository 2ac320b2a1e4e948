-- ===== src/Collab.antt =====
-- backend/app/collab: the registry of a room's documents and the binary frames.
pub mod Registry
pub mod Sync
