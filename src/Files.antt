-- ===== src/Files.antt =====
-- backend/app/files: the reservation ledger and the resumable uploads.
pub mod Uploads
pub mod Transfer
pub mod Ledger
pub mod Responses
pub mod Routes
pub mod StorageFeed
