-- ===== src/Util.antt =====
-- The helpers of backend/app/util.
pub mod Sanitize
pub mod Decimal
pub mod Utf8
