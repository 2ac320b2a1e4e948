-- ===== src/Http.antt =====
-- What stands around the endpoints: backend/app/security.py.
pub mod Security
