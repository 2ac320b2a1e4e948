-- ===== src/Ws.antt =====
-- backend/app/ws: the control messages of a joined socket, and its departure.
pub mod Session
pub mod Joining
pub mod Events
pub mod Endpoint
pub mod Messages
pub mod Heartbeat
pub mod Binary
