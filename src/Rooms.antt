-- ===== src/Rooms.antt =====
-- backend/app/rooms: the room data types, the room instance and the manager of all rooms.
pub mod Types
pub mod CloseCode
pub mod Instance
pub mod Manager
