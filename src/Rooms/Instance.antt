-- ===== src/Rooms/Instance.antt =====
-- `RoomInstance` of backend/app/rooms/instance.py. Methods that mutate the room return the new
-- room; what they ask of the event loop (a socket to close, a handover to the manager) is a value.
pub mod State
pub mod Join
pub mod Depart
pub mod Broadcast
pub mod Timers
pub mod Presence
pub mod Invariant
pub mod Members
pub mod Keeps
pub mod Admission
pub mod Lifecycle
pub mod Closing
pub mod Identity
pub mod Refresh
pub mod Capacity
