-- ===== src/Rooms/CloseCode.antt =====
-- `CloseCode` of backend/app/rooms/types.py: why a socket was dropped.
use ephemeral_rooms.Prelude.{ℕ}

abbrev pub room_closing : ℕ
room_closing = 4000

abbrev pub room_full : ℕ
room_full = 4001

abbrev pub heartbeat_timeout : ℕ
heartbeat_timeout = 4002

abbrev pub server_shutdown : ℕ
server_shutdown = 4003

abbrev pub protocol_abuse : ℕ
protocol_abuse = 4004

abbrev pub replaced_by_resume : ℕ
replaced_by_resume = 4005
