-- ===== src/Lib.antt =====
-- Ephemeral Rooms: rooms that live as long as somebody is in them, with shared documents and files.
--
-- The backend (backend/app) keeps every room in memory. A visit to a four-digit code reaches the
-- manager (rooms/manager.py), which finds or creates the room's instance (rooms/instance.py); a
-- socket joins the instance and becomes a user of it, or takes over the user whose session token it
-- presents. A user whose socket drops keeps its place for a grace period; a room with nobody
-- connected closes after another one, through a one-way door: its code is freed first, and its
-- directory is removed later by a cleanup task. Uploads (files/uploads.py) reserve their bytes in a
-- ledger (files/reservations.py), land in a part file of the room's directory (storage/fs.py), and
-- become a file when complete.
--
-- The modules, and what they model:
--   Prelude     Boolean tests, lists over native numbers, texts as lists of code points, integers.
--   Dict        Python's dict with text keys, as an association list in insertion order.
--   Config      the settings of config.py that the modelled code reads, and in Validation their
--               validators.
--   Util        Sanitize: util/sanitize.py; Decimal: Python's `int` of a text; Utf8: its UTF-8.
--   Storage     Timers: SystemClock.schedule and AsyncioTimer, with callbacks as data; FileStore:
--               LocalFileStore, a tree of bytes by instance id; Budget: BudgetedDiskSpace; Memory:
--               storage/memory.py, its guard, and in Probes what it reads of the system.
--   Rooms       Types: rooms/types.py; Instance: RoomInstance, its state in State, `join` in Join,
--               `mark_disconnected`, `remove_user` and the timer callbacks in Depart; Manager:
--               RoomManager, with `allocate_code` in Manager/Codes, and in Manager/Steps
--               the life of all its rooms, where a cleanup task may do anything to the object of
--               its own room but change its code and id.
--   Collab      Registry: collab/registry.py, with pycrdt's document as a parameter, and in Listing
--               the list that a client sees of it; Sync: the frames of collab/sync.py.
--   Files       Ledger: files/reservations.py; Uploads and Transfer: files/uploads.py; Routes: the
--               endpoints of files/routes.py, with the range header in Range and the header of a
--               download in Disposition; Responses: what they answer; StorageFeed:
--               files/storage_feed.py.
--   Ws          Joining: `handle_join`, Session: `handle_message`, the operations behind it, and
--               `leave`, and Binary: `handle_binary`, `_subscribe` and the capacity warnings, of
--               ws/connection.py; Messages: ws/messages.py; Events: ws/events.py; Endpoint: the
--               receive loop of ws/routes.py; Heartbeat: ws/heartbeat.py.
--   Http        Security: security.py.
--   Cleanup     Room: cleanup/room.py; Reaper: `sweep_once` of cleanup/reaper.py.
--   Server      the assembly of the services in deps.py, and the start in main.py.
--   Tests       examples, one for each result that has conditions.
--
-- State is passed explicitly: a method is a function from the object's state to the new one and the
-- method's result. The time, random values and the disk's figures are arguments. An exception is a
-- value of the result type. A connection is a number, a socket's identity; whether it is open is
-- asked of the environment. A room's timers are the pending entries of its clock, each with a handle
-- that is never used again and the time it is due; `fire` is the moment when one runs. A room and an
-- upload's record are objects that several tasks hold, so they stand in stores by id.
--
-- Every function is structurally recursive. The draws of a room code are bounded as in the source,
-- by 200, and the scan behind them by the 9000 codes there are; the attempts at a directory by
-- MAX_ATTEMPTS, as in the source. A loop over a socket's frames or over the pieces of a body runs
-- over the list of those that come. The heartbeat's loop takes the number of its rounds; as many as
-- the timeout has milliseconds, and one more, end it where the user is silent.
--
-- An operation of an upload, a cleanup, a sweep and a frame each run as one step. While a
-- reservation waits for the disk's figure, transfers run, which Files/Ledger/Locking models for
-- uploads that one request at a time writes to; two writes to one upload that overlap are those of
-- Files/Transfer/Overlap, where the second has seen an older record. Sizes of files are natural numbers, and a requested size an integer.
-- `uuid.UUID`, NFC normalization, the categories of characters, pycrdt, and pydantic's reading of
-- JSON into the fields of a message are parameters. So are the contents of the system's files,
-- the answer of Windows, and the headers and status with which the application behind the
-- middleware starts its response. A session is an interface to the receive loop.
--
-- Not modelled: the disk's probe, the start and stop of background tasks, the calls of FastAPI in
-- backend/app/main.py, random identifiers and names, and the frontend.
pub mod Prelude
pub mod Dict
pub mod Config
pub mod Util
pub mod Storage
pub mod Rooms
pub mod Collab
pub mod Files
pub mod Ws
pub mod Http
pub mod Cleanup
pub mod Server
pub mod Tests
