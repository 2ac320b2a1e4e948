-- ===== src/Tests.antt =====
-- The data of the examples: one configuration, and two people.
pub mod Rooms
pub mod Manager
pub mod Files
pub mod Names
pub mod Sessions
pub mod Routes
pub mod Sockets
pub mod Http
pub mod Stores
pub mod Server
use ephemeral_rooms.Prelude.Int.{pos}
use ephemeral_rooms.Prelude.{ℕ, Bool, true, false, [], ◌∷◌, Text}
use ephemeral_rooms.Config.{Settings}
use ephemeral_rooms.Rooms.Instance.Join.{Fresh}

abbrev pub cfg : Settings
cfg = record {
  ws_heartbeat_interval_ms = 20;
  ws_heartbeat_timeout_ms = 50;
  user_reconnect_grace_ms = 30;
  room_empty_grace_ms = 60;
  max_rooms = 2;
  max_users_per_room = 1;
  max_docs_per_room = 4;
  max_doc_bytes = 100;
  max_files_per_room = 0;
  max_file_bytes = 0;
  max_room_total_bytes = 0;
  max_ws_message_bytes = 100;
  max_display_name_chars = 10;
  max_doc_name_chars = 10;
  max_filename_chars = 10;
  max_uploads_per_user = 3;
  disk_headroom_bytes = 1;
  disk_recheck_interval_bytes = 2;
  upload_stale_ms = 1000;
  upload_chunk_bytes = 8;
  reaper_interval_ms = 60;
  max_total_storage_bytes = 0;
  memory_headroom_bytes = 10;
  memory_poll_interval_ms = 2;
  storage_broadcast_interval_ms = pos 15;
  redirect_http_to_https = true;
}

-- "1000"
abbrev pub a_code : Text
a_code = 49 ∷ 48 ∷ 48 ∷ 48 ∷ []

abbrev pub an_instance : Text
an_instance = 73 ∷ []

abbrev pub another_instance : Text
another_instance = 74 ∷ []

abbrev pub alice : Fresh
alice = record { user_id = 97 ∷ []; random_name = 65 ∷ []; session_token = 116 ∷ [] }

abbrev pub bob : Fresh
bob = record { user_id = 98 ∷ []; random_name = 66 ∷ []; session_token = 117 ∷ [] }

-- No socket is open any more when it is asked.
abbrev pub no_socket : ℕ → Bool
no_socket conn = false
