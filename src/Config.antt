-- ===== src/Config.antt =====
-- The settings of backend/app/config.py that the modelled code reads, after validation: every
-- integer is zero or greater, but for the interval of the storage feed, which has no validator. A size or count cap of 0 means "no
-- application limit".
pub mod Validation
use ephemeral_rooms.Prelude.{ℕ, Bool}
use ephemeral_rooms.Prelude.Int.{ℤ}

pub record Settings : Type 0 where
  pub ws_heartbeat_interval_ms : ℕ
  pub ws_heartbeat_timeout_ms : ℕ
  pub user_reconnect_grace_ms : ℕ
  pub room_empty_grace_ms : ℕ
  pub max_rooms : ℕ
  pub max_users_per_room : ℕ
  pub max_docs_per_room : ℕ
  pub max_doc_bytes : ℕ
  pub max_files_per_room : ℕ
  pub max_file_bytes : ℕ
  pub max_room_total_bytes : ℕ
  pub max_ws_message_bytes : ℕ
  pub max_display_name_chars : ℕ
  pub max_doc_name_chars : ℕ
  pub max_filename_chars : ℕ
  pub max_uploads_per_user : ℕ
  pub disk_headroom_bytes : ℕ
  pub disk_recheck_interval_bytes : ℕ
  pub upload_stale_ms : ℕ
  pub upload_chunk_bytes : ℕ
  pub reaper_interval_ms : ℕ
  pub max_total_storage_bytes : ℕ
  pub memory_headroom_bytes : ℕ
  pub memory_poll_interval_ms : ℕ
  pub storage_broadcast_interval_ms : ℤ
  pub redirect_http_to_https : Bool
