-- ===== src/Config/Validation.antt =====
-- The validators of backend/app/config.py, on the settings that the modelled code reads. A setting
-- as given is an integer; one that fails its validator stops the start of the server.
use ephemeral_rooms.Prelude.{
  ◌≤◌, ◌<◌, ◌≡◌, Bool, true, false, ◌&&◌, Option, none, some, if◌then◌else◌, ltb, leb, arith, subst,
}
use ephemeral_rooms.Prelude.Int.{ℤ, pos, negsuc, pos_part}
use ephemeral_rooms.Config.{Settings}

pub record Given : Type 0 where
  pub ws_heartbeat_interval_ms : ℤ
  pub ws_heartbeat_timeout_ms : ℤ
  pub user_reconnect_grace_ms : ℤ
  pub room_empty_grace_ms : ℤ
  pub max_rooms : ℤ
  pub max_users_per_room : ℤ
  pub max_docs_per_room : ℤ
  pub max_doc_bytes : ℤ
  pub max_files_per_room : ℤ
  pub max_file_bytes : ℤ
  pub max_room_total_bytes : ℤ
  pub max_ws_message_bytes : ℤ
  pub max_display_name_chars : ℤ
  pub max_doc_name_chars : ℤ
  pub max_filename_chars : ℤ
  pub max_uploads_per_user : ℤ
  pub disk_headroom_bytes : ℤ
  pub disk_recheck_interval_bytes : ℤ
  pub upload_stale_ms : ℤ
  pub upload_chunk_bytes : ℤ
  pub reaper_interval_ms : ℤ
  pub max_total_storage_bytes : ℤ
  pub memory_headroom_bytes : ℤ
  pub memory_poll_interval_ms : ℤ
  pub storage_broadcast_interval_ms : ℤ
  pub redirect_http_to_https : Bool

unfoldable pub must_be_positive : ℤ → Bool
must_be_positive (pos n) = ltb 0 n
must_be_positive (negsuc n) = false

unfoldable pub must_not_be_negative : ℤ → Bool
must_not_be_negative (pos n) = true
must_not_be_negative (negsuc n) = false

unfoldable pub rooms_fit_the_code_space : ℤ → Bool
rooms_fit_the_code_space v = leb (pos_part v) 9000

-- Both are positive by then.
unfoldable pub timeout_exceeds_interval : ℤ → ℤ → Bool
timeout_exceeds_interval interval v = ltb (pos_part interval) (pos_part v)

unfoldable pub timers_ok : Given → Bool
unfolding must_be_positive timeout_exceeds_interval
timers_ok g =
    must_be_positive g.ws_heartbeat_interval_ms
    && must_be_positive g.ws_heartbeat_timeout_ms
    && timeout_exceeds_interval g.ws_heartbeat_interval_ms g.ws_heartbeat_timeout_ms
    && must_be_positive g.user_reconnect_grace_ms
    && must_be_positive g.room_empty_grace_ms
    && must_be_positive g.upload_stale_ms
    && must_be_positive g.reaper_interval_ms
    && must_be_positive g.memory_poll_interval_ms

unfoldable pub limits_ok : Given → Bool
unfolding must_be_positive rooms_fit_the_code_space
limits_ok g =
    must_be_positive g.max_rooms
    && rooms_fit_the_code_space g.max_rooms
    && must_be_positive g.max_users_per_room
    && must_be_positive g.max_ws_message_bytes
    && must_be_positive g.max_display_name_chars
    && must_be_positive g.max_doc_name_chars
    && must_be_positive g.max_filename_chars
    && must_be_positive g.max_uploads_per_user
    && must_be_positive g.upload_chunk_bytes
    && must_be_positive g.disk_recheck_interval_bytes

unfoldable pub caps_ok : Given → Bool
unfolding must_not_be_negative
caps_ok g =
    must_not_be_negative g.max_docs_per_room
    && must_not_be_negative g.max_doc_bytes
    && must_not_be_negative g.max_files_per_room
    && must_not_be_negative g.max_file_bytes
    && must_not_be_negative g.max_room_total_bytes
    && must_not_be_negative g.max_total_storage_bytes
    && must_not_be_negative g.disk_headroom_bytes
    && must_not_be_negative g.memory_headroom_bytes

abbrev pub settings_of : Given → Settings
settings_of g = record {
  ws_heartbeat_interval_ms = pos_part g.ws_heartbeat_interval_ms;
  ws_heartbeat_timeout_ms = pos_part g.ws_heartbeat_timeout_ms;
  user_reconnect_grace_ms = pos_part g.user_reconnect_grace_ms;
  room_empty_grace_ms = pos_part g.room_empty_grace_ms;
  max_rooms = pos_part g.max_rooms;
  max_users_per_room = pos_part g.max_users_per_room;
  max_docs_per_room = pos_part g.max_docs_per_room;
  max_doc_bytes = pos_part g.max_doc_bytes;
  max_files_per_room = pos_part g.max_files_per_room;
  max_file_bytes = pos_part g.max_file_bytes;
  max_room_total_bytes = pos_part g.max_room_total_bytes;
  max_ws_message_bytes = pos_part g.max_ws_message_bytes;
  max_display_name_chars = pos_part g.max_display_name_chars;
  max_doc_name_chars = pos_part g.max_doc_name_chars;
  max_filename_chars = pos_part g.max_filename_chars;
  max_uploads_per_user = pos_part g.max_uploads_per_user;
  disk_headroom_bytes = pos_part g.disk_headroom_bytes;
  disk_recheck_interval_bytes = pos_part g.disk_recheck_interval_bytes;
  upload_stale_ms = pos_part g.upload_stale_ms;
  upload_chunk_bytes = pos_part g.upload_chunk_bytes;
  reaper_interval_ms = pos_part g.reaper_interval_ms;
  max_total_storage_bytes = pos_part g.max_total_storage_bytes;
  memory_headroom_bytes = pos_part g.memory_headroom_bytes;
  memory_poll_interval_ms = pos_part g.memory_poll_interval_ms;
  storage_broadcast_interval_ms = g.storage_broadcast_interval_ms;
  redirect_http_to_https = g.redirect_http_to_https;
}

unfoldable pub validate : Given → Option Settings
unfolding timers_ok limits_ok caps_ok
validate g = if timers_ok g && limits_ok g && caps_ok g then some (settings_of g) else none

-- What the rest relies on.
pub record IsSane (cfg : Settings) : Type 0 where
  pub somebody : 0 < cfg.max_users_per_room
  pub some_room : 0 < cfg.max_rooms
  pub codes_suffice : cfg.max_rooms ≤ 9000
  pub pongs_in_time : cfg.ws_heartbeat_interval_ms < cfg.ws_heartbeat_timeout_ms
  pub ticks : 0 < cfg.ws_heartbeat_interval_ms
  pub reconnects : 0 < cfg.user_reconnect_grace_ms
  pub lingers : 0 < cfg.room_empty_grace_ms
  pub some_name : 0 < cfg.max_filename_chars
  pub rechecks : 0 < cfg.disk_recheck_interval_bytes
  pub goes_stale : 0 < cfg.upload_stale_ms

limits-IsSane : (g : Given) → timers_ok g ≡ true → limits_ok g ≡ true → IsSane (settings_of g)
unfolding timers_ok limits_ok must_be_positive rooms_fit_the_code_space timeout_exceeds_interval
limits-IsSane g timers limits = record {
  somebody = ground arith;
  some_room = ground arith;
  codes_suffice = ground arith;
  pongs_in_time = ground arith;
  ticks = ground arith;
  reconnects = ground arith;
  lingers = ground arith;
  some_name = ground arith;
  rechecks = ground arith;
  goes_stale = ground arith;
}

-- Settings that pass the validators have at least one room and one user per room, at most 9000
-- rooms, a positive heartbeat interval below its timeout, positive graces, a positive cap on
-- filenames, a positive recheck size and a positive stale time.
validate-IsSane : (g : Given) (cfg : Settings) → validate g ≡ some cfg → IsSane cfg
unfolding validate
validate-IsSane g cfg e =
    subst IsSane (ground arith) (limits-IsSane g (ground arith) (ground arith))
