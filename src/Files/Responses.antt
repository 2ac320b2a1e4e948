-- ===== src/Files/Responses.antt =====
-- The responses of backend/app/files/routes.py, and the statuses that they and the refusals of
-- backend/app/files/uploads.py carry.
use ephemeral_rooms.Prelude.{ℕ, Text}
use ephemeral_rooms.Prelude.Int.{ℤ}
use ephemeral_rooms.Storage.FileStore.{Bytes}
use ephemeral_rooms.Rooms.Types.{FileRecord, UploadRecord}
use ephemeral_rooms.Files.Uploads.{
  UploadError, no_room, no_upload, not_in_room, bad_size, file_too_large, too_many_files, room_full,
  too_many_uploads, over_declared_size, no_range, bad_range, no_space, offset_mismatch, incomplete,
}

-- A response by its body; `server_error` is an exception that leaves the handler.
pub data Response : Type 0 where
  room_created : Text → Response
  at_capacity not_found no_content server_error : Response
  figures : ℕ → ℤ → Response
  upload_opened : UploadRecord → Response
  upload_at : ℕ → ℕ → Response
  committed interrupted : ℕ → Response
  file_stored : FileRecord → Response
  file_content : FileRecord → Bytes → Response
  error : UploadError → Response

-- The status that each refusal carries.
unfoldable pub error_status : UploadError → ℕ
error_status no_room = 404
error_status no_upload = 404
error_status not_in_room = 403
error_status bad_size = 400
error_status file_too_large = 413
error_status too_many_files = 409
error_status room_full = 413
error_status too_many_uploads = 429
error_status over_declared_size = 400
error_status no_range = 400
error_status bad_range = 400
error_status (no_space available) = 507
error_status (offset_mismatch offset) = 409
error_status (incomplete received) = 409

unfoldable pub status : Response → ℕ
status (room_created code) = 200
status at_capacity = 503
status not_found = 404
status no_content = 204
status server_error = 500
status (figures disk memory) = 200
status (upload_opened u) = 200
status (upload_at offset size) = 200
status (committed offset) = 200
status (interrupted offset) = 499
status (file_stored f) = 200
status (file_content f content) = 200
status (error e) = error_status e

-- What the room is told: `file_added`, and `upload_ended` with the reason "cancelled".
pub data Announcement : Type 0 where
  file_added : FileRecord → Text → Announcement
  upload_cancelled : Text → Announcement
