-- ===== src/Files/Uploads.antt =====
-- `UploadService` of backend/app/files/uploads.py. A request holds the upload's record while others
-- can reach it through the room, so the records live in a store by upload id, `uploads`; the room
-- lists the ids of those it holds. Each operation runs without another in between.
pub mod Opening
use ephemeral_rooms.Prelude.{
  ℕ, ◌+◌, Bool, false, not, ◌&&◌, Option, none, some, List, [], ◌∷◌, ◌++◌, if◌then◌else◌, ◌==◌, ltb,
  leb, length, Text, any, same, keep,
}
use ephemeral_rooms.Prelude.Int.{ℤ, pos, negsuc}
use ephemeral_rooms.Config.{Settings}
use ephemeral_rooms.Dict.{Dict, get, put, alter}
use ephemeral_rooms.Dict.Distinct.{sum_values}
use ephemeral_rooms.Rooms.Types.{User, FileRecord, UploadRecord}
use ephemeral_rooms.Rooms.Instance.State.{Room, is_joinable}
use ephemeral_rooms.Rooms.Manager.{Manager, lookup}
use ephemeral_rooms.Files.Ledger.{Ledger, reserve}
use ephemeral_rooms.Util.Sanitize.{Unicode, clean_filename}

-- `UploadError` by its code. `no_space` carries `availableBytes`, which a transfer does not report.
pub data UploadError : Type 0 where
  no_room no_upload not_in_room bad_size file_too_large too_many_files room_full too_many_uploads
        over_declared_size no_range bad_range :
      UploadError
  no_space : Option ℕ → UploadError
  offset_mismatch incomplete : ℕ → UploadError

-- `raised` is any other exception: the file store's `FileNotFoundError`.
pub data Outcome {ℓ} (A : Type ℓ) : Type ℓ where
  returned : A → Outcome A
  refused : UploadError → Outcome A
  raised : Outcome A

-- The service's own `_index`, and what it shares with the manager, the ledger and the requests.
pub record Service (D W : Type 0) : Type 0 where
  pub manager : Manager D W
  pub ledger : Ledger
  pub index : Dict Text
  pub uploads : Dict UploadRecord

-- `cap and n > cap`: a cap of 0 is none.
abbrev pub over_cap : ℕ → ℕ → Bool
over_cap cap n = ltb 0 cap && ltb cap n

-- `cap and n >= cap`
abbrev pub at_cap : ℕ → ℕ → Bool
at_cap cap n = ltb 0 cap && leb cap n

unfoldable pub total_bytes : Dict FileRecord → ℕ
total_bytes files = sum_values (λ (f : FileRecord). f.size) files

abbrev pub uploaded_by : Text → Option UploadRecord → Bool
uploaded_by uploader_id none = false
uploaded_by uploader_id (some u) = same u.uploader_id uploader_id

unfoldable pub open_uploads : Text → List Text → Dict UploadRecord → ℕ
open_uploads uploader_id ids uploads =
    length (keep (λ id. uploaded_by uploader_id (get uploads id)) ids)

-- Raises `offset_mismatch` unless the range begins at the committed offset.
unfoldable pub check_range_start : UploadRecord → ℕ → Option UploadError
check_range_start u start =
    if start == u.committed_offset then none else some (offset_mismatch u.committed_offset)

module _ {D W : Type 0} where
  -- `room.uploads[id]` where the room holds it.
  unfoldable pub upload_in : Room D W → Text → Dict UploadRecord → Option UploadRecord
  upload_in r id uploads = if any (λ k. same k id) r.uploads then get uploads id else none

  -- `valid` is whether `uuid.UUID` accepts the text.
  unfoldable pub resolve : (Text → Bool) → Text → Service D W → Outcome (Room D W × UploadRecord)
  unfolding lookup upload_in
  resolve valid id s = if not (valid id) then refused no_upload else elim (get s.index id) [
    | none ↦ refused no_upload
    | some code ↦ elim (lookup s.manager code) [
      | none ↦ refused no_upload
      | some r ↦ elim (upload_in r id s.uploads) [
        | none ↦ refused no_upload
        | some u ↦ if u.aborted then refused no_upload else returned (r, u)
      ]
    ]
  ]

  -- The caps of `init`, in order.
  unfoldable pub capped : Settings → Text → ℕ → Room D W → Dict UploadRecord → Option UploadError
  unfolding total_bytes open_uploads
  capped cfg uploader_id size r uploads =
      if over_cap cfg.max_file_bytes size
      then some file_too_large
      else if at_cap cfg.max_files_per_room (length r.files)
      then some too_many_files
      else if over_cap cfg.max_room_total_bytes (total_bytes r.files + size)
      then some room_full
      else if leb cfg.max_uploads_per_user (open_uploads uploader_id r.uploads uploads)
      then some too_many_uploads
      else none

  abbrev pub new_upload : ℕ → Text → Text → Text → ℕ → User → Text → Room D W → UploadRecord
  new_upload now id file_id filename size user uploader_id r = record {
    upload_id = id;
    file_id = file_id;
    room_code = r.room_code;
    room_instance_id = r.room_instance_id;
    filename = filename;
    declared_size = size;
    uploader_id = uploader_id;
    uploader_name = user.display_name;
    reservation_bytes = size;
    committed_offset = 0;
    last_activity_at = now;
    aborted = false;
    bytes_since_recheck = 0;
    writing = false;
  }

  abbrev pub hold_upload : Text → Room D W → Room D W
  hold_upload id r = record r { uploads = r.uploads ++ id ∷ [] }

  -- The record of an upload whose bytes are reserved enters the room and the index.
  unfoldable pub register : Text → UploadRecord → Room D W → Service D W → Service D W
  register id u r s = record s {
    manager = record s.manager {
      instances = alter (hold_upload id) r.room_instance_id s.manager.instances;
    };
    index = put s.index id r.room_code;
    uploads = put s.uploads id u;
  }

  -- `free` is what the disk provider reports, `id` and `file_id` are the two values of `new_uuid`.
  unfoldable pub reserve_upload :
      Settings
      → Unicode
      → ℕ
      → ℕ
      → Text
      → Text
      → Text
      → ℕ
      → User
      → Text
      → Room D W
      → Service D W
      → Service D W × Outcome UploadRecord
  unfolding register
  reserve_upload cfg uc free now id file_id filename size user uploader_id r s =
      let (ledger', denied) = reserve free id size s.ledger in
      elim denied [
        | some d ↦ (record s { ledger = ledger' }, refused (no_space (some d.available)))
        | none ↦
            let u =
              new_upload now id file_id (clean_filename uc filename cfg.max_filename_chars) size
                user uploader_id r in
            (register id u r (record s { ledger = ledger' }), returned u)
      ]

  -- `init` once the room is there: the user, the size, the caps, the reservation.
  unfoldable pub init_in :
      Settings
      → Unicode
      → ℕ
      → ℕ
      → Text
      → Text
      → Text
      → ℤ
      → Text
      → Room D W
      → Service D W
      → Service D W × Outcome UploadRecord
  unfolding capped reserve_upload
  init_in cfg uc free now id file_id filename size uploader_id r s =
      elim (get r.users uploader_id) [
        | none ↦ (s, refused not_in_room)
        | some user ↦ elim size [
          | negsuc n ↦ (s, refused bad_size)
          | pos n ↦ elim (capped cfg uploader_id n r s.uploads) [
            | some e ↦ (s, refused e)
            | none ↦ reserve_upload cfg uc free now id file_id filename n user uploader_id r s
          ]
        ]
      ]

  unfoldable pub init :
      Settings
      → Unicode
      → ℕ
      → ℕ
      → Text
      → Text
      → Text
      → Text
      → ℤ
      → Text
      → Service D W
      → Service D W × Outcome UploadRecord
  unfolding lookup is_joinable init_in
  init cfg uc free now id file_id room_code filename size uploader_id s =
      elim (lookup s.manager room_code) [
        | none ↦ (s, refused no_room)
        | some r ↦
            if not (is_joinable r)
            then (s, refused no_room)
            else init_in cfg uc free now id file_id filename size uploader_id r s
      ]
