-- ===== src/Tests/Files.antt =====
-- Examples of the ledger, of the tasks that share a disk, and of an upload that is opened.
use ephemeral_rooms.Prelude.{ℕ, refl, none, some, [], ◌∷◌, Text, arith, true, false, same}
use ephemeral_rooms.Prelude.Int.{pos}
use ephemeral_rooms.Dict.{get, put}
use ephemeral_rooms.Dict.Distinct.{sum_values}
use ephemeral_rooms.Storage.FileStore.{FileTree, empty_dir}
use ephemeral_rooms.Rooms.Types.{UploadRecord}
use ephemeral_rooms.Rooms.Instance.State.{Room, new_room, is_joinable}
use ephemeral_rooms.Rooms.Manager.Closing.{Mapped}
use ephemeral_rooms.Files.Ledger.{Ledger, reserve, reserved_bytes}
use ephemeral_rooms.Files.Ledger.Locking.{
  Disk, IsCovered, Reach-IsCovered, here, next, locks, probes, appends, records,
}
use ephemeral_rooms.Files.Uploads.{Service, init}
use ephemeral_rooms.Files.Uploads.Opening.{IsUnused, Opened, init_lem}
use ephemeral_rooms.Tests.{cfg, a_code, an_instance}
use ephemeral_rooms.Tests.Names.{some_unicode}

abbrev pub an_upload : Text
an_upload = 117 ∷ []

abbrev pub a_file : Text
a_file = 102 ∷ []

abbrev a_ledger : Ledger
a_ledger = record { headroom = 1; reservations = (an_upload, 3) ∷ [] }

abbrev no_promises : Ledger
no_promises = record { headroom = 1; reservations = [] }

-- A disk of ten bytes with one promise; two bytes land while another reservation waits.
abbrev a_disk : Disk
a_disk = record { ledger = a_ledger; free = 10; pending = []; holder = none; reading = none }

a_disk-IsCovered : IsCovered a_disk
unfolding reserved_bytes sum_values get
a_disk-IsCovered = record {
  covered = omega arith;
  within = λ id n e. absurd (ground arith);
  once = (refl, tt);
  writers = tt;
  reading_ok = λ f e. absurd (ground arith);
  idle = λ e. refl;
  new_holder = λ id size e. absurd (ground arith);
}

abbrev waiting_disk : Disk
waiting_disk = record a_disk {
  holder = some (a_file, 4);
  free = 8;
  pending = (an_upload, 2) ∷ [];
  reading = some 10;
}

abbrev last_disk : Disk
last_disk = record waiting_disk {
  ledger = (reserve 10 a_file 4 a_ledger).0;
  holder = none;
  reading = none;
}

Reach-IsCovered_example : IsCovered last_disk
unfolding get put same
Reach-IsCovered_example = Reach-IsCovered a_disk last_disk a_disk-IsCovered (
    next
      (next (next (next here (locks a_file 4 refl refl)) (probes (a_file, 4) 10 refl (omega arith)))
        (appends an_upload 3 2 refl refl (omega arith) (omega arith)))
      (records a_file 4 10 refl refl))

abbrev pub a_tree : FileTree
a_tree = (an_instance, empty_dir) ∷ []

-- A room that its code leads to, and its directory.
abbrev pub a_room : Room (Unit {0}) (Unit {0})
a_room = new_room a_code an_instance 0

abbrev a_service : Service (Unit {0}) (Unit {0})
a_service = record {
  manager = record {
    rooms = (a_code, an_instance) ∷ [];
    instances = (an_instance, a_room) ∷ [];
    store = a_tree;
    closing_tasks = [];
  };
  ledger = no_promises;
  index = [];
  uploads = [];
}

a_room-Mapped : Mapped a_service.manager a_code an_instance a_room
unfolding new_room get same is_joinable
a_room-Mapped = record { object = refl; code_of = refl; id_of = refl; admits = refl }

an_upload-IsUnused : IsUnused an_instance an_upload a_service
unfolding get same
an_upload-IsUnused = record {
  no_record = refl;
  no_promise = refl;
  dir = empty_dir;
  dir_at = refl;
  no_part = refl;
}

init_lem_example :
    Opened
      (λ t. true)
      an_instance
      an_upload
      (pos 3)
      a_room
      a_service
      (init cfg some_unicode 10 5 an_upload a_file a_code a_file (pos 3) a_file a_service)
unfolding get same
init_lem_example =
    init_lem (λ t. true) cfg some_unicode 10 5 an_upload a_file a_file (pos 3) a_file a_code
      an_instance a_room a_service refl refl a_room-Mapped an_upload-IsUnused

abbrev pub upload_of : ℕ → UploadRecord
upload_of size = record {
  upload_id = an_upload;
  file_id = a_file;
  room_code = a_code;
  room_instance_id = an_instance;
  filename = a_file;
  declared_size = size;
  uploader_id = a_file;
  uploader_name = a_file;
  reservation_bytes = size;
  committed_offset = 0;
  last_activity_at = 5;
  aborted = false;
  bytes_since_recheck = 0;
  writing = false;
}

-- The service once an upload of this size is registered.
abbrev pub receiving : ℕ → Service (Unit {0}) (Unit {0})
receiving size = record a_service {
  ledger = record { headroom = 1; reservations = (an_upload, size) ∷ [] };
  index = (an_upload, a_code) ∷ [];
  uploads = (an_upload, upload_of size) ∷ [];
}
