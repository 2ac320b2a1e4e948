-- ===== src/Storage/FileStore.antt =====
-- `LocalFileStore` of backend/app/storage/fs.py: the directory tree `rooms/<instance>/files` and
-- `rooms/<instance>/tmp`, and the walk of `BudgetedDiskSpace._measure` over it. A call that raises
-- `FileNotFoundError` in Python is `none` here.
pub mod Laws
use ephemeral_rooms.Prelude.{
  ℕ, ◌+◌, Bool, Option, none, some, List, [], ◌++◌, length, Text, is_some,
}
use ephemeral_rooms.Dict.{Dict, get, has, put, pop, alter, keys}
use ephemeral_rooms.Dict.Distinct.{sum_values}

abbrev pub Bytes : Type 0
Bytes = List ℕ

-- `tmp` is keyed by the upload id; the file's name has `.part` behind it.
pub record RoomDir : Type 0 where
  pub files : Dict Bytes
  pub tmp : Dict Bytes

abbrev pub FileTree : Type 0
FileTree = Dict RoomDir

abbrev pub empty_dir : RoomDir
empty_dir = record { files = []; tmp = [] }

abbrev pub bytes_or_empty : Option Bytes → Bytes
bytes_or_empty none = []
bytes_or_empty (some b) = b

-- `mkdir(parents=True, exist_ok=True)` of both directories.
unfoldable pub create_room_dirs : Text → FileTree → FileTree
create_room_dirs i t = elim (get t i) [ none ↦ put t i empty_dir | some d ↦ t ]

-- The part's content, empty before the first append.
unfoldable pub part : Text → Text → FileTree → Bytes
part i u t = elim (get t i) [ none ↦ [] | some d ↦ bytes_or_empty (get d.tmp u) ]

unfoldable pub part_size : Text → Text → FileTree → ℕ
unfolding part
part_size i u t = length (part i u t)

abbrev pub append_to : Text → Bytes → RoomDir → RoomDir
append_to u bytes d = record d { tmp = put d.tmp u (bytes_or_empty (get d.tmp u) ++ bytes) }

-- Opening with "ab" creates the file, but not the directory. The result is `fh.tell()`.
unfoldable pub append_part : Text → Text → Bytes → FileTree → Option (FileTree × ℕ)
unfolding part_size
append_part i u bytes t = elim (get t i) [
  | none ↦ none
  | some d ↦ let t' = alter (append_to u bytes) i t in some (t', part_size i u t')
]

unfoldable pub discard_part : Text → Text → FileTree → FileTree
discard_part i u t = alter (λ d. record d { tmp = pop d.tmp u }) i t

abbrev pub commit_in : Text → Text → Bytes → RoomDir → RoomDir
commit_in u file_id b d = record { files = put d.files file_id b; tmp = pop d.tmp u }

-- `_fsync_path` raises where the part is missing; `os.replace` moves it over the destination.
unfoldable pub commit_part : Text → Text → Text → FileTree → Option FileTree
commit_part i u file_id t = elim (get t i) [
  | none ↦ none
  | some d ↦ elim (get d.tmp u) [ none ↦ none | some b ↦ some (alter (commit_in u file_id b) i t) ]
]

-- The bytes that the stream of `open_file` yields: the descriptor is opened before the first read.
unfoldable pub open_file : Text → Text → FileTree → Option Bytes
open_file i f t = elim (get t i) [ none ↦ none | some d ↦ get d.files f ]

unfoldable pub file_exists : Text → Text → FileTree → Bool
unfolding open_file
file_exists i f t = is_some (open_file i f t)

unfoldable pub delete_file : Text → Text → FileTree → FileTree
delete_file i f t = alter (λ d. record d { files = pop d.files f }) i t

-- How `shutil.rmtree(…, ignore_errors=True)` ends: everything is gone, some of it is left, or the
-- call raised before it removed anything.
pub data Removal : Type 0 where
  gone : Removal
  left_behind : RoomDir → Removal
  raised : Removal

unfoldable pub remove_room : Removal → Text → FileTree → FileTree
remove_room gone i t = pop t i
remove_room (left_behind d) i t = alter (λ _. d) i t
remove_room raised i t = t

unfoldable pub room_exists : Text → FileTree → Bool
unfolding has
room_exists i t = has t i

unfoldable pub sweep_data_root : FileTree → FileTree
sweep_data_root t = []

unfoldable pub list_stale_parts : Text → FileTree → List Text
list_stale_parts i t = elim (get t i) [ none ↦ [] | some d ↦ keys d.tmp ]

abbrev pub dir_bytes : RoomDir → ℕ
dir_bytes d = sum_values {V = Bytes} length d.files + sum_values {V = Bytes} length d.tmp

-- `BudgetedDiskSpace._measure`.
unfoldable pub measure : FileTree → ℕ
measure t = sum_values dir_bytes t
