-- ===== src/Tests/Routes.antt =====
-- Examples of the HTTP endpoints: an upload of three bytes, cut short and resumed, and its download,
-- and an upload of none.
use ephemeral_rooms.Prelude.{
  ◌+◌, ℕ, zero, suc, ◌≤◌, ◌<◌, ◌≢◌, inl, inr, ltb, ◌==◌, ◌||◌, if◌then◌else◌, ◌∙◌, ◌≡◌, ◌↔◌, refl,
  sym, Bool, true, false, Option, none, some, List, [], ◌∷◌, ◌++◌, Text, codes, arith, length, same,
}
use mathlib.Core.List.{append-nil}
use ephemeral_rooms.Dict.{get, put}
use ephemeral_rooms.Storage.FileStore.{Bytes, empty_dir, part, part_size}
use ephemeral_rooms.Util.Decimal.{int_digits}
use ephemeral_rooms.Util.Sanitize.{strip, lstrip, rstrip, is_space}
use ephemeral_rooms.Rooms.Types.{FileRecord}
use ephemeral_rooms.Rooms.Instance.State.{Room, new_room}
use ephemeral_rooms.Files.Uploads.{Service, Outcome, returned}
use ephemeral_rooms.Config.{Settings}
use ephemeral_rooms.Files.Transfer.{write_chunk}
use ephemeral_rooms.Files.Transfer.Overlap.{Overlapped, write_chunk-write_chunk}
use ephemeral_rooms.Files.Transfer.Writing.{IsOpen}
use ephemeral_rooms.Files.Transfer.Completion.{joined}
use ephemeral_rooms.Files.Routes.{
  Announcement, Response, stream_read_bytes, range_start, upload_chunk, upload_status,
  complete_upload, download, committed, interrupted, upload_at, file_stored, file_content, status,
  not_found,
}
use ephemeral_rooms.Files.Routes.Range.{after, span_digits, digits_then, is_total, match_range}
use ephemeral_rooms.Files.Routes.Range.Laws.{IsNumber, IsTotal, range_of, match_range_iff}
use ephemeral_rooms.Files.Routes.Resolving.{Resolves}
use ephemeral_rooms.Files.Routes.Journey.{download-complete_upload}
use ephemeral_rooms.Files.Routes.Refusals.{upload_chunk_refused, download-get_or_create}
use ephemeral_rooms.Files.Routes.Resuming.{download_resumed}
use ephemeral_rooms.Rooms.Manager.{Manager, open_room, begin_closing, get_or_create}
use ephemeral_rooms.Storage.FileStore.{create_room_dirs}
use ephemeral_rooms.Util.Sanitize.{
  Unicode, cc, other, clean_filename, clean_text, no_separator, is_kept, is_directional,
  strip_unsafe, split_from, join_words,
}
use ephemeral_rooms.Files.Routes.Disposition.{
  HasControls, IsSafeHeader, content_disposition-IsSafeHeader,
}
use ephemeral_rooms.Tests.Manager
use ephemeral_rooms.Tests.Manager.{one_room, one_room-IsValid}
use ephemeral_rooms.Prelude.Int.{pos}
use ephemeral_rooms.Rooms.Manager.Closing.{Mapped}
use ephemeral_rooms.Rooms.Instance.State.{is_joinable}
use ephemeral_rooms.Rooms.Manager.{lookup}
use ephemeral_rooms.Files.Ledger.{reserve}
use ephemeral_rooms.Files.Uploads.{init, init_in, capped, reserve_upload, new_upload}
use ephemeral_rooms.Files.Uploads.Opening.{IsUnused}
use ephemeral_rooms.Files.Routes.{server_error}
use ephemeral_rooms.Files.Routes.Empty.{Request, upload_chunks, complete_upload-init}
use ephemeral_rooms.Tests.Rooms.{alice_user}
use ephemeral_rooms.Dict.Distinct.{sum_values}
use ephemeral_rooms.Tests.Names.{some_unicode}
use ephemeral_rooms.Tests.{cfg, a_code, an_instance, another_instance, alice}
use ephemeral_rooms.Tests.Files.{an_upload, a_file, a_tree, a_room, receiving, upload_of}

abbrev busy_room : Room (Unit {0}) (Unit {0})
busy_room = record a_room { uploads = an_upload ∷ [] }

-- The service while it receives three bytes.
abbrev busy : Service (Unit {0}) (Unit {0})
busy = record (receiving 3) {
  manager = record (receiving 3).manager { instances = (an_instance, busy_room) ∷ [] };
}

abbrev any_id : Text → Bool
any_id t = true

busy-IsOpen : IsOpen an_instance an_upload (upload_of 3) busy
unfolding get same part_size part
busy-IsOpen = record {
  record_at = refl;
  dir = empty_dir;
  dir_at = refl;
  offset = refl;
  within = omega arith;
  promise = refl;
}

busy-Resolves : Resolves any_id a_code an_instance an_upload busy_room (upload_of 3) busy
unfolding get same new_room
busy-Resolves = record {
  well_formed = refl;
  code_at = refl;
  instance_at = refl;
  room_at = refl;
  id_of = refl;
  held = refl;
  live = refl;
}

-- The header of a range up to the last of the three bytes.
abbrev header_from : ℕ → Option Text
header_from zero = some (codes "bytes 0-2/3")
header_from (suc zero) = some (codes " bytes 1-2/* ")
header_from (suc (suc zero)) = some (codes "bytes 2-2/3")
header_from (suc (suc (suc n))) = some (codes "bytes 3-3/3")

header_from-starts : (n : ℕ) → n ≤ 3 → range_start (header_from n) ≡ returned n
unfolding range_start match_range after span_digits digits_then is_total strip lstrip rstrip
    is_space int_digits same
header_from-starts zero h = refl
header_from-starts (suc zero) h = refl
header_from-starts (suc (suc zero)) h = refl
header_from-starts (suc (suc (suc zero))) h = refl
header_from-starts (suc (suc (suc (suc n)))) h = absurd (omega arith)

abbrev two_pieces : List (ℕ × ℕ × Bytes)
two_pieces = (9, 6, 1 ∷ 2 ∷ []) ∷ (8, 7, 3 ∷ []) ∷ []

download-complete_upload_example :
    (t v : Service (Unit {0}) (Unit {0})) × (f : FileRecord) × (told : Option Announcement)
    × (upload_chunk any_id cfg an_upload (header_from 0) (9, 8) false two_pieces busy
        ≡ (t, committed 3))
    × (complete_upload any_id 9 an_upload t ≡ (v, file_stored f, told))
    × (download any_id a_code a_file v.manager
        ≡ file_content f (part an_instance an_upload a_tree ++ joined two_pieces))
    × (f.size ≡ 3)
    × (f.original_name ≡ a_file)
download-complete_upload_example =
    download-complete_upload any_id cfg 9 a_code an_instance an_upload (header_from 0) (9, 8)
      two_pieces busy_room (upload_of 3) busy busy-Resolves busy-IsOpen refl (omega arith)
      (header_from-starts 0 (omega arith)) refl (omega arith, (omega arith, tt)) (omega arith)

abbrev one_piece : List (ℕ × ℕ × Bytes)
one_piece = (9, 6, 1 ∷ 2 ∷ []) ∷ []

abbrev in_one : Bytes → List (ℕ × ℕ × Bytes)
in_one b = (9, 8, b) ∷ []

download_resumed_example :
    (a t v : Service (Unit {0}) (Unit {0})) × (n : ℕ) × (lost : Bytes) × (f : FileRecord)
    × (told : Option Announcement) × (upload_chunk any_id cfg an_upload
          (header_from 0)
          (9, 8)
          true
          one_piece
          busy
        ≡ (a, interrupted n))
    × (length lost < stream_read_bytes)
    × (upload_status any_id an_upload a ≡ upload_at n 3)
    × (upload_chunk any_id cfg an_upload (header_from n) (9, 8) false (in_one (lost ++ (3 ∷ []))) a
        ≡ (t, committed 3))
    × (complete_upload any_id 9 an_upload t ≡ (v, file_stored f, told))
    × (download any_id a_code a_file v.manager
        ≡ file_content f (part an_instance an_upload a_tree ++ (joined one_piece ++ (3 ∷ []))))
download_resumed_example =
    download_resumed any_id cfg 9 a_code an_instance an_upload (header_from 0) header_from (9, 8)
      one_piece in_one (3 ∷ []) busy_room (upload_of 3) busy busy-Resolves busy-IsOpen refl
      (omega arith) (header_from-starts 0 (omega arith)) refl (omega arith, tt) (omega arith)
      header_from-starts (λ b. (append-nil b, (omega arith, tt)))

starts_2 : ◌≢◌ {A = Outcome ℕ} (returned 2) (returned 0)
starts_2 e = ground arith

upload_chunk_refused_example :
    (response : Response) × (upload_chunk any_id cfg an_upload
        (header_from 2)
        (9, 8)
        false
        two_pieces
        busy
      ≡ (busy, response))
    × (400 ≤ status response)
unfolding get same
upload_chunk_refused_example =
    upload_chunk_refused any_id cfg a_code an_instance an_upload (header_from 2) (9, 8) false
      two_pieces busy_room (upload_of 3) busy busy-Resolves refl
      (λ e. starts_2 (sym (header_from-starts 2 (omega arith)) ∙ e))

download-get_or_create_example :
    let m' = begin_closing Manager.a_room one_room in
    (n : Manager (Unit {0}) (Unit {0})) × (get_or_create cfg (λ k. 0) another_instance 90 a_code m'
      ≡ some (n, another_instance, true))
    × (download any_id a_code a_file m' ≡ not_found)
    × (download any_id a_code a_file n ≡ not_found)
unfolding open_room new_room put get same create_room_dirs
download-get_or_create_example =
    download-get_or_create any_id cfg (λ k. 0) a_file another_instance an_instance 90 49
      (48 ∷ 48 ∷ 48 ∷ []) one_room Manager.a_room one_room-IsValid refl refl refl
      (λ e. ground arith) refl

match_range_iff_example : (match_range (codes "bytes 0-2/*") ≡ some (codes "0", codes "2")) ↔ (
    (total : Text) × (codes "bytes 0-2/*" ≡ range_of (codes "0") (codes "2") total)
    × IsNumber (codes "0")
    × IsNumber (codes "2")
    × IsTotal total)
match_range_iff_example = match_range_iff (codes "bytes 0-2/*") (codes "0") (codes "2")

-- A Unicode database that has the control characters of ASCII.
abbrev controls : Unicode
controls = record {
  normalize_nfc = λ t. t;
  category = λ c. if ltb c 32 || (c == 127) then cc else other;
}

controls-HasControls : HasControls controls
controls-HasControls c (inl low) = ground arith
controls-HasControls c (inr delete) = ground arith

content_disposition-IsSafeHeader_example :
    IsSafeHeader (clean_filename controls (codes "../a b") 10)
unfolding clean_filename clean_text no_separator same strip lstrip rstrip is_space is_kept
    is_directional strip_unsafe split_from join_words
content_disposition-IsSafeHeader_example =
    content_disposition-IsSafeHeader controls (codes "../a b") 10 (λ c low high. ground arith)
      controls-HasControls
      (omega arith, (omega arith, (omega arith, (omega arith, (omega arith, (omega arith, tt))))))

abbrev lax : Settings
lax = record cfg { disk_recheck_interval_bytes = 10 }

-- Two buffers of two bytes for an upload of three.
write_chunk-write_chunk_example :
    (t v : Service (Unit {0}) (Unit {0})) × (n : ℕ) × (write_chunk lax 9 6 an_instance an_upload
        (upload_of 3)
        (1 ∷ 2 ∷ [])
        busy
      ≡ (t, returned n))
    × (write_chunk lax 9 7 an_instance an_upload (upload_of 3) (3 ∷ 4 ∷ []) t
        ≡ (v, returned (n + 2)))
    × Overlapped an_instance an_upload (1 ∷ 2 ∷ []) (3 ∷ 4 ∷ []) (upload_of 3) busy v
write_chunk-write_chunk_example =
    write_chunk-write_chunk lax 9 9 6 7 an_instance an_upload (upload_of 3) (1 ∷ 2 ∷ [])
      (3 ∷ 4 ∷ []) busy busy-IsOpen (omega arith) (omega arith) (omega arith)

-- A service with nothing uploaded yet, and alice in its room.
abbrev her_room : Room (Unit {0}) (Unit {0})
her_room = record a_room { users = (alice.user_id, alice_user) ∷ [] }

abbrev idle : Service (Unit {0}) (Unit {0})
idle = record {
  manager = record (receiving 0).manager { instances = (an_instance, her_room) ∷ [] };
  ledger = record { headroom = 1; reservations = [] };
  index = [];
  uploads = [];
}

her_room-Mapped : Mapped idle.manager a_code an_instance her_room
unfolding new_room get same is_joinable
her_room-Mapped = record { object = refl; code_of = refl; id_of = refl; admits = refl }

an_upload-IsUnused : IsUnused an_instance an_upload idle
unfolding get same
an_upload-IsUnused = record {
  no_record = refl;
  no_promise = refl;
  dir = empty_dir;
  dir_at = refl;
  no_part = refl;
}

abbrev opened : Service (Unit {0}) (Unit {0})
opened = (init cfg some_unicode 10 5 an_upload a_file a_code a_file (pos 0) alice.user_id idle).0

-- One request with a byte, after which the upload still does not complete.
abbrev requests : List Request
requests = (some (codes "bytes 0-0/0"), (10, 5), false, (10, 6, 1 ∷ []) ∷ []) ∷ []

complete_upload-init_example :
    let t = upload_chunks any_id cfg an_upload requests opened in
    complete_upload any_id 8 an_upload t ≡ (t, server_error, none)
unfolding get same new_room init init_in capped reserve_upload reserve lookup is_joinable sum_values
complete_upload-init_example =
    complete_upload-init any_id cfg some_unicode 10 5 8 an_upload a_file a_file alice.user_id a_code
      an_instance her_room
      (new_upload 5 an_upload a_file (clean_filename some_unicode a_file 10) 0 alice_user
        alice.user_id her_room)
      requests idle opened refl refl her_room-Mapped an_upload-IsUnused refl
