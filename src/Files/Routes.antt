-- ===== src/Files/Routes.antt =====
-- The HTTP surface of backend/app/files/routes.py: each endpoint from its arguments to the response,
-- with what the room is told. The body of an upload arrives in pieces, each with the disk's figure
-- and the time of the write that it may cause.
pub mod Range
pub mod Disposition
pub mod Streaming
pub mod Resolving
pub mod Journey
pub mod Cutting
pub mod Refusals
pub mod Empty
pub mod Resuming
use ephemeral_rooms.Prelude.{
  ℕ, Bool, true, false, not, Option, none, some, List, [], ◌∷◌, ◌++◌, if◌then◌else◌, ltb, leb,
  length, Text,
}
use ephemeral_rooms.Prelude.Int.{ℤ}
use ephemeral_rooms.Config.{Settings}
use ephemeral_rooms.Dict.{get, alter}
use ephemeral_rooms.Storage.FileStore.{Bytes, open_file}
use ephemeral_rooms.Storage.Memory.{Guard, available_for_new_text}
use ephemeral_rooms.Rooms.Types.{UploadRecord}
use ephemeral_rooms.Rooms.Instance.State.{is_empty}
use ephemeral_rooms.Rooms.Manager.{Manager, lookup, create}
use ephemeral_rooms.Files.Ledger.{Ledger, available_locked}
use ephemeral_rooms.Files.Uploads.{
  no_range, bad_range, Outcome, returned, refused, raised, Service, resolve, init,
  check_range_start,
}
use ephemeral_rooms.Files.Transfer.{write_chunk, complete, abort}
use ephemeral_rooms.Util.Decimal.{int_digits}
use ephemeral_rooms.Util.Sanitize.{Unicode, strip}
pub use ephemeral_rooms.Files.Responses.{
  Response, room_created, at_capacity, not_found, no_content, server_error, figures, upload_opened,
  upload_at, committed, interrupted, file_stored, file_content, error, Announcement, file_added,
  upload_cancelled,
}
unfoldable pub use ephemeral_rooms.Files.Responses.{error_status, status}
use Range.{match_range}

-- 1024 * 1024
abbrev pub stream_read_bytes : ℕ
stream_read_bytes = 1048576

-- The start of the range that a request names.
unfoldable pub range_start : Option Text → Outcome ℕ
range_start none = refused no_range
range_start (some header) = elim (match_range (strip header)) [
  | none ↦ refused bad_range
  | some (first, last) ↦ elim (int_digits first) [
    | none ↦ raised
    | some start ↦ elim (int_digits last) [
      | none ↦ raised
      | some end ↦ if ltb end start then refused bad_range else returned start
    ]
  ]
]

unfoldable pub set_writing : Bool → UploadRecord → UploadRecord
set_writing writing u = record u { writing = writing }

-- `GET /storage`
unfoldable pub storage : ℕ → ℕ → ℤ → Ledger → Guard → Guard × Response
storage free now reading l g =
    let (g', memory) = available_for_new_text now reading g in
    (g', figures (available_locked free l) memory)

module _ {D W : Type 0} where
  -- `POST /rooms`; `instance_id` is a `new_uuid()`, `draws` what the allocation draws.
  unfoldable pub create_room : Settings → (ℕ → ℕ) → Text → ℕ → Manager D W → Manager D W × Response
  create_room cfg draws instance_id now m = elim (create cfg draws instance_id now none m) [
    | none ↦ (m, at_capacity)
    | some (m', i) ↦ elim (get m'.instances i) [
      | none ↦ (m', server_error)
      | some r ↦ (m', room_created r.room_code)
    ]
  ]

  -- `POST /rooms/{room_code}/uploads`; the arguments are those of `init`, whose size the request
  -- model has checked to be zero or more.
  unfoldable pub init_upload :
      Settings
      → Unicode
      → ℕ
      → ℕ
      → Text
      → Text
      → Text
      → Text
      → ℤ
      → Text
      → Service D W
      → Service D W × Response
  init_upload cfg uc free now id file_id room_code filename size user_id s =
      let (s', outcome) = init cfg uc free now id file_id room_code filename size user_id s in
      elim outcome [
        | returned u ↦ (s', upload_opened u)
        | refused e ↦ (s', error e)
        | raised ↦ (s', server_error)
      ]

  -- `GET /uploads/{upload_id}`
  unfoldable pub upload_status : (Text → Bool) → Text → Service D W → Response
  upload_status valid id s = elim (resolve valid id s) [
    | returned (r, u) ↦ upload_at u.committed_offset u.declared_size
    | refused e ↦ error e
    | raised ↦ server_error
  ]

  -- `write_chunk` on the record that the request holds.
  unfoldable pub write_held :
      Settings → Text → Text → ℕ × ℕ × Bytes → Service D W → Service D W × Outcome ℕ
  write_held cfg i id (free, now, chunk) s = elim (get s.uploads id) [
    | none ↦ (s, raised)
    | some u ↦ write_chunk cfg free now i id u chunk s
  ]

  -- The loop over the stream: `buffer` holds what is not written yet, `last` is the figure and time
  -- of the write behind the loop, and `cut` whether the client vanishes there.
  unfoldable pub receive :
      Settings
      → Text
      → Text
      → ℕ × ℕ
      → Bool
      → Bytes
      → List (ℕ × ℕ × Bytes)
      → Service D W
      → Service D W × Outcome ℕ
  receive cfg i id last cut buffer [] s =
      if cut
      then (s, raised)
      else if is_empty buffer
      then (s, returned 0)
      else write_held cfg i id (last.0, last.1, buffer) s
  receive cfg i id last cut buffer ((free, now, piece) ∷ pieces) s =
      elim (leb stream_read_bytes (length (buffer ++ piece))) [
        | false ↦ receive cfg i id last cut (buffer ++ piece) pieces s
        | true ↦
            let (s', outcome) = write_held cfg i id (free, now, buffer ++ piece) s in
            let rest = receive cfg i id last cut [] pieces s' in
            elim outcome [ returned n ↦ rest | refused e ↦ (s', refused e) | raised ↦ (s', raised) ]
      ]

  -- `upload.committed_offset` of the held record, which stays in the store.
  abbrev pub held_offset : Text → Service D W → ℕ
  held_offset id s = elim (get s.uploads id) [ none ↦ 0 | some u ↦ u.committed_offset ]

  abbrev pub mark_writing : Bool → Text → Service D W → Service D W
  mark_writing writing id s = record s { uploads = alter (set_writing writing) id s.uploads }

  abbrev pub chunk_response : Text → Service D W × Outcome ℕ → Service D W × Response
  chunk_response id (s, returned n) =
      let s' = mark_writing false id s in (s', committed (held_offset id s'))
  chunk_response id (s, refused e) = (mark_writing false id s, error e)
  chunk_response id (s, raised) =
      let s' = mark_writing false id s in (s', interrupted (held_offset id s'))

  -- `PUT /uploads/{upload_id}`
  unfoldable pub upload_chunk :
      (Text → Bool)
      → Settings
      → Text
      → Option Text
      → ℕ × ℕ
      → Bool
      → List (ℕ × ℕ × Bytes)
      → Service D W
      → Service D W × Response
  upload_chunk valid cfg id header last cut pieces s = elim (resolve valid id s) [
    | refused e ↦ (s, error e)
    | raised ↦ (s, server_error)
    | returned (r, u) ↦ elim (range_start header) [
      | refused e ↦ (s, error e)
      | raised ↦ (s, server_error)
      | returned start ↦ elim (check_range_start u start) [
        | some e ↦ (s, error e)
        | none ↦
            chunk_response id
              (receive cfg r.room_instance_id id last cut [] pieces (mark_writing true id s))
      ]
    ]
  ]

  -- `POST /uploads/{upload_id}/complete`
  unfoldable pub complete_upload :
      (Text → Bool) → ℕ → Text → Service D W → Service D W × Response × Option Announcement
  complete_upload valid now id s = elim (resolve valid id s) [
    | refused e ↦ (s, error e, none)
    | raised ↦ (s, server_error, none)
    | returned (r, u) ↦
        let (s', outcome) = complete now r.room_instance_id id u s in
        elim outcome [
          | returned f ↦ (s', file_stored f, some (file_added f u.upload_id))
          | refused e ↦ (s', error e, none)
          | raised ↦ (s', server_error, none)
        ]
  ]

  -- `DELETE /uploads/{upload_id}`
  unfoldable pub abort_upload :
      (Text → Bool) → Text → Service D W → Service D W × Response × Option Announcement
  abort_upload valid id s = elim (resolve valid id s) [
    | refused e ↦ (s, error e, none)
    | raised ↦ (s, server_error, none)
    | returned (r, u) ↦ (abort r.room_instance_id id s, no_content, some (upload_cancelled id))
  ]

  -- `GET /rooms/{room_code}/files/{file_id}`
  unfoldable pub download : (Text → Bool) → Text → Text → Manager D W → Response
  download valid room_code file_id m = elim (lookup m room_code) [
    | none ↦ not_found
    | some r ↦ if not (valid file_id) then not_found else elim (get r.files file_id) [
      | none ↦ not_found
      | some f ↦ elim (open_file r.room_instance_id file_id m.store) [
        | none ↦ not_found
        | some content ↦ file_content f content
      ]
    ]
  ]
