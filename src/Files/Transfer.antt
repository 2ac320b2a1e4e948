-- ===== src/Files/Transfer.antt =====
-- The transfer of an upload's bytes: `write_chunk`, `complete` and `abort` of
-- backend/app/files/uploads.py, and the loop over the buffers of a request. `i` is the instance id
-- of the room, and `id` the upload's, that the request holds.
pub mod Writing
pub mod Completion
pub mod Overlap
use ephemeral_rooms.Prelude.{
  ℕ, ◌+◌, true, not, none, some, List, [], ◌∷◌, if◌then◌else◌, ◌==◌, ltb, leb, length, Text, same,
  keep,
}
use ephemeral_rooms.Prelude.Int.{sub_ℕ}
use ephemeral_rooms.Config.{Settings}
use ephemeral_rooms.Dict.{get, put, pop, alter}
use ephemeral_rooms.Storage.FileStore.{
  Bytes, FileTree, part_size, append_part, discard_part, commit_part,
}
use ephemeral_rooms.Rooms.Types.{FileRecord, UploadRecord}
use ephemeral_rooms.Rooms.Instance.State.{Room}
use ephemeral_rooms.Files.Ledger.{release, shrink, headroom_breached}
use ephemeral_rooms.Files.Uploads.{
  Service, Outcome, returned, refused, raised, over_declared_size, no_space, incomplete,
}

-- `upload.committed_offset` and what goes with it, after `n` bytes.
unfoldable pub advanced : ℕ → ℕ → ℕ → UploadRecord → UploadRecord
advanced now size n u = record u {
  committed_offset = size;
  last_activity_at = now;
  bytes_since_recheck = u.bytes_since_recheck + n;
}

unfoldable pub rechecked : UploadRecord → UploadRecord
rechecked u = record u { bytes_since_recheck = 0 }

unfoldable pub set_aborted : UploadRecord → UploadRecord
set_aborted u = record u { aborted = true }

unfoldable pub file_record : ℕ → ℕ → UploadRecord → FileRecord
file_record now actual u = record {
  file_id = u.file_id;
  original_name = u.filename;
  size = actual;
  uploader_id = u.uploader_id;
  uploader_name = u.uploader_name;
  uploaded_at = now;
}

module _ {D W : Type 0} where
  abbrev pub drop_upload : Text → Room D W → Room D W
  drop_upload id r = record r { uploads = keep (λ k. not (same k id)) r.uploads }

  -- What `complete` and `abort` take out: the room's entry, the index's, and the reservation.
  unfoldable pub forget : Text → Text → Service D W → Service D W
  forget i id s = record s {
    manager = record s.manager { instances = alter (drop_upload id) i s.manager.instances };
    index = pop s.index id;
    ledger = release id s.ledger;
  }

  -- `abort(room, upload)`; `i` is the room's instance id.
  unfoldable pub abort : Text → Text → Service D W → Service D W
  unfolding forget
  abort i id s =
      let s' = forget i id (record s { uploads = alter set_aborted id s.uploads }) in
      record s' { manager = record s'.manager { store = discard_part i id s'.manager.store } }

  -- The record and the ledger once `n` bytes have made the part `size` bytes long.
  unfoldable pub landed : ℕ → Text → ℕ → ℕ → UploadRecord → FileTree → Service D W → Service D W
  landed now id size n u store' s = record s {
    manager = record s.manager { store = store' };
    ledger = shrink id (sub_ℕ u.declared_size size) s.ledger;
    uploads = alter (advanced now size n) id s.uploads;
  }

  -- The headroom check that is due every so many bytes.
  unfoldable pub recheck :
      Settings → ℕ → Text → Text → ℕ → ℕ → Service D W → Service D W × Outcome ℕ
  unfolding abort headroom_breached
  recheck cfg free i id since size s =
      if not (leb cfg.disk_recheck_interval_bytes since)
      then (s, returned size)
      else let s' = record s { uploads = alter rechecked id s.uploads } in
        if headroom_breached free s'.ledger
        then (abort i id s', refused (no_space none))
        else (s', returned size)

  -- `write_chunk(room, upload, data)`: `u` is what the held record says.
  unfoldable pub write_chunk :
      Settings → ℕ → ℕ → Text → Text → UploadRecord → Bytes → Service D W → Service D W × Outcome ℕ
  unfolding landed recheck append_part
  write_chunk cfg free now i id u chunk s =
      if ltb u.declared_size (u.committed_offset + length chunk)
      then (s, refused over_declared_size)
      else elim (append_part i id chunk s.manager.store) [
        | none ↦ (s, raised)
        | some (store', size) ↦
            recheck cfg free i id (u.bytes_since_recheck + length chunk) size
              (landed now id size (length chunk) u store' s)
      ]

  abbrev pub hold_file : FileRecord → Room D W → Room D W
  hold_file f r = record r { files = put r.files f.file_id f }

  -- What `complete` leaves once the part has become the file `f`, in the tree `store'`.
  unfoldable pub filed : Text → Text → FileRecord → FileTree → Service D W → Service D W
  unfolding forget
  filed i id f store' s =
      let manager' = record s.manager {
        store = store';
        instances = alter (hold_file f) i s.manager.instances;
      } in
      forget i id (record s { manager = manager' })

  unfoldable pub complete :
      ℕ → Text → Text → UploadRecord → Service D W → Service D W × Outcome FileRecord
  unfolding filed file_record part_size commit_part
  complete now i id u s =
      let actual = part_size i id s.manager.store in
      if not (actual == u.declared_size)
      then (s, refused (incomplete actual))
      else elim (commit_part i id u.file_id s.manager.store) [
        | none ↦ (s, raised)
        | some store' ↦ let f = file_record now actual u in (filed i id f store' s, returned f)
      ]

  -- The loop of `upload_chunk` in backend/app/files/routes.py over the buffers of one request: each
  -- comes with the disk's figure and the time of its write. The first failure ends the request.
  unfoldable pub write_all :
      Settings → Text → Text → List (ℕ × ℕ × Bytes) → Service D W → Service D W × Outcome ℕ
  unfolding write_chunk
  write_all cfg i id [] s = elim (get s.uploads id) [
    | none ↦ (s, raised)
    | some u ↦ (s, returned u.committed_offset)
  ]
  write_all cfg i id ((free, now, chunk) ∷ pieces) s = elim (get s.uploads id) [
    | none ↦ (s, raised)
    | some u ↦
        let (s', outcome) = write_chunk cfg free now i id u chunk s in
        let rest = write_all cfg i id pieces s' in
        elim outcome [ returned n ↦ rest | refused e ↦ (s', refused e) | raised ↦ (s', raised) ]
  ]
