-- ===== src/Files/Routes/Journey.antt =====
-- A file from the client and back, through the endpoints of backend/app/files/routes.py.
use ephemeral_rooms.Prelude.{
  ℕ, ◌+◌, ◌≤◌, ◌<◌, ◌≡◌, Bool, true, false, Option, some, List, [], ◌++◌, length, Text, arith, ap,
  sym, subst, ◌∙◌,
}
use ephemeral_rooms.Config.{Settings}
use ephemeral_rooms.Dict.{get, alter, get-alter_self, get-put_self}
use ephemeral_rooms.Storage.FileStore.{Bytes, FileTree, part, open_file}
use ephemeral_rooms.Storage.FileStore.Laws.{open_file-commit_part}
use ephemeral_rooms.Rooms.Types.{UploadRecord, FileRecord}
use ephemeral_rooms.Rooms.Instance.State.{Room}
use ephemeral_rooms.Rooms.Manager.{lookup}
use ephemeral_rooms.Files.Uploads.{Service, returned}
use ephemeral_rooms.Files.Transfer.{complete, filed, forget, hold_file, drop_upload, file_record}
use ephemeral_rooms.Files.Transfer.Writing.{IsOpen}
use ephemeral_rooms.Files.Transfer.Completion.{joined, Roomy, complete-eq, commit_part_total}
use ephemeral_rooms.Files.Routes.{
  set_writing, mark_writing, chunk_response, range_start, upload_chunk, complete_upload, download,
  Announcement, committed, file_stored, file_content, file_added,
}
use ephemeral_rooms.Files.Routes.Streaming.{receive_lem}
use ephemeral_rooms.Files.Routes.Resolving.{
  Resolves, Arrived, Resolves-Kept, resolve_lem, mark_writing-IsOpen, upload_chunk-eq,
}

module _ {D W : Type 0} where
  -- A request whose range starts at the committed offset and whose body is the rest of the declared
  -- size, in whatever pieces, is answered with the declared size.
  upload_chunk_lem :
      (valid : Text → Bool) (cfg : Settings) (code i id : Text) (header : Option Text)
      (last : ℕ × ℕ) (pieces : List (ℕ × ℕ × Bytes)) (r : Room D W) (u : UploadRecord)
      (s : Service D W)
      → Resolves valid code i id r u s
      → IsOpen i id u s
      → range_start header ≡ returned u.committed_offset
      → u.committed_offset + length (joined pieces) ≡ u.declared_size
      → Roomy s.ledger.headroom pieces
      → s.ledger.headroom ≤ last.0
      → (t : Service D W) × (upload_chunk valid cfg id header last false pieces s
          ≡ (t, committed u.declared_size))
        × Arrived valid code i id r (part i id s.manager.store ++ joined pieces) u s t
  unfolding set_writing
  upload_chunk_lem valid cfg code i id header last pieces r u s h o starts all roomy roomy_last =
      let x =
        receive_lem cfg i id last [] pieces (set_writing true u) (mark_writing true id s)
          (mark_writing-IsOpen true i id u s o) (omega arith) roomy roomy_last in
      let w = x.written in
      let done = mark_writing-IsOpen false i id w.upload x.after w.is_open in
      (
        mark_writing false id x.after,
        upload_chunk-eq valid cfg code i id header last false pieces r u s h o.record_at starts
            ∙ ap (chunk_response id) x.ends
            ∙ ap (λ n. (mark_writing false id x.after, committed n))
                (ground (arith, done.record_at, w.offset, w.size)),
        record {
          upload = set_writing false w.upload;
          is_open = done;
          resolves =
              Resolves-Kept valid code i id r u (set_writing false w.upload) s
                (mark_writing false id x.after) h
                (record {
                  rooms = x.kept.rooms;
                  instances = x.kept.instances;
                  index = x.kept.index;
                })
                w.aborted;
          all_there = omega (arith, w.offset, w.size);
          declared = w.declared;
          file_id = w.file_id;
          filename = w.filename;
          content_at = w.content;
        },
      )

  complete_upload-eq :
      (valid : Text → Bool) (now : ℕ) (code i id : Text) (r : Room D W) (u : UploadRecord)
      (s v : Service D W) (f : FileRecord)
      → Resolves valid code i id r u s
      → get s.uploads id ≡ some u
      → complete now i id u s ≡ (v, returned f)
      → complete_upload valid now id s ≡ (v, file_stored f, some (file_added f u.upload_id))
  unfolding complete_upload
  complete_upload-eq valid now code i id r u s v f h there e =
      ground (arith, resolve_lem valid code i id r u s h there, h.id_of, e)

  -- The room's object once the upload has become a file.
  abbrev with_file : Text → FileRecord → Room D W → Room D W
  with_file id f r = drop_upload id (hold_file f r)

  room-filed :
      (i id : Text) (f : FileRecord) (t' : FileTree) (r : Room D W) (s : Service D W)
      → get s.manager.instances i ≡ some r
      → get (filed i id f t' s).manager.instances i ≡ some (with_file id f r)
  unfolding filed forget
  room-filed i id f t' r s there =
      get-alter_self (drop_upload id) (alter (hold_file f) i s.manager.instances) i
        (get-alter_self (hold_file f) s.manager.instances i there)

  download-filed :
      (valid : Text → Bool) (code i id : Text) (f : FileRecord) (t' : FileTree) (content : Bytes)
      (r : Room D W) (s : Service D W)
      → get s.manager.rooms code ≡ some i
      → get s.manager.instances i ≡ some r
      → r.room_instance_id ≡ i
      → valid f.file_id ≡ true
      → open_file i f.file_id t' ≡ some content
      → download valid code f.file_id (filed i id f t' s).manager ≡ file_content f content
  unfolding download lookup filed forget
  download-filed valid code i id f t' content r s leads there id_of ok stored = ground (
    arith,
    leads,
    room-filed i id f t' r s there,
    id_of,
    ok,
    stored,
    get-put_self r.files f.file_id f,
  )

  -- A completion after which the file can be fetched.
  complete_upload_lem :
      (valid : Text → Bool) (now : ℕ) (code i id : Text) (r : Room D W) (u : UploadRecord)
      (s : Service D W)
      → Resolves valid code i id r u s
      → IsOpen i id u s
      → 0 < u.declared_size
      → u.committed_offset ≡ u.declared_size
      → valid u.file_id ≡ true
      → let f = file_record now u.declared_size u in
        (v : Service D W) × (complete_upload valid now id s
          ≡ (v, file_stored f, some (file_added f u.upload_id)))
        × (download valid code u.file_id v.manager ≡ file_content f (part i id s.manager.store))
  unfolding file_record
  complete_upload_lem valid now code i id r u s h o some_bytes all ok =
      let f = file_record now u.declared_size u in
      let (t', e) =
        commit_part_total i id u.file_id s.manager.store o.dir o.dir_at (omega (arith, o.offset)) in
      (
        filed i id f t' s,
        complete_upload-eq valid now code i id r u s (filed i id f t' s) f h o.record_at
            (complete-eq now i id u s t' (o.offset ∙ all) e),
        download-filed valid code i id f t' (part i id s.manager.store) r s h.instance_at h.room_at
            h.id_of ok (open_file-commit_part i id u.file_id s.manager.store t' e).0,
      )

  -- For an open upload of at least one byte that is found by its id, a request whose range starts
  -- at the committed offset and whose body is the rest of the declared size, in whatever pieces it
  -- arrives, is answered with the declared size; `complete` then stores a file of that size under
  -- the upload's filename, and its download is the part as it was, followed by the body. The file
  -- id is taken to be well-formed, and the disk to have its headroom whenever it is asked.
  pub download-complete_upload :
      (valid : Text → Bool) (cfg : Settings) (now : ℕ) (code i id : Text) (header : Option Text)
      (last : ℕ × ℕ) (pieces : List (ℕ × ℕ × Bytes)) (r : Room D W) (u : UploadRecord)
      (s : Service D W)
      → Resolves valid code i id r u s
      → IsOpen i id u s
      → valid u.file_id ≡ true
      → 0 < u.declared_size
      → range_start header ≡ returned u.committed_offset
      → u.committed_offset + length (joined pieces) ≡ u.declared_size
      → Roomy s.ledger.headroom pieces
      → s.ledger.headroom ≤ last.0
      → (t v : Service D W) × (f : FileRecord) × (told : Option Announcement) × (upload_chunk valid
            cfg id header last false pieces s
          ≡ (t, committed u.declared_size))
        × (complete_upload valid now id t ≡ (v, file_stored f, told))
        × (download valid code u.file_id v.manager
            ≡ file_content f (part i id s.manager.store ++ joined pieces))
        × (f.size ≡ u.declared_size)
        × (f.original_name ≡ u.filename)
  unfolding file_record
  download-complete_upload valid cfg now code i id header last pieces r u s h o ok some_bytes starts
        all roomy roomy_last =
      let (t, e, a) =
        upload_chunk_lem valid cfg code i id header last pieces r u s h o starts all roomy
          roomy_last in
      let (v, e', d) =
        complete_upload_lem valid now code i id r a.upload t a.resolves a.is_open
          (omega (arith, a.declared)) (a.all_there ∙ sym a.declared)
          (subst (λ k. valid k ≡ true) (sym a.file_id) ok) in
      (
        t,
        v,
        file_record now a.upload.declared_size a.upload,
        some (file_added (file_record now a.upload.declared_size a.upload) a.upload.upload_id),
        e,
        e',
        ap (λ k. download valid code k v.manager) (sym a.file_id)
            ∙ d
            ∙ ap (file_content (file_record now a.upload.declared_size a.upload)) a.content_at,
        a.declared,
        a.filename,
      )
