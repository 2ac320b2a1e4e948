-- ===== src/Files/Routes/Resuming.antt =====
-- A request whose client vanishes, and the next one, through the endpoints of
-- backend/app/files/routes.py.
use ephemeral_rooms.Prelude.{
  ℕ, ◌+◌, ◌≤◌, ◌<◌, ◌≡◌, Bool, true, false, Option, List, [], ◌++◌, length, Text, arith, ap, sym,
  subst, ◌∙◌, length-append,
}
use ephemeral_rooms.Config.{Settings}
use ephemeral_rooms.Storage.FileStore.{Bytes, part}
use ephemeral_rooms.Rooms.Types.{UploadRecord, FileRecord}
use ephemeral_rooms.Rooms.Instance.State.{Room}
use ephemeral_rooms.Files.Uploads.{Service, returned}
use ephemeral_rooms.Files.Transfer.Writing.{IsOpen}
use ephemeral_rooms.Files.Transfer.Completion.{joined, Roomy}
use ephemeral_rooms.Files.Routes.{
  Announcement, stream_read_bytes, range_start, upload_chunk, upload_status, complete_upload,
  download, committed, interrupted, upload_at, file_stored, file_content, set_writing, mark_writing,
  chunk_response,
}
use ephemeral_rooms.Files.Routes.Resolving.{
  Resolves, Resolves-Kept, resolve_lem, mark_writing-IsOpen, upload_chunk-eq,
}
use ephemeral_rooms.Files.Routes.Journey.{download-complete_upload}
use ephemeral_rooms.Files.Routes.Cutting.{receive_cut, regrouped}

module _ {D W : Type 0} where
  -- What the upload is after a request that was cut short.
  pub record Interrupted (valid : Text → Bool) (code i id : Text) (r : Room D W) (body : Bytes)
      (u : UploadRecord) (s t : Service D W) (n : ℕ) : Type 0 where
    pub upload : UploadRecord
    pub sent : Bytes
    pub lost : Bytes
    pub split : body ≡ sent ++ lost
    pub few : length lost < stream_read_bytes
    pub is_open : IsOpen i id upload t
    pub resolves : Resolves valid code i id r upload t
    pub offset : upload.committed_offset ≡ n
    pub reached : n ≡ u.committed_offset + length sent
    pub declared : upload.declared_size ≡ u.declared_size
    pub file_id : upload.file_id ≡ u.file_id
    pub headroom : t.ledger.headroom ≡ s.ledger.headroom
    pub content : part i id t.manager.store ≡ part i id s.manager.store ++ sent

  upload_chunk_cut :
      (valid : Text → Bool) (cfg : Settings) (code i id : Text) (header : Option Text)
      (last : ℕ × ℕ) (pieces : List (ℕ × ℕ × Bytes)) (r : Room D W) (u : UploadRecord)
      (s : Service D W)
      → Resolves valid code i id r u s
      → IsOpen i id u s
      → range_start header ≡ returned u.committed_offset
      → u.committed_offset + length (joined pieces) ≤ u.declared_size
      → Roomy s.ledger.headroom pieces
      → (t : Service D W) × (n : ℕ) × (upload_chunk valid cfg id header last true pieces s
          ≡ (t, interrupted n))
        × Interrupted valid code i id r (joined pieces) u s t n
  unfolding set_writing
  upload_chunk_cut valid cfg code i id header last pieces r u s h o starts fits roomy =
      let x =
        receive_cut cfg i id last [] pieces (set_writing true u) (mark_writing true id s)
          (mark_writing-IsOpen true i id u s o) (omega arith) fits roomy in
      let w = x.written in
      let done = mark_writing-IsOpen false i id w.upload x.after w.is_open in
      (
        mark_writing false id x.after,
        x.offset,
        upload_chunk-eq valid cfg code i id header last true pieces r u s h o.record_at starts
            ∙ ap (chunk_response id) x.ends
            ∙ ap (λ n. (mark_writing false id x.after, interrupted n))
                (ground (arith, done.record_at, w.offset)),
        record {
          upload = set_writing false w.upload;
          sent = x.sent;
          lost = x.lost;
          split = x.split;
          few = x.few;
          is_open = done;
          resolves =
              Resolves-Kept valid code i id r u (set_writing false w.upload) s
                (mark_writing false id x.after) h
                (record {
                  rooms = x.kept.rooms;
                  instances = x.kept.instances;
                  index = x.kept.index;
                })
                w.aborted;
          offset = w.offset;
          reached = w.size;
          declared = w.declared;
          file_id = w.file_id;
          headroom = w.headroom;
          content = w.content;
        },
      )

  -- An upload whose client vanishes in the middle of a request can be finished: the answer and a
  -- later status name the offset that was reached, less than a full buffer is lost, and the client
  -- that then sends the lost bytes and the rest from that offset on gets its file stored and
  -- downloads the part as it was, followed by all the bytes in order. The upload is open, found by
  -- its id, of at least one byte and with a well-formed file id; the bytes make up the declared
  -- size; the disk is taken to have its headroom whenever it is asked; and the second request is
  -- any that names the offset in its header and carries those bytes in its pieces.
  pub download_resumed :
      (valid : Text → Bool) (cfg : Settings) (now : ℕ) (code i id : Text) (header : Option Text)
      (next_header : ℕ → Option Text) (last : ℕ × ℕ) (pieces : List (ℕ × ℕ × Bytes))
      (next : Bytes → List (ℕ × ℕ × Bytes)) (rest : Bytes) (r : Room D W) (u : UploadRecord)
      (s : Service D W)
      → Resolves valid code i id r u s
      → IsOpen i id u s
      → valid u.file_id ≡ true
      → 0 < u.declared_size
      → range_start header ≡ returned u.committed_offset
      → u.committed_offset + length (joined pieces ++ rest) ≡ u.declared_size
      → Roomy s.ledger.headroom pieces
      → s.ledger.headroom ≤ last.0
      → ((n : ℕ) → n ≤ u.declared_size → range_start (next_header n) ≡ returned n)
      → ((b : Bytes) → (joined (next b) ≡ b) × Roomy s.ledger.headroom (next b))
      → (a t v : Service D W) × (n : ℕ) × (lost : Bytes) × (f : FileRecord) × (told : Option
          Announcement)
        × (upload_chunk valid cfg id header last true pieces s ≡ (a, interrupted n))
        × (length lost < stream_read_bytes)
        × (upload_status valid id a ≡ upload_at n u.declared_size)
        × (upload_chunk valid cfg id (next_header n) last false (next (lost ++ rest)) a
            ≡ (t, committed u.declared_size))
        × (complete_upload valid now id t ≡ (v, file_stored f, told))
        × (download valid code u.file_id v.manager
            ≡ file_content f (part i id s.manager.store ++ (joined pieces ++ rest)))
  unfolding upload_status
  download_resumed valid cfg now code i id header next_header last pieces next rest r u s h o ok
        some_bytes starts all roomy roomy_last next_starts next_joins =
      let (a, n, e, x) =
        upload_chunk_cut valid cfg code i id header last pieces r u s h o starts
          (omega (arith, length-append (joined pieces) rest)) roomy in
      let body = next_joins (x.lost ++ rest) in
      let (t, v, f, told, e1, e2, e3, size, name) =
        download-complete_upload valid cfg now code i id (next_header n) last
          (next (x.lost ++ rest)) r x.upload a x.resolves x.is_open
          (subst (λ k. valid k ≡ true) (sym x.file_id) ok) (omega (arith, x.declared))
          (next_starts n (
              omega (
                arith,
                x.reached,
                ap length x.split,
                length-append x.sent x.lost,
                length-append (joined pieces) rest,
              ))
            ∙ ap returned (sym x.offset))
          (omega (
            arith,
            x.offset,
            x.reached,
            x.declared,
            ap length body.0,
            length-append x.lost rest,
            ap length x.split,
            length-append x.sent x.lost,
            length-append (joined pieces) rest,
          ))
          (rw x.headroom body.1) (rw x.headroom roomy_last) in
      (
        a,
        t,
        v,
        n,
        x.lost,
        f,
        told,
        e,
        x.few,
        ground (
          arith,
          resolve_lem valid code i id r x.upload a x.resolves x.is_open.record_at,
          x.offset,
          x.declared,
        ),
        e1 ∙ ap (λ k. (t, committed k)) x.declared,
        e2,
        ap (λ k. download valid code k v.manager) (sym x.file_id)
            ∙ e3
            ∙ ap (file_content f) (
                ap (λ b. part i id a.manager.store ++ b) body.0
                ∙ ap (λ p. p ++ (x.lost ++ rest)) x.content
                ∙ regrouped (part i id s.manager.store) x.sent x.lost rest (joined pieces) x.split),
      )
