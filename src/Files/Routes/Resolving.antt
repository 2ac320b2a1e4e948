-- ===== src/Files/Routes/Resolving.antt =====
-- How the endpoints of backend/app/files/routes.py find an upload.
use ephemeral_rooms.Prelude.{
  ℕ, ◌≡◌, refl, Bool, true, false, Option, some, List, [], Text, any, same, arith, ◌∙◌,
}
use ephemeral_rooms.Config.{Settings}
use ephemeral_rooms.Dict.{get, get-alter_self}
use ephemeral_rooms.Storage.FileStore.{Bytes, part}
use ephemeral_rooms.Rooms.Types.{UploadRecord}
use ephemeral_rooms.Rooms.Instance.State.{Room}
use ephemeral_rooms.Rooms.Manager.{lookup}
use ephemeral_rooms.Files.Uploads.{Service, returned, resolve, upload_in, check_range_start}
use ephemeral_rooms.Files.Transfer.Writing.{IsOpen}
use ephemeral_rooms.Files.Routes.{
  receive, set_writing, mark_writing, chunk_response, range_start, upload_chunk,
}
use ephemeral_rooms.Files.Routes.Streaming.{Kept}

module _ {D W : Type 0} where
  -- A request for the upload finds it: the index, the code, the room and the record agree.
  pub record Resolves (valid : Text → Bool) (code i id : Text) (r : Room D W) (u : UploadRecord)
      (s : Service D W) : Type 0 where
    pub well_formed : valid id ≡ true
    pub code_at : get s.index id ≡ some code
    pub instance_at : get s.manager.rooms code ≡ some i
    pub room_at : get s.manager.instances i ≡ some r
    pub id_of : r.room_instance_id ≡ i
    pub held : any (λ k. same k id) r.uploads ≡ true
    pub live : u.aborted ≡ false

  pub resolve_lem :
      (valid : Text → Bool) (code i id : Text) (r : Room D W) (u : UploadRecord) (s : Service D W)
      → Resolves valid code i id r u s
      → get s.uploads id ≡ some u
      → resolve valid id s ≡ returned (r, u)
  unfolding resolve lookup upload_in
  resolve_lem valid code i id r u s h there =
      rw (h.well_formed, h.code_at, h.instance_at, h.room_at, h.held, there, h.live) refl

  pub mark_writing-IsOpen :
      (writing : Bool) (i id : Text) (u : UploadRecord) (s : Service D W)
      → IsOpen i id u s
      → IsOpen i id (set_writing writing u) (mark_writing writing id s)
  unfolding set_writing
  mark_writing-IsOpen writing i id u s o = record {
    record_at = get-alter_self (set_writing writing) s.uploads id o.record_at;
    dir = o.dir;
    dir_at = o.dir_at;
    offset = o.offset;
    within = o.within;
    promise = o.promise;
  }

  pub upload_chunk-eq :
      (valid : Text → Bool) (cfg : Settings) (code i id : Text) (header : Option Text)
      (last : ℕ × ℕ) (cut : Bool) (pieces : List (ℕ × ℕ × Bytes)) (r : Room D W) (u : UploadRecord)
      (s : Service D W)
      → Resolves valid code i id r u s
      → get s.uploads id ≡ some u
      → range_start header ≡ returned u.committed_offset
      → upload_chunk valid cfg id header last cut pieces s
        ≡ chunk_response id (receive cfg i id last cut [] pieces (mark_writing true id s))
  unfolding upload_chunk check_range_start
  upload_chunk-eq valid cfg code i id header last cut pieces r u s h there starts =
      ground (arith, resolve_lem valid code i id r u s h there, starts, h.id_of)

  -- What a request leaves that has brought all the bytes that were missing.
  pub record Arrived (valid : Text → Bool) (code i id : Text) (r : Room D W) (content : Bytes)
      (u : UploadRecord) (s t : Service D W) : Type 0 where
    pub upload : UploadRecord
    pub is_open : IsOpen i id upload t
    pub resolves : Resolves valid code i id r upload t
    pub all_there : upload.committed_offset ≡ u.declared_size
    pub declared : upload.declared_size ≡ u.declared_size
    pub file_id : upload.file_id ≡ u.file_id
    pub filename : upload.filename ≡ u.filename
    pub content_at : part i id t.manager.store ≡ content

  pub Resolves-Kept :
      (valid : Text → Bool) (code i id : Text) (r : Room D W) (u w : UploadRecord)
      (s t : Service D W)
      → Resolves valid code i id r u s
      → Kept s t
      → w.aborted ≡ u.aborted
      → Resolves valid code i id r w t
  Resolves-Kept valid code i id r u w s t h k live = record {
    well_formed = h.well_formed;
    code_at = ground (arith, h.code_at, k.index);
    instance_at = ground (arith, h.instance_at, k.rooms);
    room_at = ground (arith, h.room_at, k.instances);
    id_of = h.id_of;
    held = h.held;
    live = live ∙ h.live;
  }
