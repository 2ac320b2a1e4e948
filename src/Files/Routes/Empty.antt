-- ===== src/Files/Routes/Empty.antt =====
-- An upload of declared size zero, through the endpoints of backend/app/files/routes.py.
use ephemeral_rooms.Prelude.{
  ℕ, ◌<◌, ◌≡◌, ◌⊎◌, inl, inr, refl, sym, ap, ◌∙◌, subst, Bool, true, false, Option, none, some,
  List, [], ◌∷◌, ◌++◌, length, leb, Text, arith, Bool-cases,
}
use ephemeral_rooms.Prelude.Int.{ℤ, pos}
use ephemeral_rooms.Config.{Settings}
use ephemeral_rooms.Dict.{get, get-alter_self}
use ephemeral_rooms.Storage.FileStore.{Bytes, RoomDir}
use ephemeral_rooms.Rooms.Types.{UploadRecord}
use ephemeral_rooms.Rooms.Instance.State.{Room}
use ephemeral_rooms.Rooms.Manager.Closing.{Mapped}
use ephemeral_rooms.Files.Uploads.{
  Service, Outcome, returned, refused, raised, over_declared_size, hold_upload, reserve_upload,
  register, init_in, init, resolve, upload_in,
}
use ephemeral_rooms.Util.Sanitize.{Unicode}
use ephemeral_rooms.Files.Uploads.Opening.{IsUnused, init_lem}
use ephemeral_rooms.Files.Transfer.{write_chunk, complete}
use ephemeral_rooms.Files.Transfer.Completion.{complete_empty}
use ephemeral_rooms.Files.Routes.{
  server_error, set_writing, write_held, receive, mark_writing, chunk_response, upload_chunk,
  complete_upload, stream_read_bytes,
}

-- A `PUT`: its header, the figure and time of its last write, whether it is cut, and its pieces.
abbrev pub Request : Type 0
Request = Option Text × (ℕ × ℕ) × Bool × List (ℕ × ℕ × Bytes)

module _ {D W : Type 0} where
  -- Some requests of an upload, one after the other.
  abbrev pub upload_chunks :
      (Text → Bool) → Settings → Text → List Request → Service D W → Service D W
  upload_chunks valid cfg id [] s = s
  upload_chunks valid cfg id ((header, last, cut, pieces) ∷ requests) s =
      upload_chunks valid cfg id requests (upload_chunk valid cfg id header last cut pieces s).0

  write_held_empty :
      (cfg : Settings) (i id : Text) (free now : ℕ) (chunk : Bytes) (u : UploadRecord)
      (s : Service D W)
      → get s.uploads id ≡ some u
      → u.declared_size ≡ 0
      → 0 < length chunk
      → write_held cfg i id (free, now, chunk) s ≡ (s, refused over_declared_size)
  unfolding write_held write_chunk
  write_held_empty cfg i id free now chunk u s at zero some_bytes = ground (arith, at, zero)

  receive_empty :
      (cfg : Settings) (i id : Text) (last : ℕ × ℕ) (cut : Bool) (buffer : Bytes)
      (pieces : List (ℕ × ℕ × Bytes)) (u : UploadRecord) (s : Service D W)
      → get s.uploads id ≡ some u
      → u.declared_size ≡ 0
      → (receive cfg i id last cut buffer pieces s).0 ≡ s
  unfolding receive
  receive_empty cfg i id last true buffer [] u s at zero = refl
  receive_empty cfg i id last false [] [] u s at zero = refl
  receive_empty cfg i id last false (b ∷ buffer) [] u s at zero =
      ap (λ (o : Service D W × Outcome ℕ). o.0)
        (write_held_empty cfg i id last.0 last.1 (b ∷ buffer) u s at zero (omega arith))
  receive_empty cfg i id last cut buffer ((free, now, piece) ∷ pieces) u s at zero =
      elim (Bool-cases (leb stream_read_bytes (length (buffer ++ piece)))) [
        | inr short ↦
            ground
              (arith, short, receive_empty cfg i id last cut (buffer ++ piece) pieces u s at zero)
        | inl full ↦ ground (
          arith,
          full,
          write_held_empty cfg i id free now (buffer ++ piece) u s at zero (ground (arith, full)),
        )
      ]

  chunk_response_state :
      (id : Text) (o : Service D W × Outcome ℕ)
      → (chunk_response id o).0 ≡ mark_writing false id o.0
  chunk_response_state id (s, returned n) = refl
  chunk_response_state id (s, refused e) = refl
  chunk_response_state id (s, raised) = refl

  -- An upload that `resolve` finds in its room, of declared size zero, and without a part.
  record IsHollow (valid : Text → Bool) (i id : Text) (s : Service D W) : Type 0 where
    room : Room D W
    upload : UploadRecord
    found : resolve valid id s ≡ returned (room, upload)
    record_at : get s.uploads id ≡ some upload
    declared : upload.declared_size ≡ 0
    id_of : room.room_instance_id ≡ i
    dir : RoomDir
    dir_at : get s.manager.store i ≡ some dir
    no_part : get dir.tmp id ≡ none

  mark_writing-IsHollow :
      (valid : Text → Bool) (writing : Bool) (i id : Text) (s : Service D W)
      → IsHollow valid i id s
      → IsHollow valid i id (mark_writing writing id s)
  unfolding set_writing
  mark_writing-IsHollow valid writing i id s h = record {
    room = h.room;
    upload = set_writing writing h.upload;
    found =
        unfold resolve upload_in in
        ground (
          arith,
          h.found,
          h.record_at,
          get-alter_self (set_writing writing) s.uploads id h.record_at,
        );
    record_at = get-alter_self (set_writing writing) s.uploads id h.record_at;
    declared = h.declared;
    id_of = h.id_of;
    dir = h.dir;
    dir_at = h.dir_at;
    no_part = h.no_part;
  }

  upload_chunk_state :
      (valid : Text → Bool) (cfg : Settings) (i id : Text) (header : Option Text) (last : ℕ × ℕ)
      (cut : Bool) (pieces : List (ℕ × ℕ × Bytes)) (s : Service D W)
      → IsHollow valid i id s
      → ((upload_chunk valid cfg id header last cut pieces s).0 ≡ s)
        ⊎ ((upload_chunk valid cfg id header last cut pieces s).0
            ≡ mark_writing false id (mark_writing true id s))
  unfolding upload_chunk
  upload_chunk_state valid cfg i id header last cut pieces s h =
      let marked = mark_writing-IsHollow valid true i id s h in
      let o = receive cfg h.room.room_instance_id id last cut [] pieces (mark_writing true id s) in
      let kept : o.0 ≡ mark_writing true id s =
        receive_empty cfg h.room.room_instance_id id last cut [] pieces marked.upload
          (mark_writing true id s) marked.record_at marked.declared in
      let ends : (chunk_response id o).0 ≡ mark_writing false id (mark_writing true id s) =
        chunk_response_state id o ∙ ap (mark_writing false id) kept in
      ground (arith, h.found, ends)

  upload_chunks-IsHollow :
      (valid : Text → Bool) (cfg : Settings) (i id : Text) (requests : List Request)
      (s : Service D W)
      → IsHollow valid i id s
      → IsHollow valid i id (upload_chunks valid cfg id requests s)
  upload_chunks-IsHollow valid cfg i id [] s h = h
  upload_chunks-IsHollow valid cfg i id ((header, last, cut, pieces) ∷ requests) s h =
      upload_chunks-IsHollow valid cfg i id requests
        (upload_chunk valid cfg id header last cut pieces s).0
        (elim (upload_chunk_state valid cfg i id header last cut pieces s h) [
          | inl e ↦ subst (IsHollow valid i id) (sym e) h
          | inr e ↦ subst (IsHollow valid i id) (sym e) (
              mark_writing-IsHollow valid false i id (mark_writing true id s)
                (mark_writing-IsHollow valid true i id s h))
        ])

  store-init :
      (cfg : Settings) (uc : Unicode) (free now : ℕ) (id file_id filename : Text) (size : ℤ)
      (uploader_id code : Text) (s : Service D W)
      → (init cfg uc free now id file_id code filename size uploader_id s).0.manager.store
        ≡ s.manager.store
  unfolding init init_in reserve_upload register
  store-init cfg uc free now id file_id filename size uploader_id code s = ground arith

  init-IsHollow :
      (valid : Text → Bool) (cfg : Settings) (uc : Unicode) (free now : ℕ)
      (id file_id filename uploader_id code i : Text) (r : Room D W) (u : UploadRecord)
      (s t : Service D W)
      → valid id ≡ true
      → get s.manager.rooms code ≡ some i
      → Mapped s.manager code i r
      → IsUnused i id s
      → init cfg uc free now id file_id code filename (pos 0) uploader_id s ≡ (t, returned u)
      → IsHollow valid i id t
  init-IsHollow valid cfg uc free now id file_id filename uploader_id code i r u s t ok at m new e =
      let kept : t.manager.store ≡ s.manager.store =
        ap (λ (o : Service D W × Outcome UploadRecord). o.0.manager.store) (sym e)
        ∙ store-init cfg uc free now id file_id filename (pos 0) uploader_id code s in
      elim (init_lem valid cfg uc free now id file_id filename (pos 0) uploader_id code i r s ok at
        m new) [
          | inl (why, refusal) ↦ absurd (ground (arith, e, refusal))
          | inr (w, success, size, none_yet, open_at, found) ↦
              let is_t : (init cfg uc free now id file_id code filename (pos 0) uploader_id s).0
                  ≡ t =
                ap (λ (o : Service D W × Outcome UploadRecord). o.0) e in
              record {
                room = hold_upload id r;
                upload = w;
                found = ap (resolve valid id) (sym is_t) ∙ found;
                record_at =
                    ap (λ (k : Service D W). get k.uploads id) (sym is_t) ∙ open_at.record_at;
                declared = ground (arith, size);
                id_of = m.id_of;
                dir = new.dir;
                dir_at = ap (λ store. get store i) kept ∙ new.dir_at;
                no_part = new.no_part;
              }
        ]

  -- An upload that is opened with a size of zero never completes: whatever requests are then made
  -- for it, with any headers and bytes, its completion is answered with a server error and changes
  -- nothing. The room's code leads to it, and the upload's id is well-formed and taken to be that
  -- of nothing yet.
  pub complete_upload-init :
      (valid : Text → Bool) (cfg : Settings) (uc : Unicode) (free now later : ℕ)
      (id file_id filename uploader_id code i : Text) (r : Room D W) (u : UploadRecord)
      (requests : List Request) (s t : Service D W)
      → valid id ≡ true
      → get s.manager.rooms code ≡ some i
      → Mapped s.manager code i r
      → IsUnused i id s
      → init cfg uc free now id file_id code filename (pos 0) uploader_id s ≡ (t, returned u)
      → let t' = upload_chunks valid cfg id requests t in
        complete_upload valid later id t' ≡ (t', server_error, none)
  unfolding complete_upload
  complete_upload-init valid cfg uc free now later id file_id filename uploader_id code i r u
        requests s t ok at m new e =
      let t' = upload_chunks valid cfg id requests t in
      let h = upload_chunks-IsHollow valid cfg i id requests t (
        init-IsHollow valid cfg uc free now id file_id filename uploader_id code i r u s t ok at m
          new e) in
      let ends : complete later h.room.room_instance_id id h.upload t' ≡ (t', raised) =
        complete_empty later h.room.room_instance_id id h.upload t' h.dir
          (ap (get t'.manager.store) h.id_of ∙ h.dir_at) h.no_part h.declared in
      ground (arith, h.found, ends)
