-- ===== src/Ws/Session.antt =====
-- `Session` of backend/app/ws/connection.py, once it has joined a room. `user` is what the session's
-- user object says; the room's dict holds the same object as long as the user is a member. Events
-- are what the room is told, in order; `too_many_documents` goes to this socket alone.
pub mod Stamps
pub mod Leaving
use ephemeral_rooms.Prelude.{
  ℕ, Bool, true, not, Option, none, some, List, [], ◌∷◌, if◌then◌else◌, Text, any, same,
}
use ephemeral_rooms.Config.{Settings}
use ephemeral_rooms.Dict.{Dict, get, pop, alter, values}
use ephemeral_rooms.Storage.FileStore.{FileTree, delete_file}
use ephemeral_rooms.Collab.Registry.{create, rename, delete, size}
use ephemeral_rooms.Rooms.Types.{User, DocumentRecord, UploadRecord}
use ephemeral_rooms.Rooms.Instance.State.{Room, next_op_seq}
use ephemeral_rooms.Rooms.Instance.Depart.{mark_disconnected, remove_user, is_superseded}
use ephemeral_rooms.Files.Uploads.{at_cap}
use ephemeral_rooms.Util.Sanitize.{Unicode, clean_display_name, clean_document_name}

-- The messages of backend/app/ws/messages.py that change a room's data.
pub data Message : Type 0 where
  pong : Message
  set_name create_document : Text → Message
  rename_document : Text → Text → Message
  delete_document delete_file_message : Text → Message
  upload_progress : Text → ℕ → Message

pub data Event : Type 0 where
  user_updated : Text → Text → ℕ → Event
  document_created document_renamed : DocumentRecord → ℕ → Event
  document_deleted : DocumentRecord → Text → ℕ → Event
  file_deleted : Text → Text → Text → Event
  progress : Text → Text → Text → ℕ → Event
  too_many_documents : Event

-- What the room is told when a user leaves it, or drops out.
pub data Notice : Type 0 where
  user_left : User → Notice
  presence : List User → Notice

abbrev pub told_left : Option User → List Notice
told_left none = []
told_left (some u) = user_left u ∷ []

-- What a handler reads: `valid` is whether `uuid.UUID` accepts a text, `new_id` a `new_uuid()`,
-- `new_doc` a fresh document, and `uploads` the store of the upload records.
pub record Context (D : Type 0) : Type 0 where
  pub cfg : Settings
  pub unicode : Unicode
  pub valid : Text → Bool
  pub now : ℕ
  pub new_id : Text
  pub new_doc : D
  pub uploads : Dict UploadRecord

unfoldable pub pong_at : ℕ → User → User
pong_at now u = record u { last_pong_at = now }

unfoldable pub renamed_user : Text → User → User
renamed_user name u = record u { display_name = name }

-- `clear` is `awareness.remove_awareness_states([client_id])` of pycrdt.
unfoldable pub clear_awareness : {W : Type 0} → (ℕ → W → W) → ℕ → Dict W → Dict W
clear_awareness clear client_id [] = []
clear_awareness clear client_id ((k, w) ∷ d) =
    (k, clear client_id w) ∷ clear_awareness clear client_id d

-- The room and the file store.
abbrev pub State : Type 0 → Type 0 → Type 0
State D W = Room D W × FileTree

module _ {D W : Type 0} where
  unfoldable pub set_display_name : Context D → User → Text → Room D W → Room D W × List Event
  unfolding next_op_seq renamed_user clean_display_name
  set_display_name c user raw r =
      let name = clean_display_name c.unicode raw c.cfg.max_display_name_chars user.display_name in
      let (r', seq) =
        next_op_seq (record r { users = alter (renamed_user name) user.user_id r.users }) in
      (r', user_updated user.user_id name seq ∷ [])

  unfoldable pub create_document_named : Context D → Text → Room D W → Room D W × List Event
  unfolding next_op_seq create size clean_document_name
  create_document_named c raw_name r =
      if at_cap c.cfg.max_docs_per_room (size r.documents)
      then (r, too_many_documents ∷ [])
      else let name = clean_document_name c.unicode raw_name c.cfg.max_doc_name_chars in
        let (documents', made) = create c.new_doc c.new_id name c.now r.documents in
        let (r', seq) = next_op_seq (record r { documents = documents' }) in
        (r', document_created made seq ∷ [])

  unfoldable pub rename_document_to : Context D → Text → Text → Room D W → Room D W × List Event
  unfolding next_op_seq rename clean_document_name
  rename_document_to c document_id raw_name r =
      if not (c.valid document_id)
      then (r, [])
      else let name = clean_document_name c.unicode raw_name c.cfg.max_doc_name_chars in
        let (documents', found) = rename document_id name r.documents in
        elim found [
          | none ↦ (r, [])
          | some made ↦
              let (r', seq) = next_op_seq (record r { documents = documents' }) in
              (r', document_renamed made seq ∷ [])
        ]

  unfoldable pub delete_document_by : Context D → User → Text → Room D W → Room D W × List Event
  unfolding next_op_seq delete
  delete_document_by c user document_id r =
      if not (c.valid document_id)
      then (r, [])
      else let (documents', found) = delete document_id r.documents in
        elim found [
          | none ↦ (r, [])
          | some gone ↦
              let (r', seq) =
                next_op_seq
                  (record r { documents = documents'; awareness = pop r.awareness document_id }) in
              (r', document_deleted gone user.display_name seq ∷ [])
        ]

  unfoldable pub delete_file_by : Context D → User → Text → State D W → State D W × List Event
  unfolding delete_file
  delete_file_by c user file_id (r, t) =
      if not (c.valid file_id) then ((r, t), []) else elim (get r.files file_id) [
        | none ↦ ((r, t), [])
        | some f ↦ (
          (record r { files = pop r.files file_id }, delete_file r.room_instance_id file_id t),
          file_deleted file_id f.original_name user.display_name ∷ [],
        )
      ]

  unfoldable pub report_progress : Context D → User → Text → ℕ → Room D W → List Event
  report_progress c user upload_id percent r =
      if any (λ k. same k upload_id) r.uploads
      then elim (get c.uploads upload_id) [
        | none ↦ []
        | some u ↦
            if same u.uploader_id user.user_id
            then progress u.upload_id u.uploader_name u.filename percent ∷ []
            else []
      ]
      else []

  abbrev pub with_tree : FileTree → Room D W × List Event → State D W × List Event
  with_tree t (r, events) = ((r, t), events)

  -- `handle_message`, of the messages that leave the session in its room.
  unfoldable pub handle_message : Context D → User → Message → State D W → State D W × List Event
  unfolding pong_at set_display_name create_document_named rename_document_to delete_document_by
      delete_file_by report_progress
  handle_message c user pong (r, t) =
      ((record r { users = alter (pong_at c.now) user.user_id r.users }, t), [])
  handle_message c user (set_name raw) (r, t) = with_tree t (set_display_name c user raw r)
  handle_message c user (create_document raw) (r, t) = with_tree t (create_document_named c raw r)
  handle_message c user (rename_document i raw) (r, t) = with_tree t (rename_document_to c i raw r)
  handle_message c user (delete_document i) (r, t) = with_tree t (delete_document_by c user i r)
  handle_message c user (delete_file_message f) s = delete_file_by c user f s
  handle_message c user (upload_progress i percent) (r, t) =
      ((r, t), report_progress c user i percent r)

  -- `leave` of the socket `conn`; `left` is `self._left`, which is set in the result.
  unfoldable pub leave :
      (ℕ → W → W) → Settings → ℕ → ℕ → Bool → Bool → User → Room D W → Room D W × Bool × List Notice
  unfolding clear_awareness mark_disconnected remove_user values
  leave clear cfg now conn explicit left user r =
      let cleared = record r { awareness = clear_awareness clear user.client_id r.awareness } in
      let superseded = is_superseded conn user in
      let removed = remove_user cfg now user.user_id cleared in
      let dropped = mark_disconnected cfg now user.user_id conn cleared in
      if left
      then (r, true, [])
      else if not explicit
      then (dropped, true, if superseded then [] else presence (values dropped.users) ∷ [])
      else if superseded
      then (cleared, true, [])
      else (removed.0, true, told_left removed.1)
