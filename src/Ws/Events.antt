-- ===== src/Ws/Events.antt =====
-- The outbound events of backend/app/ws/events.py, as the JSON objects that go over the wire, with
-- the `public` methods of backend/app/rooms/types.py and `client_limits` of backend/app/deps.py.
-- `color` is `color_for` of backend/app/util/names.py.
pub mod Privacy
use ephemeral_rooms.Prelude.{ℕ, Bool, Option, none, some, List, [], ◌∷◌, ◌++◌, map, Text, codes}
use ephemeral_rooms.Prelude.Int.{ℤ, pos}
use ephemeral_rooms.Config.{Settings}
use ephemeral_rooms.Dict.{values}
use ephemeral_rooms.Collab.Registry.{records}
use ephemeral_rooms.Rooms.Types.{User, DocumentRecord, FileRecord, is_connected}
use ephemeral_rooms.Rooms.Instance.State.{Room}

mutual
  pub data Json : Type 0 where
    string : Text → Json
    number : ℤ → Json
    boolean : Bool → Json
    array : Items → Json
    object : Fields → Json

  pub data Items : Type 0 where
    end : Items
    item : Json → Items → Items

  pub data Fields : Type 0 where
    done : Fields
    field : Text → Json → Fields → Fields

abbrev pub items : List Json → Items
items [] = end
items (j ∷ js) = item j (items js)

-- A dict display, in the order of its keys.
abbrev pub fields : List (Text × Json) → Fields
fields [] = done
fields ((k, j) ∷ kjs) = field k j (fields kjs)

abbrev pub dict : List (Text × Json) → Json
dict kjs = object (fields kjs)

abbrev pub nat : ℕ → Json
nat n = number (pos n)

-- An event of this type.
abbrev pub event : Text → List (Text × Json) → Json
event type kjs = dict ((codes "type", string type) ∷ kjs)

-- `User.public`
abbrev pub user_fields : User → List (Text × Json)
user_fields u =
    (codes "userId", string u.user_id)
    ∷ (codes "displayName", string u.display_name)
    ∷ (codes "clientId", nat u.client_id)
    ∷ (codes "joinedAt", nat u.joined_at)
    ∷ (codes "connected", boolean (is_connected u))
    ∷ []

-- `DocumentRecord.public`
abbrev pub document_json : DocumentRecord → Json
document_json d = dict (
    (codes "documentId", string d.document_id)
    ∷ (codes "name", string d.name)
    ∷ (codes "createdAt", nat d.created_at)
    ∷ (codes "createSeq", nat d.create_seq)
    ∷ [])

-- `FileRecord.public`
abbrev pub file_json : FileRecord → Json
file_json f = dict (
    (codes "fileId", string f.file_id)
    ∷ (codes "name", string f.original_name)
    ∷ (codes "size", nat f.size)
    ∷ (codes "uploaderId", string f.uploader_id)
    ∷ (codes "uploaderName", string f.uploader_name)
    ∷ (codes "uploadedAt", nat f.uploaded_at)
    ∷ [])

-- `RoomInstance.snapshot`
unfoldable pub snapshot_json : {D W : Type 0} → Room D W → Json
snapshot_json r = dict (
    (codes "roomCode", string r.room_code)
    ∷ (codes "users", array (items (map (λ u. dict (user_fields u)) (values r.users))))
    ∷ (codes "documents", array (items (map document_json (records r.documents))))
    ∷ (codes "files", array (items (map file_json (values r.files))))
    ∷ [])

unfoldable pub client_limits : Settings → Json
client_limits cfg = dict (
    (codes "maxDocs", nat cfg.max_docs_per_room)
    ∷ (codes "maxDocBytes", nat cfg.max_doc_bytes)
    ∷ (codes "maxFiles", nat cfg.max_files_per_room)
    ∷ (codes "maxFileBytes", nat cfg.max_file_bytes)
    ∷ (codes "maxDisplayNameChars", nat cfg.max_display_name_chars)
    ∷ (codes "maxDocNameChars", nat cfg.max_doc_name_chars)
    ∷ (codes "maxFilenameChars", nat cfg.max_filename_chars)
    ∷ (codes "uploadChunkBytes", nat cfg.upload_chunk_bytes)
    ∷ (codes "maxUploadsPerUser", nat cfg.max_uploads_per_user)
    ∷ (codes "heartbeatIntervalMs", nat cfg.ws_heartbeat_interval_ms)
    ∷ [])

unfoldable pub joined : (Text → Text) → User → Text → Json → Bool → Bool → ℕ → ℤ → Json → Json
joined color u room_code room_snapshot resumed room_was_created storage_available memory_available
      limits =
    event (codes "joined") (
      (codes "userId", string u.user_id)
      ∷ (codes "clientId", nat u.client_id)
      ∷ (codes "sessionToken", string u.session_token)
      ∷ (codes "displayName", string u.display_name)
      ∷ (codes "color", string (color u.user_id))
      ∷ (codes "roomCode", string room_code)
      ∷ (codes "resumed", boolean resumed)
      ∷ (codes "roomWasCreated", boolean room_was_created)
      ∷ (codes "room", room_snapshot)
      ∷ (codes "storageAvailable", nat storage_available)
      ∷ (codes "memoryAvailable", number memory_available)
      ∷ (codes "limits", limits)
      ∷ [])

unfoldable pub user_joined : (Text → Text) → User → Json
user_joined color u =
    event (codes "user_joined")
      ((codes "user", dict (user_fields u)) ∷ (codes "color", string (color u.user_id)) ∷ [])

unfoldable pub user_left : User → Json
user_left u =
    event (codes "user_left")
      ((codes "userId", string u.user_id) ∷ (codes "displayName", string u.display_name) ∷ [])

unfoldable pub user_updated : User → ℕ → Json
user_updated u op_seq =
    event (codes "user_updated")
      ((codes "user", dict (user_fields u)) ∷ (codes "opSeq", nat op_seq) ∷ [])

-- `{**u.public(), "color": color_for(u.user_id)}`
abbrev pub presence_of : (Text → Text) → User → Json
presence_of color u = dict (user_fields u ++ (codes "color", string (color u.user_id)) ∷ [])

unfoldable pub presence : (Text → Text) → List User → Json
presence color users =
    event (codes "presence") ((codes "users", array (items (map (presence_of color) users))) ∷ [])

unfoldable pub document_created : DocumentRecord → ℕ → Json
document_created d op_seq =
    event (codes "document_created")
      ((codes "document", document_json d) ∷ (codes "opSeq", nat op_seq) ∷ [])

unfoldable pub document_renamed : DocumentRecord → ℕ → Json
document_renamed d op_seq = event (codes "document_renamed") (
    (codes "documentId", string d.document_id)
    ∷ (codes "name", string d.name)
    ∷ (codes "opSeq", nat op_seq)
    ∷ [])

unfoldable pub document_deleted : DocumentRecord → Text → ℕ → Json
document_deleted d by_name op_seq = event (codes "document_deleted") (
    (codes "documentId", string d.document_id)
    ∷ (codes "name", string d.name)
    ∷ (codes "deletedBy", string by_name)
    ∷ (codes "opSeq", nat op_seq)
    ∷ [])

unfoldable pub file_added : FileRecord → Text → Json
file_added f upload_id =
    event (codes "file_added")
      ((codes "file", file_json f) ∷ (codes "uploadId", string upload_id) ∷ [])

unfoldable pub upload_ended : Text → Text → Json
upload_ended upload_id reason =
    event (codes "upload_ended")
      ((codes "uploadId", string upload_id) ∷ (codes "reason", string reason) ∷ [])

unfoldable pub file_deleted : Text → Text → Text → Json
file_deleted file_id name by_name = event (codes "file_deleted") (
    (codes "fileId", string file_id)
    ∷ (codes "name", string name)
    ∷ (codes "deletedBy", string by_name)
    ∷ [])

unfoldable pub upload_progress : Text → Text → ℕ → Text → Json
upload_progress upload_id uploader_name percent filename = event (codes "upload_progress") (
    (codes "uploadId", string upload_id)
    ∷ (codes "uploaderName", string uploader_name)
    ∷ (codes "filename", string filename)
    ∷ (codes "percent", nat percent)
    ∷ [])

unfoldable pub storage : ℕ → ℤ → Json
storage available memory_available =
    event (codes "storage")
      ((codes "available", nat available) ∷ (codes "memoryAvailable", number memory_available) ∷ [])

unfoldable pub ping : ℕ → Json
ping now_ms = event (codes "ping") ((codes "t", nat now_ms) ∷ [])

unfoldable pub room_closing : Text → Json
room_closing reason = event (codes "room_closing") ((codes "reason", string reason) ∷ [])

abbrev pub reference_of : Option Text → List (Text × Json)
reference_of none = []
reference_of (some id) = (codes "reference", string id) ∷ []

unfoldable pub error : Text → Text → Option Text → Json
error code message correlation_id =
    event (codes "error") (
      (codes "code", string code) ∷ (codes "message", string message) ∷ reference_of correlation_id)
