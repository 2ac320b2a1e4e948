-- ===== src/Collab/Sync.antt =====
-- The binary frames of backend/app/collab/sync.py. Python's `uuid.UUID` and pycrdt are parameters:
-- `uuid_bytes` is `uuid.UUID(text).bytes`, which may raise, and `uuid_text` is `str` of the UUID
-- with these bytes.
pub mod Laws
use ephemeral_rooms.Prelude.{
  ℕ, ◌+◌, Bool, false, ◌||◌, not, Option, none, some, [], ◌∷◌, ◌++◌, if◌then◌else◌, ◌==◌, ltb, Text,
  length, take, drop,
}
use ephemeral_rooms.Storage.FileStore.{Bytes}

abbrev pub channel_crdt : ℕ
channel_crdt = 1

abbrev pub header_bytes : ℕ
header_bytes = 17

-- `YMessageType`
abbrev pub sync_message : ℕ
sync_message = 0

abbrev pub awareness_message : ℕ
awareness_message = 1

abbrev pub framed : Bytes → Option Bytes → Option Bytes
framed payload none = none
framed payload (some b) = some (channel_crdt ∷ b ++ payload)

-- `none` is the `ValueError` of an id that is no UUID.
unfoldable pub encode_frame : (Text → Option Bytes) → Text → Bytes → Option Bytes
encode_frame uuid_bytes document_id payload = framed payload (uuid_bytes document_id)

abbrev pub first_is : ℕ → Bytes → Bool
first_is n [] = false
first_is n (b ∷ bs) = b == n

-- `none` is `FrameError`.
unfoldable pub decode_frame : (Bytes → Text) → Bytes → Option (Text × Bytes)
decode_frame uuid_text frame =
    if ltb (length frame) (header_bytes + 1)
    then none
    else if not (first_is channel_crdt frame)
    then none
    else some (uuid_text (take 16 (drop 1 frame)), drop header_bytes frame)

-- `none` is `FrameError`.
unfoldable pub message_kind : Bytes → Option ℕ
message_kind [] = none
message_kind (kind ∷ payload) =
    if (kind == sync_message) || (kind == awareness_message) then some kind else none
