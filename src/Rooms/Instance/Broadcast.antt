-- ===== src/Rooms/Instance/Broadcast.antt =====
-- `broadcast_json`, `broadcast_bytes` and `snapshot` of backend/app/rooms/instance.py: which sockets
-- a frame is handed to, and what a joining client is shown.
use ephemeral_rooms.Prelude.{
  ℕ, Bool, false, not, ◌&&◌, Option, none, some, List, [], ◌∷◌, map, if◌then◌else◌, Text, same,
}
use ephemeral_rooms.Dict.{values}
use ephemeral_rooms.Collab.Registry.{records}
use ephemeral_rooms.Rooms.Types.{User, DocumentRecord, FileRecord, PublicUser, public}
use ephemeral_rooms.Rooms.Instance.State.{Room, connected_users}

-- The sockets that `broadcast_json` and `broadcast_bytes` hand a frame to: `_safe_send_json` and
-- `_safe_send_bytes` skip one that is not open.
unfoldable pub reaches : (ℕ → Bool) → Option Text → List User → List ℕ
reaches is_open exclude [] = []
reaches is_open exclude (u ∷ us) =
    let rest = reaches is_open exclude us in
    elim u.connection [
      | none ↦ rest
      | some c ↦
          if not (elim exclude [ none ↦ false | some x ↦ same u.user_id x ]) && is_open c
          then c ∷ rest
          else rest
    ]

pub record RoomSnapshot : Type 0 where
  pub room_code : Text
  pub users : List PublicUser
  pub documents : List DocumentRecord
  pub files : List FileRecord

module _ {D W : Type 0} where
  unfoldable pub broadcast : (ℕ → Bool) → Option Text → Room D W → List ℕ
  unfolding connected_users reaches
  broadcast is_open exclude r = reaches is_open exclude (connected_users r)

  unfoldable pub snapshot : Room D W → RoomSnapshot
  unfolding records public
  snapshot r = record {
    room_code = r.room_code;
    users = map public (values r.users);
    documents = records r.documents;
    files = values r.files;
  }
