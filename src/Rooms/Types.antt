-- ===== src/Rooms/Types.antt =====
-- backend/app/rooms/types.py: the shared data types. A connection is known by its identity, a
-- number; whether it is open is asked of the environment where the code asks `is_open`.
use ephemeral_rooms.Prelude.{ℕ, Bool, true, false, Option, Text}

pub data RoomState : Type 0 where
  active empty_grace closing closed : RoomState

pub data ConnectionState : Type 0 where
  connected disconnected : ConnectionState

-- `connection` is a socket's identity, `disconnect_timer` a handle of the room's clock.
pub record User : Type 0 where
  pub user_id : Text
  pub display_name : Text
  pub session_token : Text
  pub client_id : ℕ
  pub joined_at : ℕ
  pub connection : Option ℕ
  pub connection_state : ConnectionState
  pub disconnect_timer : Option ℕ
  pub last_pong_at : ℕ

abbrev pub is_connected : User → Bool
is_connected u = elim u.connection_state [ connected ↦ true | disconnected ↦ false ]

pub record DocumentRecord : Type 0 where
  pub document_id : Text
  pub name : Text
  pub created_at : ℕ
  pub create_seq : ℕ

pub record FileRecord : Type 0 where
  pub file_id : Text
  pub original_name : Text
  pub size : ℕ
  pub uploader_id : Text
  pub uploader_name : Text
  pub uploaded_at : ℕ

pub record UploadRecord : Type 0 where
  pub upload_id : Text
  pub file_id : Text
  pub room_code : Text
  pub room_instance_id : Text
  pub filename : Text
  pub declared_size : ℕ
  pub uploader_id : Text
  pub uploader_name : Text
  pub reservation_bytes : ℕ
  pub committed_offset : ℕ
  pub last_activity_at : ℕ
  pub aborted : Bool
  pub bytes_since_recheck : ℕ
  pub writing : Bool

-- `User.public`: what other participants are told of a user.
pub record PublicUser : Type 0 where
  pub user_id : Text
  pub display_name : Text
  pub client_id : ℕ
  pub joined_at : ℕ
  pub connected : Bool

unfoldable pub public : User → PublicUser
public u = record {
  user_id = u.user_id;
  display_name = u.display_name;
  client_id = u.client_id;
  joined_at = u.joined_at;
  connected = is_connected u;
}
