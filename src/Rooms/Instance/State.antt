-- ===== src/Rooms/Instance/State.antt =====
-- The state of `RoomInstance` in backend/app/rooms/instance.py, and what its methods read. The types
-- `D` of a CRDT document and `W` of a document's awareness are pycrdt's.
use ephemeral_rooms.Prelude.{
  ℕ, suc, Bool, true, false, not, Option, none, some, List, [], ◌∷◌, if◌then◌else◌, keep, Text,
  same,
}
use ephemeral_rooms.Config.{Settings}
use ephemeral_rooms.Dict.{Dict, values}
use ephemeral_rooms.Storage.Timers.{Clock, idle, schedule, cancel_held}
use ephemeral_rooms.Collab.Registry.{Registry, new_registry}
use ephemeral_rooms.Rooms.Types.{
  RoomState, active, empty_grace, closing, closed, User, is_connected, FileRecord,
}

-- The two callbacks that a room schedules.
pub data Callback : Type 0 where
  remove_user_after_grace : Text → Callback
  empty_grace_elapsed : Callback

-- `uploads` holds the ids of the live uploads; the records themselves are shared with the requests
-- that are running, and live in the upload service's store.
pub record Room (D W : Type 0) : Type 0 where
  pub room_code : Text
  pub room_instance_id : Text
  pub created_at : ℕ
  pub state : RoomState
  pub op_seq : ℕ
  pub join_seq : ℕ
  pub users : Dict User
  pub documents : Registry D
  pub files : Dict FileRecord
  pub uploads : List Text
  pub awareness : Dict W
  pub created_by_url_visit : Bool
  pub empty_grace_timer : Option ℕ
  pub clock : Clock Callback

unfoldable pub find_token_in : Dict User → Text → Option (Text × User)
find_token_in [] t = none
find_token_in ((k, u) ∷ d) t = if same u.session_token t then some (k, u) else find_token_in d t

abbrev pub joinable_state : RoomState → Bool
joinable_state active = true
joinable_state empty_grace = true
joinable_state closing = false
joinable_state closed = false

abbrev pub is_active : RoomState → Bool
is_active active = true
is_active _ = false

abbrev pub is_empty_grace : RoomState → Bool
is_empty_grace empty_grace = true
is_empty_grace _ = false

abbrev pub is_empty {ℓ} : {A : Type ℓ} → List A → Bool
is_empty [] = true
is_empty (x ∷ xs) = false

module _ {D W : Type 0} where
  unfoldable pub new_room : Text → Text → ℕ → Room D W
  new_room code instance_id now = record {
    room_code = code;
    room_instance_id = instance_id;
    created_at = now;
    state = active;
    op_seq = 0;
    join_seq = 0;
    users = [];
    documents = new_registry;
    files = [];
    uploads = [];
    awareness = [];
    created_by_url_visit = false;
    empty_grace_timer = none;
    clock = idle;
  }

  unfoldable pub next_op_seq : Room D W → Room D W × ℕ
  next_op_seq r = (record r { op_seq = suc r.op_seq }, suc r.op_seq)

  unfoldable pub connected_users : Room D W → List User
  connected_users r = keep is_connected (values r.users)

  unfoldable pub is_joinable : Room D W → Bool
  is_joinable r = joinable_state r.state

  -- The dict entry of the user with this token.
  unfoldable pub find_by_token : Room D W → Text → Option (Text × User)
  unfolding find_token_in
  find_by_token r token = if same token [] then none else find_token_in r.users token

  unfoldable pub maybe_start_empty_grace : Settings → ℕ → Room D W → Room D W
  unfolding connected_users
  maybe_start_empty_grace cfg now r =
      if not (is_active r.state)
      then r
      else if not (is_empty (connected_users r))
      then r
      else record r {
        state = empty_grace;
        empty_grace_timer = some r.clock.next_handle;
        clock = schedule r.clock now cfg.room_empty_grace_ms empty_grace_elapsed;
      }

  unfoldable pub cancel_empty_grace : Room D W → Room D W
  cancel_empty_grace r = record r {
    empty_grace_timer = none;
    clock = cancel_held r.clock r.empty_grace_timer;
  }
