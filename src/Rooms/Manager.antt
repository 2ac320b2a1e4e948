-- ===== src/Rooms/Manager.antt =====
-- `RoomManager` of backend/app/rooms/manager.py. Rooms are objects that the map and the running
-- cleanup tasks share: `instances` is the store of these objects by instance id, `rooms` the map
-- from codes to them.
pub mod Codes
pub mod Allocation
pub mod Closing
pub mod Keeps
pub mod Steps
pub mod Freeing
pub mod Apart
pub mod Effects
pub mod Lifecycle
pub mod Shutdown
use ephemeral_rooms.Prelude.{
  ℕ, Bool, true, false, not, ◌&&◌, Option, none, some, List, [], ◌∷◌, if◌then◌else◌, leb, length,
  Text, same,
}
use ephemeral_rooms.Config.{Settings}
use ephemeral_rooms.Dict.{Dict, get, has, put, pop, alter}
use ephemeral_rooms.Storage.FileStore.{FileTree, create_room_dirs}
use ephemeral_rooms.Rooms.Types.{closing}
use ephemeral_rooms.Rooms.Instance.State.{Room, new_room, is_joinable, joinable_state}
use ephemeral_rooms.Rooms.Instance.Depart.{cancel_all_timers}
use Codes.{allocate_code}

pub record Manager (D W : Type 0) : Type 0 where
  pub rooms : Dict Text
  pub instances : Dict (Room D W)
  pub store : FileTree
  pub closing_tasks : List Text

-- `room_code or self.allocate_code()`
abbrev pub or_allocate : Option Text → Option Text → Option Text
or_allocate none allocated = allocated
or_allocate (some []) allocated = allocated
or_allocate (some (c ∷ code)) allocated = some (c ∷ code)

module _ {D W : Type 0} where
  -- The object that the map holds for a code.
  unfoldable pub lookup : Manager D W → Text → Option (Room D W)
  lookup m code = elim (get m.rooms code) [ none ↦ none | some i ↦ get m.instances i ]

  -- `RoomInstance(…)` under a fresh instance id, its entry in the map, and its directories.
  unfoldable pub open_room : Text → Text → ℕ → Manager D W → Manager D W
  open_room code instance_id now m = record m {
    rooms = put m.rooms code instance_id;
    instances = put m.instances instance_id (new_room code instance_id now);
    store = create_room_dirs instance_id m.store;
  }

  -- `none` is `NoCodesAvailableError`. `draws` are the values of `secrets.randbelow`.
  unfoldable pub create :
      Settings → (ℕ → ℕ) → Text → ℕ → Option Text → Manager D W → Option (Manager D W × Text)
  unfolding open_room
  create cfg draws instance_id now room_code m =
      elim (or_allocate room_code (allocate_code cfg.max_rooms draws m.rooms)) [
        | none ↦ none
        | some code ↦
            if leb cfg.max_rooms (length m.rooms) && not (has m.rooms code)
            then none
            else some (open_room code instance_id now m, instance_id)
      ]

  abbrev pub mark_visited : Room D W → Room D W
  mark_visited r = record r { created_by_url_visit = true }

  -- `room.created_by_url_visit = True; return room, True`
  abbrev pub visited : Option (Manager D W × Text) → Option (Manager D W × Text × Bool)
  visited none = none
  visited (some (m, i)) = some (record m { instances = alter mark_visited i m.instances }, i, true)

  -- The instance that a code leads to, and whether it was created for this call.
  unfoldable pub get_or_create :
      Settings → (ℕ → ℕ) → Text → ℕ → Text → Manager D W → Option (Manager D W × Text × Bool)
  unfolding create lookup is_joinable
  get_or_create cfg draws instance_id now room_code m = elim (lookup m room_code) [
    | some r ↦
        if is_joinable r
        then some (m, r.room_instance_id, false)
        else visited (create cfg draws instance_id now (some room_code) m)
    | none ↦ visited (create cfg draws instance_id now (some room_code) m)
  ]

  -- The code is dropped first, if it still leads to this object; then the cleanup task starts.
  unfoldable pub begin_closing : Room D W → Manager D W → Manager D W
  begin_closing r m = record m {
    rooms =
        if elim (get m.rooms r.room_code) [ none ↦ false | some i ↦ same i r.room_instance_id ]
        then pop m.rooms r.room_code
        else m.rooms;
    closing_tasks = r.room_instance_id ∷ m.closing_tasks;
  }

  abbrev pub forced : Room D W → Room D W
  forced r = record (cancel_all_timers r) { state = closing }

  unfoldable pub close_room_now : Text → Manager D W → Manager D W
  unfolding begin_closing
  close_room_now i m = elim (get m.instances i) [
    | none ↦ m
    | some r ↦
        if joinable_state r.state
        then begin_closing r (record m { instances = alter forced i m.instances })
        else m
  ]

  -- `shutdown`, over the rooms that the map held when it began.
  unfoldable pub shutdown : List Text → Manager D W → Manager D W
  unfolding close_room_now
  shutdown [] m = m
  shutdown (i ∷ is) m = shutdown is (close_room_now i m)
