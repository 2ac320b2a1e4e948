-- ===== src/Rooms/Instance/Invariant.antt =====
-- The invariant of a room of backend/app/rooms/instance.py that has not begun to close.
use ephemeral_rooms.Prelude.{ℕ, ◌≤◌, ◌≡◌, ◌≢◌, true, Option, none, some, [], Text, is_some, ◌⊎◌}
use ephemeral_rooms.Dict.{Dict, get}
use ephemeral_rooms.Dict.Distinct.{Distinct}
use ephemeral_rooms.Rooms.Types.{
  User, ConnectionState, connected, disconnected, RoomState, active, empty_grace, closing, closed,
}
use ephemeral_rooms.Rooms.Instance.State.{Room}
use ephemeral_rooms.Rooms.Instance.Presence.{connected_in}
use ephemeral_rooms.Rooms.Instance.Timers.{Timed}

-- A connected user has a socket and no removal pending; a disconnected one has lost its socket and
-- waits for its removal.
abbrev pub Attached : ConnectionState → Option ℕ → Option ℕ → Type 0
Attached connected connection timer = (is_some connection ≡ true) × (timer ≡ none)
Attached disconnected connection timer = (connection ≡ none) × (is_some timer ≡ true)

pub record IsMember (join_seq : ℕ) (k : Text) (u : User) : Type 0 where
  pub keyed : u.user_id ≡ k
  pub numbered : u.client_id ≤ join_seq
  pub attached : Attached u.connection_state u.connection u.disconnect_timer

pub record Members (users : Dict User) (join_seq : ℕ) : Type 0 where
  pub distinct : Distinct users
  pub each : (k : Text) (u : User) → get users k ≡ some u → IsMember join_seq k u
  pub clients :
      (j k : Text) (u v : User)
      → get users j ≡ some u
      → get users k ≡ some v
      → u.client_id ≡ v.client_id
      → j ≡ k

-- ACTIVE: someone is connected, or nobody has ever joined, and no closing is pending.
-- EMPTY_GRACE: nobody is connected and the closing is pending. Neither holds past the door.
abbrev pub Phase : RoomState → Option ℕ → Dict User → ℕ → Type 0
Phase active grace users join_seq = (grace ≡ none) × ((connected_in users ≢ []) ⊎ (join_seq ≡ 0))
Phase empty_grace grace users join_seq = (is_some grace ≡ true) × (connected_in users ≡ [])
Phase closing grace users join_seq = ⊥
Phase closed grace users join_seq = ⊥

pub record IsValid {D W : Type 0} (r : Room D W) : Type 0 where
  pub timed : Timed r.users r.empty_grace_timer r.clock
  pub members : Members r.users r.join_seq
  pub phase : Phase r.state r.empty_grace_timer r.users r.join_seq
