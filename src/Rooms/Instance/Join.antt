-- ===== src/Rooms/Instance/Join.antt =====
-- `RoomInstance.join` of backend/app/rooms/instance.py. The time and the random identifiers that a
-- call draws are its arguments; the superseded socket that it asks the event loop to close is part
-- of its result.
use ephemeral_rooms.Prelude.{
  ℕ, suc, Bool, true, false, not, ◌&&◌, Option, none, some, [], ◌∷◌, if◌then◌else◌, ◌==◌, leb,
  length, Text,
}
use ephemeral_rooms.Config.{Settings}
use ephemeral_rooms.Dict.{put, alter}
use ephemeral_rooms.Storage.Timers.{cancel_held}
use ephemeral_rooms.Rooms.Types.{active, connected, User}
use ephemeral_rooms.Rooms.Instance.State.{
  Room, connected_users, is_joinable, find_by_token, cancel_empty_grace,
}

-- What `join` draws: `new_uuid()`, `random_display_name()` and `new_session_token()`.
pub record Fresh : Type 0 where
  pub user_id : Text
  pub random_name : Text
  pub session_token : Text

-- `joined` carries the user, whether it was resumed, and the superseded socket to close.
pub data JoinOutcome : Type 0 where
  joined : User → Bool → Option ℕ → JoinOutcome
  not_joinable : JoinOutcome
  room_full : JoinOutcome

abbrev pub or_empty : Option Text → Text
or_empty none = []
or_empty (some t) = t

-- `requested_name or random_display_name()`
abbrev pub name_or : Option Text → Text → Text
name_or none random = random
name_or (some []) random = random
name_or (some (c ∷ s)) random = c ∷ s

-- The socket that a resume supersedes, if it has to be closed.
unfoldable pub to_close : (ℕ → Bool) → ℕ → Option ℕ → Option ℕ
to_close is_open conn none = none
to_close is_open conn (some previous) =
    if not (previous == conn) && is_open previous then some previous else none

-- The user that a resume leaves behind.
unfoldable pub rebind : ℕ → ℕ → User → User
rebind conn now u = record u {
  disconnect_timer = none;
  connection = some conn;
  connection_state = connected;
  last_pong_at = now;
}

module _ {D W : Type 0} where
  -- The branch of `join` for a valid token.
  unfoldable pub resume : (ℕ → Bool) → ℕ → ℕ → Text → User → Room D W → Room D W × JoinOutcome
  unfolding rebind to_close
  resume is_open now conn key existing r = (
    record r {
      users = alter (rebind conn now) key r.users;
      clock = cancel_held r.clock existing.disconnect_timer;
      state = active;
    },
    joined (rebind conn now existing) true (to_close is_open conn existing.connection),
  )

  abbrev pub new_user : ℕ → Fresh → ℕ → Option Text → Room D W → User
  new_user now fresh conn requested_name r = record {
    user_id = fresh.user_id;
    display_name = name_or requested_name fresh.random_name;
    session_token = fresh.session_token;
    client_id = suc r.join_seq;
    joined_at = now;
    connection = some conn;
    connection_state = connected;
    disconnect_timer = none;
    last_pong_at = now;
  }

  -- The branch of `join` for a new user, once the room is known not to be full.
  unfoldable pub admit : ℕ → Fresh → ℕ → Option Text → Room D W → Room D W × JoinOutcome
  admit now fresh conn requested_name r =
      let user = new_user now fresh conn requested_name r in
      (
        record r {
          join_seq = suc r.join_seq;
          users = put r.users fresh.user_id user;
          state = active;
        },
        joined user false none,
      )

  unfoldable pub admit_or_refuse :
      Settings → ℕ → Fresh → ℕ → Option Text → Room D W → Room D W × JoinOutcome
  unfolding admit connected_users
  admit_or_refuse cfg now fresh conn requested_name r =
      if leb cfg.max_users_per_room (length (connected_users r))
      then (r, room_full)
      else admit now fresh conn requested_name r

  unfoldable pub join :
      (ℕ → Bool)
      → Settings
      → ℕ
      → Fresh
      → ℕ
      → Option Text
      → Option Text
      → Room D W
      → Room D W × JoinOutcome
  unfolding is_joinable cancel_empty_grace find_by_token resume admit_or_refuse
  join is_open cfg now fresh conn session_token requested_name r =
      if not (is_joinable r)
      then (r, not_joinable)
      else let r' = cancel_empty_grace r in
        elim (find_by_token r' (or_empty session_token)) [
          | some (key, existing) ↦ resume is_open now conn key existing r'
          | none ↦ admit_or_refuse cfg now fresh conn requested_name r'
        ]
