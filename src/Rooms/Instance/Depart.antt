-- ===== src/Rooms/Instance/Depart.antt =====
-- How users leave a room and how the room closes: `mark_disconnected`, `remove_user`, the two timer
-- callbacks and `cancel_all_timers` of backend/app/rooms/instance.py.
use ephemeral_rooms.Prelude.{
  ℕ, Bool, false, not, Option, none, some, [], ◌∷◌, if◌then◌else◌, ◌==◌, ltb, Text,
}
use ephemeral_rooms.Config.{Settings}
use ephemeral_rooms.Dict.{Dict, get, pop, alter}
use ephemeral_rooms.Storage.Timers.{Clock, find, schedule, cancel, cancel_held}
use ephemeral_rooms.Rooms.Types.{closing, closed, disconnected, User, is_connected}
use ephemeral_rooms.Rooms.Instance.State.{
  Callback, remove_user_after_grace, empty_grace_elapsed, Room, is_empty_grace,
  maybe_start_empty_grace, cancel_empty_grace,
}

-- Whether another socket has taken the user over.
abbrev pub is_superseded : ℕ → User → Bool
is_superseded conn u = elim u.connection [ none ↦ false | some c ↦ not (c == conn) ]

abbrev pub dropped_user : ℕ → User → User
dropped_user handle u = record u {
  connection = none;
  connection_state = disconnected;
  disconnect_timer = some handle;
}

abbrev pub timer_of : Option User → Option ℕ
timer_of none = none
timer_of (some u) = u.disconnect_timer

-- What the event loop has to do once a timer has run.
pub data Fired : Type 0 where
  nothing : Fired
  user_left : User → Fired
  begin_closing : Fired

unfoldable pub clear_timer : User → User
clear_timer u = record u { disconnect_timer = none }

-- The handles that the users hold, in dict order.
unfoldable pub cancel_users : Dict User → Clock Callback → Clock Callback
cancel_users [] c = c
cancel_users ((k, u) ∷ d) c = cancel_users d (cancel_held c u.disconnect_timer)

unfoldable pub clear_users : Dict User → Dict User
clear_users [] = []
clear_users ((k, u) ∷ d) = (k, clear_timer u) ∷ clear_users d

module _ {D W : Type 0} where
  -- The part of `mark_disconnected` behind its two guards.
  unfoldable pub drop_connection : Settings → ℕ → Text → User → Room D W → Room D W
  drop_connection cfg now user_id u r =
      let cleared = cancel_held r.clock u.disconnect_timer in
      record r {
        users = alter (dropped_user cleared.next_handle) user_id r.users;
        clock = schedule cleared now cfg.user_reconnect_grace_ms (remove_user_after_grace user_id);
      }

  unfoldable pub mark_disconnected : Settings → ℕ → Text → ℕ → Room D W → Room D W
  unfolding drop_connection maybe_start_empty_grace
  mark_disconnected cfg now user_id conn r = elim (get r.users user_id) [
    | none ↦ r
    | some u ↦
        if is_superseded conn u
        then r
        else maybe_start_empty_grace cfg now (drop_connection cfg now user_id u r)
  ]

  unfoldable pub remove_user : Settings → ℕ → Text → Room D W → Room D W × Option User
  unfolding maybe_start_empty_grace
  remove_user cfg now user_id r =
      let gone = get r.users user_id in
      (
        maybe_start_empty_grace cfg now
            (record r { users = pop r.users user_id; clock = cancel_held r.clock (timer_of gone) }),
        gone,
      )

  -- `_remove`, the callback of the reconnect grace.
  unfoldable pub remove_lapsed : Settings → ℕ → Text → Room D W → Room D W × Fired
  unfolding maybe_start_empty_grace
  remove_lapsed cfg now user_id r = elim (get r.users user_id) [
    | none ↦ (r, nothing)
    | some u ↦ if is_connected u then (r, nothing) else (
      maybe_start_empty_grace cfg now (record r { users = pop r.users user_id }),
      user_left u,
    )
  ]

  unfoldable pub on_empty_grace_elapsed : Room D W → Room D W × Fired
  on_empty_grace_elapsed r =
      if is_empty_grace r.state
      then (record r { empty_grace_timer = none; state = closing }, begin_closing)
      else (r, nothing)

  unfoldable pub run_callback : Settings → ℕ → Callback → Room D W → Room D W × Fired
  unfolding remove_lapsed on_empty_grace_elapsed
  run_callback cfg now (remove_user_after_grace user_id) r = remove_lapsed cfg now user_id r
  run_callback cfg now empty_grace_elapsed r = on_empty_grace_elapsed r

  -- A pending timer whose time has come runs its callback, once.
  unfoldable pub fire : Settings → ℕ → ℕ → Room D W → Room D W × Fired
  unfolding run_callback
  fire cfg now handle r = elim (find r.clock handle) [
    | none ↦ (r, nothing)
    | some t ↦
        if ltb now t.due
        then (r, nothing)
        else run_callback cfg now t.callback (record r { clock = cancel r.clock handle })
  ]

  unfoldable pub mark_closed : Room D W → Room D W
  mark_closed r = record r { state = closed }

  unfoldable pub cancel_all_timers : Room D W → Room D W
  unfolding cancel_empty_grace cancel_users clear_users
  cancel_all_timers r =
      let r' = cancel_empty_grace r in
      record r' { users = clear_users r'.users; clock = cancel_users r'.users r'.clock }
