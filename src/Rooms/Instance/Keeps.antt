-- ===== src/Rooms/Instance/Keeps.antt =====
-- The invariant under the departures and the removal timer of backend/app/rooms/instance.py.
use ephemeral_rooms.Prelude.{
  ℕ, ◌≡◌, refl, true, false, Option, none, some, [], arith, Text, is_some, inl, inr, Option-cases,
  Bool-cases, same_refl, subst,
}
use ephemeral_rooms.Config.{Settings}
use ephemeral_rooms.Dict.{Dict, get, pop, alter, get-alter, alter-alter}
use ephemeral_rooms.Storage.Timers.{Clock, schedule, cancel, cancel_held, callback_at}
use ephemeral_rooms.Rooms.Types.{
  User, is_connected, RoomState, active, empty_grace, closing, closed,
}
use ephemeral_rooms.Rooms.Instance.State.{
  Room, Callback, remove_user_after_grace, maybe_start_empty_grace, is_empty, is_active,
}
use ephemeral_rooms.Rooms.Instance.Depart.{
  timer_of, clear_timer, drop_connection, dropped_user, mark_disconnected, remove_user,
  remove_lapsed, is_superseded,
}
use ephemeral_rooms.Rooms.Instance.Presence.{connected_in, connected_in-pop, connected_in-alter}
use ephemeral_rooms.Rooms.Instance.Timers.{
  Timed, start_grace-Timed, clear-Timed, pop-Timed, arm-Timed,
}
use ephemeral_rooms.Rooms.Instance.Invariant.{IsValid, Members}
use ephemeral_rooms.Rooms.Instance.Members.{pop-Members, alter-Members}

-- What a departure leaves before `_maybe_start_empty_grace` looks at it.
abbrev Settling : RoomState → Option ℕ → Dict User → Type 0
Settling active grace users = grace ≡ none
Settling empty_grace grace users = (is_some grace ≡ true) × (connected_in users ≡ [])
Settling closing grace users = ⊥
Settling closed grace users = ⊥

module _ {D W : Type 0} where
  settle-IsValid :
      (cfg : Settings) (now : ℕ) (r : Room D W)
      → Timed r.users r.empty_grace_timer r.clock
      → Members r.users r.join_seq
      → Settling r.state r.empty_grace_timer r.users
      → IsValid (maybe_start_empty_grace cfg now r)
  unfolding maybe_start_empty_grace
  settle-IsValid cfg now r t m s = elim (Bool-cases (is_active r.state)) [
    | inl at_work ↦ elim (Bool-cases (is_empty (connected_in r.users))) [
      | inl deserted ↦
          rw (at_work, deserted, maybe_start_empty_grace)
            (record {
              timed = start_grace-Timed t now cfg.room_empty_grace_ms (ground arith);
              members = m;
              phase = ground arith;
            })
      | inr somebody ↦
          rw (at_work, somebody, maybe_start_empty_grace)
            (record { timed = t; members = m; phase = ground arith })
    ]
    | inr elsewhere ↦
        rw (elsewhere, maybe_start_empty_grace)
          (record { timed = t; members = m; phase = ground arith })
  ]

  abbrev without : Text → Clock Callback → Room D W → Room D W
  without k clock r = record r { users = pop r.users k; clock = clock }

  -- A user leaves the dict, and its timer is off.
  without-IsValid :
      (cfg : Settings) (now : ℕ) (k : Text) (r : Room D W)
      → IsValid r
      → IsValid (
          maybe_start_empty_grace cfg now
            (without k (cancel_held r.clock (timer_of (get r.users k))) r))
  without-IsValid cfg now k r v =
      settle-IsValid cfg now (without k (cancel_held r.clock (timer_of (get r.users k))) r)
        (pop-Timed v.timed k) (pop-Members v.members k)
        (ground (arith, v.phase, connected_in-pop r.users k))

  pub remove_user-IsValid :
      (cfg : Settings) (now : ℕ) (k : Text) (r : Room D W)
      → IsValid r
      → IsValid (remove_user cfg now k r).0
  unfolding remove_user
  remove_user-IsValid cfg now k r v = without-IsValid cfg now k r v

  drop_connection-Timed :
      (cfg : Settings) (now : ℕ) (k : Text) (u : User) (r : Room D W)
      → IsValid r
      → get r.users k ≡ some u
      → let r' = drop_connection cfg now k u r in Timed r'.users r'.empty_grace_timer r'.clock
  unfolding drop_connection clear_timer
  drop_connection-Timed cfg now k u r v here =
      let clock = cancel_held r.clock u.disconnect_timer in
      let cleared : Timed (alter clear_timer k r.users) r.empty_grace_timer clock =
        rw here at (clear-Timed v.timed k clear_timer (λ x. refl)) in
      let unarmed : get (alter clear_timer k r.users) k ≡ some (clear_timer u) =
        ground (arith, get-alter clear_timer r.users k k, same_refl k) in
      let armed =
        arm-Timed cleared k (dropped_user clock.next_handle) (clear_timer u) now
          cfg.user_reconnect_grace_ms (λ x. refl) unarmed refl in
      subst
        (λ us.
          Timed us r.empty_grace_timer
            (schedule clock now cfg.user_reconnect_grace_ms (remove_user_after_grace k)))
        (alter-alter (dropped_user clock.next_handle) clear_timer k r.users) armed

  drop_connection-IsValid :
      (cfg : Settings) (now : ℕ) (k : Text) (u : User) (r : Room D W)
      → IsValid r
      → get r.users k ≡ some u
      → IsValid (maybe_start_empty_grace cfg now (drop_connection cfg now k u r))
  drop_connection-IsValid cfg now k u r v here =
      settle-IsValid cfg now (drop_connection cfg now k u r)
        (drop_connection-Timed cfg now k u r v here)
        (unfold drop_connection in
          alter-Members v.members
            (dropped_user (cancel_held r.clock u.disconnect_timer).next_handle) k (λ x. refl)
            (λ x. refl) (λ x. (refl, refl)))
        (unfold drop_connection in
          ground (
            arith,
            v.phase,
            connected_in-alter (dropped_user (cancel_held r.clock u.disconnect_timer).next_handle) k
                r.users (λ x. refl),
          ))

  pub mark_disconnected-IsValid :
      (cfg : Settings) (now : ℕ) (k : Text) (conn : ℕ) (r : Room D W)
      → IsValid r
      → IsValid (mark_disconnected cfg now k conn r)
  unfolding mark_disconnected
  mark_disconnected-IsValid cfg now k conn r v = elim (Option-cases (get r.users k)) [
    | inl absent ↦ rw (absent, mark_disconnected) v
    | inr (u, here) ↦ elim (Bool-cases (is_superseded conn u)) [
      | inl stale ↦ rw (here, mark_disconnected) (rw stale v)
      | inr current ↦
          rw (here, mark_disconnected) (rw current (drop_connection-IsValid cfg now k u r v here))
    ]
  ]

  -- The timer that `fire` takes off the clock is the removed user's own.
  pub remove_lapsed-IsValid :
      (cfg : Settings) (now i : ℕ) (k : Text) (r : Room D W)
      → IsValid r
      → callback_at r.clock i ≡ some (remove_user_after_grace k)
      → IsValid (remove_lapsed cfg now k (record r { clock = cancel r.clock i })).0
  unfolding remove_lapsed cancel_held
  remove_lapsed-IsValid cfg now i k r v due = elim (Option-cases (get r.users k)) [
    | inl absent ↦ absurd (ground (arith, v.timed.removals k i))
    | inr (u, here) ↦
        rw (here, remove_lapsed)
          (rw (lapsed u here) (
            subst
              (λ o. IsValid (maybe_start_empty_grace cfg now (without k (cancel_held r.clock o) r)))
              ((v.timed.removals k i).1 due) (without-IsValid cfg now k r v)))
  ]
    where
      lapsed : (u : User) → get r.users k ≡ some u → is_connected u ≡ false
      lapsed u here = ground (arith, v.timed.removals k i, v.members.each k u)
