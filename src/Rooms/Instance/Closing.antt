-- ===== src/Rooms/Instance/Closing.antt =====
-- The timer of a room's empty grace, in backend/app/rooms/instance.py, and the time of its closing.
use ephemeral_rooms.Prelude.{
  ℕ, ◌+◌, ◌≤◌, ◌≡◌, ◌↔◌, false, Option, none, some, ap, ◌∙◌, arith, ◌==◌, Text, inl, inr,
  Option-cases,
}
use ephemeral_rooms.Config.{Settings}
use ephemeral_rooms.Dict.{get}
use ephemeral_rooms.Storage.Timers.{
  Clock, find, callback_at-some, callback_at-none, find_lt, next_handle-cancel_held, cancel_held,
  find-cancel_held, find-schedule, find-cancel,
}
use ephemeral_rooms.Rooms.Types.{active, empty_grace}
use ephemeral_rooms.Rooms.Instance.State.{
  Room, Callback, remove_user_after_grace, empty_grace_elapsed, maybe_start_empty_grace,
}
use ephemeral_rooms.Rooms.Instance.Depart.{
  begin_closing, mark_disconnected, remove_user, remove_lapsed, on_empty_grace_elapsed, fire,
  run_callback, timer_of, drop_connection,
}
use ephemeral_rooms.Rooms.Instance.Invariant.{IsValid}

-- The time at which a handle runs out.
abbrev pub due_at : Clock Callback → ℕ → Option ℕ
due_at c i = elim (find c i) [ none ↦ none | some t ↦ some t.due ]

module _ {D W : Type 0} where
  -- The time at which the room closes if nobody comes.
  abbrev pub deadline : Room D W → Option ℕ
  deadline r = elim r.empty_grace_timer [ none ↦ none | some i ↦ due_at r.clock i ]

  -- In a valid room a timer begins the closing exactly when it is the room's own, still pending,
  -- and its time has come.
  pub fire-begin_closing :
      (cfg : Settings) (now i : ℕ) (r : Room D W)
      → IsValid r
      → ((fire cfg now i r).1 ≡ begin_closing)
        ↔ ((d : ℕ) × (r.empty_grace_timer ≡ some i) × (due_at r.clock i ≡ some d) × (d ≤ now))
  unfolding fire run_callback remove_lapsed on_empty_grace_elapsed
  fire-begin_closing cfg now i r v = (forth, back)
    where
      forth :
          (fire cfg now i r).1 ≡ begin_closing
          → (d : ℕ) × (r.empty_grace_timer ≡ some i) × (due_at r.clock i ≡ some d) × (d ≤ now)
      forth e = elim (Option-cases (find r.clock i)) [
        | inl off ↦ absurd (ground arith)
        | inr (t, on) ↦ (
          t.due,
          (v.timed.closing i).1 (callback_at-some r.clock i t on ∙ ap some (ground arith)),
          ground arith,
          (ground arith),
        )
      ]

      back :
          (d : ℕ) × (r.empty_grace_timer ≡ some i) × (due_at r.clock i ≡ some d) × (d ≤ now)
          → (fire cfg now i r).1 ≡ begin_closing
      back (d, own, due, late) = elim (Option-cases (find r.clock i)) [
        | inl off ↦ ground (arith, v.timed.closing i)
        | inr (t, on) ↦ ground (arith, v.timed.closing i, callback_at-some r.clock i t on, v.phase)
      ]

  -- The last departure sets the deadline one full grace ahead.
  deadline-maybe_start :
      (cfg : Settings) (now : ℕ) (r : Room D W)
      → r.state ≡ active
      → (maybe_start_empty_grace cfg now r).state ≡ empty_grace
      → deadline (maybe_start_empty_grace cfg now r) ≡ some (now + cfg.room_empty_grace_ms)
  unfolding maybe_start_empty_grace
  deadline-maybe_start cfg now r a e = ground (
    arith,
    find-schedule r.clock now cfg.room_empty_grace_ms empty_grace_elapsed r.clock.next_handle,
  )

  -- Once past ACTIVE, `_maybe_start_empty_grace` does nothing.
  maybe_start_again :
      (cfg : Settings) (now : ℕ) (r : Room D W)
      → r.state ≡ empty_grace
      → maybe_start_empty_grace cfg now r ≡ r
  unfolding maybe_start_empty_grace
  maybe_start_again cfg now r e = ground arith

  -- A user's timer is not the room's.
  other_handle :
      (r : Room D W) (k : Text) (i j : ℕ)
      → IsValid r
      → r.empty_grace_timer ≡ some i
      → timer_of (get r.users k) ≡ some j
      → (j == i) ≡ false
  other_handle r k i j v e f = ground (arith, v.timed.closing i, v.timed.removals k j)

  due_at-cancel_held :
      (r : Room D W) (k : Text) (i : ℕ)
      → IsValid r
      → r.empty_grace_timer ≡ some i
      → due_at (cancel_held r.clock (timer_of (get r.users k))) i ≡ due_at r.clock i
  due_at-cancel_held r k i v e = elim (Option-cases (timer_of (get r.users k))) [
    | inl off ↦ ground (arith, find-cancel_held r.clock (timer_of (get r.users k)) i)
    | inr (j, on) ↦
        ground (
          arith,
          find-cancel_held r.clock (timer_of (get r.users k)) i,
          other_handle r k i j v e on,
        )
  ]

  -- In a valid room in EMPTY_GRACE, a departure leaves the time of its closing as it was.
  pub deadline-remove_user :
      (cfg : Settings) (now : ℕ) (k : Text) (r : Room D W)
      → IsValid r
      → r.state ≡ empty_grace
      → deadline (remove_user cfg now k r).0 ≡ deadline r
  unfolding remove_user maybe_start_empty_grace
  deadline-remove_user cfg now k r v e = elim (Option-cases r.empty_grace_timer) [
    | inl off ↦ ground (arith, v.phase)
    | inr (i, on) ↦ ground (arith, due_at-cancel_held r k i v on)
  ]

  -- The handle of the pending closing is not the next one.
  held_not_next :
      (r : Room D W) (o : Option ℕ) (i : ℕ)
      → IsValid r
      → r.empty_grace_timer ≡ some i
      → ((cancel_held r.clock o).next_handle == i) ≡ false
  held_not_next r o i v e = elim (Option-cases (find r.clock i)) [
    | inl off ↦ absurd (ground (arith, v.timed.closing i, callback_at-none r.clock i off))
    | inr (t, on) ↦
        ground (arith, find_lt r.clock i t v.timed.fresh on, next_handle-cancel_held r.clock o)
  ]

  -- In a valid room in EMPTY_GRACE, a socket that is reported gone leaves the time of its closing
  -- as it was.
  pub deadline-mark_disconnected :
      (cfg : Settings) (now : ℕ) (k : Text) (conn : ℕ) (r : Room D W)
      → IsValid r
      → r.state ≡ empty_grace
      → deadline (mark_disconnected cfg now k conn r) ≡ deadline r
  unfolding mark_disconnected maybe_start_empty_grace drop_connection
  deadline-mark_disconnected cfg now k conn r v e = elim (Option-cases r.empty_grace_timer) [
    | inl off ↦ ground (arith, v.phase)
    | inr (i, on) ↦ elim (Option-cases (get r.users k)) [
      | inl absent ↦ ground arith
      | inr (u, there) ↦ ground (
        arith,
        due_at-cancel_held r k i v on,
        held_not_next r u.disconnect_timer i v on,
        find-schedule (cancel_held r.clock u.disconnect_timer) now cfg.user_reconnect_grace_ms
            (remove_user_after_grace k) i,
      )
    ]
  ]

  -- In a valid room in EMPTY_GRACE, a timer that leaves it there, such as the removal of a user,
  -- leaves the time of its closing as it was.
  pub deadline-fire :
      (cfg : Settings) (now h : ℕ) (r : Room D W)
      → IsValid r
      → r.state ≡ empty_grace
      → (fire cfg now h r).0.state ≡ empty_grace
      → deadline (fire cfg now h r).0 ≡ deadline r
  unfolding fire run_callback remove_lapsed on_empty_grace_elapsed maybe_start_empty_grace
  deadline-fire cfg now h r v e s = elim (Option-cases r.empty_grace_timer) [
    | inl off ↦ ground (arith, v.phase)
    | inr (i, on) ↦ elim (Option-cases (find r.clock h)) [
      | inl off ↦ ground arith
      | inr (t, due) ↦ ground (
        arith,
        callback_at-some r.clock h t due,
        v.timed.closing h,
        v.timed.closing i,
        find-cancel r.clock h i,
      )
    ]
  ]
