-- ===== src/Rooms/Instance/Lifecycle.antt =====
-- The life of a room of backend/app/rooms/instance.py as a step relation: joins, drops, departures
-- and timers, in any order. A join draws an id that no user of the room has (a version 4 UUID).
use ephemeral_rooms.Prelude.{
  ℕ, ◌<◌, ◌≡◌, refl, Bool, Option, none, some, arith, Text, inl, inr, ◌⊎◌, Option-cases, Bool-cases,
  ltb,
}
use ephemeral_rooms.Config.{Settings}
use ephemeral_rooms.Dict.{get}
use ephemeral_rooms.Storage.Timers.{
  find, callback_at, idle-IsFresh, callback_at-idle, callback_at-some, cancel,
}
use ephemeral_rooms.Rooms.Types.{closing}
use ephemeral_rooms.Rooms.Instance.State.{
  Room, Callback, remove_user_after_grace, empty_grace_elapsed, new_room, is_joinable,
  maybe_start_empty_grace,
}
use ephemeral_rooms.Rooms.Instance.Join.{Fresh, join}
use ephemeral_rooms.Rooms.Instance.Depart.{
  begin_closing, mark_disconnected, remove_user, remove_lapsed, on_empty_grace_elapsed, fire,
  drop_connection, run_callback,
}
use ephemeral_rooms.Rooms.Instance.Invariant.{IsValid}
use ephemeral_rooms.Rooms.Instance.Keeps.{
  remove_user-IsValid, mark_disconnected-IsValid, remove_lapsed-IsValid,
}
use ephemeral_rooms.Rooms.Instance.Admission.{join-IsValid}

module _ {D W : Type 0} where
  pub new_room-IsValid :
      (code instance_id : Text) (now : ℕ) → IsValid (new_room {D = D} {W = W} code instance_id now)
  unfolding new_room get
  new_room-IsValid code instance_id now = record {
    timed = record {
      fresh = idle-IsFresh Callback;
      removals = λ k i. ground (arith, callback_at-idle {A = Callback} i);
      closing = λ i. ground (arith, callback_at-idle {A = Callback} i);
    };
    members = record {
      distinct = tt;
      each = λ k u e. ground arith;
      clients = λ j k u v e f c. ground arith;
    };
    phase = (refl, inr refl);
  }

  pub data Step (cfg : Settings) (r : Room D W) : Room D W → Type 0 where
    joins :
        (is_open : ℕ → Bool) (now : ℕ) (fresh : Fresh) (conn : ℕ) (token name : Option Text)
        → get r.users fresh.user_id ≡ none
        → Step cfg r (join is_open cfg now fresh conn token name r).0
    drops :
        (now : ℕ) (user_id : Text) (conn : ℕ)
        → Step cfg r (mark_disconnected cfg now user_id conn r)
    leaves : (now : ℕ) (user_id : Text) → Step cfg r (remove_user cfg now user_id r).0
    fires : (now handle : ℕ) → Step cfg r (fire cfg now handle r).0

  pub data Reach (cfg : Settings) (r : Room D W) : Room D W → Type 0 where
    here : Reach cfg r r
    next : {s t : Room D W} → Reach cfg r s → Step cfg s t → Reach cfg r t

  callback_cases :
      (cfg : Settings) (now i : ℕ) (c : Callback) (r : Room D W)
      → IsValid r
      → callback_at r.clock i ≡ some c
      → let o = run_callback cfg now c (record r { clock = cancel r.clock i }) in
        IsValid o.0 ⊎ ((o.1 ≡ begin_closing) × (o.0.state ≡ closing))
  unfolding run_callback
  callback_cases cfg now i (remove_user_after_grace k) r v due =
      inl (remove_lapsed-IsValid cfg now i k r v due)
  callback_cases cfg now i empty_grace_elapsed r v due =
      inr (ground (arith, v.timed.closing i, v.phase))

  -- A timer that runs keeps the room valid, or it was the room's own and nobody is connected.
  fire_cases :
      (cfg : Settings) (now i : ℕ) (r : Room D W)
      → IsValid r
      → IsValid (fire cfg now i r).0
        ⊎ (((fire cfg now i r).1 ≡ begin_closing) × ((fire cfg now i r).0.state ≡ closing))
  unfolding fire
  fire_cases cfg now i r v = elim (Option-cases (find r.clock i)) [
    | inl off ↦ rw (off, fire) (inl v)
    | inr (t, on) ↦ elim (Bool-cases (ltb now t.due)) [
      | inl early ↦ rw (on, fire) (rw early (inl v))
      | inr due ↦
          rw (on, fire)
            (rw due (callback_cases cfg now i t.callback r v (callback_at-some r.clock i t on)))
    ]
  ]

  -- Each step from a valid room ends in a valid room, or the room has begun to close.
  pub Step-IsValid :
      (cfg : Settings) (r s : Room D W)
      → 0 < cfg.max_users_per_room
      → IsValid r
      → Step cfg r s
      → IsValid s ⊎ (s.state ≡ closing)
  Step-IsValid cfg r _ room v (joins is_open now fresh conn token name new) =
      inl (join-IsValid is_open cfg now fresh conn token name r v room new)
  Step-IsValid cfg r _ room v (drops now k conn) =
      inl (mark_disconnected-IsValid cfg now k conn r v)
  Step-IsValid cfg r _ room v (leaves now k) = inl (remove_user-IsValid cfg now k r v)
  Step-IsValid cfg r _ room v (fires now i) = elim (fire_cases cfg now i r v) [
    | inl still ↦ inl still
    | inr (_, over) ↦ inr over
  ]

  maybe_start-closing :
      (cfg : Settings) (now : ℕ) (r : Room D W)
      → r.state ≡ closing
      → (maybe_start_empty_grace cfg now r).state ≡ closing
  unfolding maybe_start_empty_grace
  maybe_start-closing cfg now r e = ground arith

  -- No join, drop, departure or timer leads out of CLOSING.
  pub Step-closing :
      (cfg : Settings) (r s : Room D W) → r.state ≡ closing → Step cfg r s → s.state ≡ closing
  unfolding join is_joinable mark_disconnected drop_connection remove_user fire run_callback
      remove_lapsed on_empty_grace_elapsed maybe_start_empty_grace
  Step-closing cfg r _ e (joins is_open now fresh conn token name new) = ground arith
  Step-closing cfg r _ e (drops now k conn) = ground arith
  Step-closing cfg r _ e (leaves now k) = ground arith
  Step-closing cfg r _ e (fires now i) = ground arith

  -- Whatever joins, drops, departures and timers happen to a new room, in whatever order, it is
  -- valid or it has begun to close: ids are keys, numbers are unique, a connected user has a socket
  -- and no removal pending, exactly the disconnected users and the empty room have a timer, and a
  -- room that somebody has joined is ACTIVE exactly while somebody is connected. MAX_USERS_PER_ROOM
  -- is taken to be at least 1, and the ids drawn to be new to the room.
  pub Reach-IsValid :
      (cfg : Settings) (code instance_id : Text) (now : ℕ) (s : Room D W)
      → 0 < cfg.max_users_per_room
      → Reach cfg (new_room code instance_id now) s
      → IsValid s ⊎ (s.state ≡ closing)
  Reach-IsValid cfg code instance_id now _ room here = inl (new_room-IsValid code instance_id now)
  Reach-IsValid cfg code instance_id now _ room (next {s} {t} path step) =
      elim (Reach-IsValid cfg code instance_id now s room path) [
        | inl v ↦ Step-IsValid cfg s t room v step
        | inr over ↦ inr (Step-closing cfg s t over step)
      ]
