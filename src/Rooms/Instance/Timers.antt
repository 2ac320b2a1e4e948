-- ===== src/Rooms/Instance/Timers.antt =====
-- The handles that the fields of a room of backend/app/rooms/instance.py hold, and the timers that
-- can still run.
use ephemeral_rooms.Prelude.{
  ℕ, ◌≡◌, ◌↔◌, Option, none, some, arith, if◌then◌else◌, Text, same, same_iff, is_some, inl, inr,
  Option-cases,
}
use ephemeral_rooms.Dict.{Dict, get, put, pop, alter, get-put, get-pop, get-alter}
use ephemeral_rooms.Storage.Timers.{
  Clock, IsFresh, schedule, cancel_held, callback_at, callback_at-cancel_held, callback_at-schedule,
  callback_at_fresh, schedule-IsFresh, cancel_held-IsFresh,
}
use ephemeral_rooms.Rooms.Types.{User}
use ephemeral_rooms.Rooms.Instance.State.{Callback, remove_user_after_grace, empty_grace_elapsed}
use ephemeral_rooms.Rooms.Instance.Depart.{timer_of}

timer_of-alter :
    (users : Dict User) (k j : Text) (f : User → User) (o : Option ℕ)
    → ((u : User) → (f u).disconnect_timer ≡ o)
    → timer_of (get (alter f k users) j)
      ≡ (if same k j then (if is_some (get users j) then o else none) else timer_of (get users j))
timer_of-alter users k j f o set = elim (Option-cases (get users j)) [
  | inl e ↦ ground (arith, get-alter f users k j)
  | inr (u, e) ↦ ground (arith, get-alter f users k j, set u)
]

-- A user's handle is a pending removal of that user, the room's handle is a pending closing, and
-- there is no other pending timer.
pub record Timed (users : Dict User) (grace : Option ℕ) (clock : Clock Callback) : Type 0 where
  pub fresh : IsFresh clock
  pub removals :
      (k : Text) (i : ℕ)
      → (timer_of (get users k) ≡ some i) ↔ (callback_at clock i ≡ some (remove_user_after_grace k))
  pub closing : (i : ℕ) → (grace ≡ some i) ↔ (callback_at clock i ≡ some empty_grace_elapsed)

module _ {users : Dict User} {grace : Option ℕ} {clock : Clock Callback}
    (v : Timed users grace clock) where
  pub cancel_grace-Timed : Timed users none (cancel_held clock grace)
  cancel_grace-Timed = record {
    fresh = cancel_held-IsFresh clock grace v.fresh;
    removals =
        λ k i. ground (arith, v.removals k i, v.closing i, callback_at-cancel_held clock grace i);
    closing = λ i. ground (arith, v.closing i, callback_at-cancel_held clock grace i);
  }

  -- The next handle stands in no field.
  pub start_grace-Timed :
      (now d : ℕ)
      → grace ≡ none
      → Timed users (some clock.next_handle) (schedule clock now d empty_grace_elapsed)
  start_grace-Timed now d e = record {
    fresh = schedule-IsFresh clock now d empty_grace_elapsed v.fresh;
    removals = λ k i. ground (
      arith,
      v.removals k i,
      callback_at_fresh clock v.fresh,
      callback_at-schedule clock now d empty_grace_elapsed i,
    );
    closing = λ i. ground (
      arith,
      v.closing i,
      callback_at_fresh clock v.fresh,
      callback_at-schedule clock now d empty_grace_elapsed i,
    );
  }

  -- A change of a user that clears its handle, with that handle's timer cancelled.
  pub clear-Timed :
      (k : Text) (f : User → User)
      → ((u : User) → (f u).disconnect_timer ≡ none)
      → Timed (alter f k users) grace (cancel_held clock (timer_of (get users k)))
  clear-Timed k f clears = record {
    fresh = cancel_held-IsFresh clock _ v.fresh;
    removals = λ j i. ground (
      arith,
      v.removals j i,
      v.removals k i,
      same_iff k j,
      timer_of-alter users k j f none clears,
      callback_at-cancel_held clock (timer_of (get users k)) i,
    );
    closing = λ i. ground (
      arith,
      v.closing i,
      v.removals k i,
      callback_at-cancel_held clock (timer_of (get users k)) i,
    );
  }

  pub pop-Timed :
      (k : Text) → Timed (pop users k) grace (cancel_held clock (timer_of (get users k)))
  pop-Timed k = record {
    fresh = cancel_held-IsFresh clock _ v.fresh;
    removals = λ j i. ground (
      arith,
      v.removals j i,
      v.removals k i,
      same_iff k j,
      get-pop users k j,
      callback_at-cancel_held clock (timer_of (get users k)) i,
    );
    closing = λ i. ground (
      arith,
      v.closing i,
      v.removals k i,
      callback_at-cancel_held clock (timer_of (get users k)) i,
    );
  }

  -- A user with no handle is given the next one, for its own removal.
  pub arm-Timed :
      (k : Text) (f : User → User) (u : User) (now d : ℕ)
      → ((x : User) → (f x).disconnect_timer ≡ some clock.next_handle)
      → get users k ≡ some u
      → u.disconnect_timer ≡ none
      → Timed (alter f k users) grace (schedule clock now d (remove_user_after_grace k))
  arm-Timed k f u now d sets present unarmed = record {
    fresh = schedule-IsFresh clock now d _ v.fresh;
    removals = λ j i. ground (
      arith,
      v.removals j i,
      v.removals k i,
      same_iff k j,
      timer_of-alter users k j f (some clock.next_handle) sets,
      callback_at_fresh clock v.fresh,
      callback_at-schedule clock now d (remove_user_after_grace k) i,
    );
    closing = λ i. ground (
      arith,
      v.closing i,
      callback_at_fresh clock v.fresh,
      callback_at-schedule clock now d (remove_user_after_grace k) i,
    );
  }

  -- A user under a new key comes with no handle.
  pub put-Timed :
      (k : Text) (u : User)
      → get users k ≡ none
      → u.disconnect_timer ≡ none
      → Timed (put users k u) grace clock
  put-Timed k u absent unarmed = record {
    fresh = v.fresh;
    removals =
        λ j i. ground (arith, v.removals j i, v.removals k i, same_iff k j, get-put users k j u);
    closing = v.closing;
  }
