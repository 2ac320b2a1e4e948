-- ===== src/Tests/Rooms.antt =====
-- Examples of a room's life: alice joins, drops, comes back, and the room closes without her.
use ephemeral_rooms.Prelude.{
  ℕ, ◌≡◌, ◌⊎◌, ◌↔◌, ◌<◌, ◌≤◌, refl, none, some, [], ◌∷◌, arith, length, same,
}
use ephemeral_rooms.Dict.{get, put, values, alter}
use ephemeral_rooms.Rooms.Types.{User, closing, disconnected}
use ephemeral_rooms.Storage.Timers.{schedule, cancel_held}
use ephemeral_rooms.Rooms.Instance.State.{
  Room, new_room, is_joinable, connected_users, find_by_token, find_token_in, cancel_empty_grace,
  maybe_start_empty_grace,
}
use ephemeral_rooms.Rooms.Instance.Join.{join, admit, admit_or_refuse, new_user}
use ephemeral_rooms.Rooms.Instance.Depart.{mark_disconnected, drop_connection, fire, begin_closing}
use ephemeral_rooms.Rooms.Instance.Presence.{connected_in}
use ephemeral_rooms.Rooms.Instance.Invariant.{IsValid}
use ephemeral_rooms.Rooms.Instance.Admission.{join-IsValid}
use ephemeral_rooms.Rooms.Instance.Keeps.{mark_disconnected-IsValid}
use ephemeral_rooms.Rooms.Instance.Lifecycle.{
  joins, drops, here, next, new_room-IsValid, Reach-IsValid,
}
use ephemeral_rooms.Rooms.Instance.Closing.{due_at, fire-begin_closing}
use ephemeral_rooms.Rooms.Instance.Identity.{HoldsAlone, Resumes}
use ephemeral_rooms.Rooms.Instance.Refresh.{join-mark_disconnected, mark_disconnected-join}
use ephemeral_rooms.Rooms.Instance.Capacity.{Newcomer, join_new, resume_over_cap}
use ephemeral_rooms.Tests.{cfg, a_code, an_instance, alice, bob, no_socket}

abbrev pub empty_room : Room (Unit {0}) (Unit {0})
empty_room = new_room a_code an_instance 0

abbrev pub with_alice : Room (Unit {0}) (Unit {0})
with_alice = (join no_socket cfg 10 alice 1 none none empty_room).0

abbrev dropped_alice : Room (Unit {0}) (Unit {0})
dropped_alice = mark_disconnected cfg 20 alice.user_id 1 with_alice

abbrev pub alice_user : User
alice_user = new_user 10 alice 1 none empty_room

pub empty_room-IsValid : IsValid empty_room
empty_room-IsValid = new_room-IsValid a_code an_instance 0

pub with_alice-IsValid : IsValid with_alice
unfolding new_room get
with_alice-IsValid =
    join-IsValid no_socket cfg 10 alice 1 none none empty_room empty_room-IsValid (omega arith) refl

dropped_alice-IsValid : IsValid dropped_alice
dropped_alice-IsValid =
    mark_disconnected-IsValid cfg 20 alice.user_id 1 with_alice with_alice-IsValid

with_alice-users : with_alice.users ≡ (alice.user_id, alice_user) ∷ []
unfolding join is_joinable new_room find_by_token find_token_in admit_or_refuse admit
    connected_users values put cancel_empty_grace same
with_alice-users = refl

pub alice_alone : HoldsAlone with_alice alice.user_id alice_user
unfolding get same
alice_alone = λ j w e t. ground (arith, e, with_alice-users)

-- With alice away, bob takes the only place.
abbrev bob_for_alice : Room (Unit {0}) (Unit {0})
bob_for_alice = (join no_socket cfg 25 bob 2 none none dropped_alice).0

abbrev absent_alice : User
absent_alice = record alice_user {
  connection = none;
  connection_state = disconnected;
  disconnect_timer = some 0;
}

abbrev bob_user : User
bob_user = new_user 25 bob 2 none with_alice

dropped_alice-users : dropped_alice.users ≡ (alice.user_id, absent_alice) ∷ []
unfolding join is_joinable new_room find_by_token find_token_in admit_or_refuse admit
    connected_users values put cancel_empty_grace same mark_disconnected drop_connection
    maybe_start_empty_grace get alter cancel_held schedule
dropped_alice-users = refl

dropped_alice-new : get dropped_alice.users bob.user_id ≡ none
unfolding get same
dropped_alice-new = ground (arith, dropped_alice-users)

bob_for_alice-IsValid : IsValid bob_for_alice
bob_for_alice-IsValid =
    join-IsValid no_socket cfg 25 bob 2 none none dropped_alice dropped_alice-IsValid (omega arith)
      dropped_alice-new

bob_for_alice-users :
    bob_for_alice.users ≡ (alice.user_id, absent_alice) ∷ (bob.user_id, bob_user) ∷ []
unfolding join is_joinable new_room find_by_token find_token_in admit_or_refuse admit
    connected_users values put cancel_empty_grace same mark_disconnected drop_connection
    maybe_start_empty_grace get alter cancel_held schedule
bob_for_alice-users = refl

absent_alice_alone : HoldsAlone bob_for_alice alice.user_id absent_alice
unfolding get same
absent_alice_alone = λ j w e t. ground (arith, e, bob_for_alice-users)

Reach-IsValid_example : IsValid dropped_alice ⊎ (dropped_alice.state ≡ closing)
unfolding new_room get
Reach-IsValid_example =
    Reach-IsValid cfg a_code an_instance 0 dropped_alice (omega arith)
      (next (next here (joins no_socket 10 alice 1 none none refl)) (drops 20 alice.user_id 1))

fire-begin_closing_example : ((fire cfg 80 1 dropped_alice).1 ≡ begin_closing) ↔ (
    (d : ℕ) × (dropped_alice.empty_grace_timer ≡ some 1)
    × (due_at dropped_alice.clock 1 ≡ some d)
    × (d ≤ 80))
fire-begin_closing_example = fire-begin_closing cfg 80 1 dropped_alice dropped_alice-IsValid

join-mark_disconnected_example :
    let o =
      join no_socket cfg 30 bob 2
        (some alice_user.session_token)
        none
        (mark_disconnected cfg 20 alice.user_id 1 with_alice) in
    Resumes with_alice o.0 alice.user_id alice_user 2 o.1
unfolding join is_joinable new_room find_by_token find_token_in admit_or_refuse admit
    connected_users values put cancel_empty_grace same mark_disconnected drop_connection
    maybe_start_empty_grace get alter cancel_held schedule
join-mark_disconnected_example =
    join-mark_disconnected no_socket cfg 20 30 bob 1 2 none with_alice alice.user_id alice_user
      with_alice-IsValid (omega arith) refl refl refl (λ e. ground arith) alice_alone

-- The socket that alice left by is closed once she is back on another.
mark_disconnected-join_example :
    let o = join no_socket cfg 30 bob 2 (some alice_user.session_token) none with_alice in
    (mark_disconnected cfg 35 alice.user_id 1 o.0 ≡ o.0)
    × Resumes with_alice
        (mark_disconnected cfg 35 alice.user_id 1 o.0)
        alice.user_id
        alice_user
        2
        o.1
unfolding join is_joinable new_room find_by_token find_token_in admit_or_refuse admit
    connected_users values put cancel_empty_grace same get
mark_disconnected-join_example =
    mark_disconnected-join no_socket cfg 30 35 bob 1 2 none with_alice alice.user_id alice_user
      with_alice-IsValid (omega arith) refl refl (λ e. ground arith) alice_alone (λ e. ground arith)

join_new_example : Newcomer cfg with_alice (join no_socket cfg 30 bob 2 none none with_alice) bob 2
unfolding join is_joinable new_room find_by_token find_token_in admit_or_refuse admit
    connected_users values put cancel_empty_grace same get
join_new_example = join_new no_socket cfg 30 bob 2 none none with_alice with_alice-IsValid refl refl

resume_over_cap_example :
    1
    < length (
        connected_in
          (join no_socket cfg 40 bob 3
            (some absent_alice.session_token)
            none
            bob_for_alice).0.users)
unfolding join is_joinable new_room find_by_token find_token_in admit_or_refuse admit
    connected_users values put cancel_empty_grace same mark_disconnected drop_connection
    maybe_start_empty_grace get alter cancel_held schedule
resume_over_cap_example =
    resume_over_cap no_socket cfg 40 bob 3 none bob_for_alice alice.user_id absent_alice
      bob_for_alice-IsValid refl refl (λ e. ground arith) absent_alice_alone refl
