-- ===== src/Tests/Manager.antt =====
-- Examples of the codes: how they are given out, and what becomes of one when its room closes.
use ephemeral_rooms.Prelude.{
  ◌≡◌, ◌↔◌, ◌<◌, ◌≤◌, refl, subst, none, some, [], ◌∷◌, Text, arith, false, true, length, same,
  same_iff,
}
use ephemeral_rooms.Dict.{get, values, has, put}
use ephemeral_rooms.Storage.FileStore.{create_room_dirs}
use ephemeral_rooms.Rooms.Instance.State.{Room, new_room, is_joinable}
use ephemeral_rooms.Rooms.Manager.Codes.{str, try_draws, allocate_code}
use ephemeral_rooms.Rooms.Manager.{shutdown, Manager, open_room, begin_closing, get_or_create}
use ephemeral_rooms.Rooms.Manager.Allocation.{IsCode, allocate_code-none, allocate_code_sound}
use ephemeral_rooms.Rooms.Manager.Closing.{Mapped, IsValid, Reopened, get_or_create-begin_closing}
use ephemeral_rooms.Rooms.Manager.Shutdown.{shutdown_lem}
use ephemeral_rooms.Tests.{cfg, a_code, an_instance, another_instance}

abbrev no_rooms : Manager (Unit {0}) (Unit {0})
no_rooms = record { rooms = []; instances = []; store = []; closing_tasks = [] }

abbrev pub a_room : Room (Unit {0}) (Unit {0})
a_room = new_room a_code an_instance 0

abbrev pub one_room : Manager (Unit {0}) (Unit {0})
one_room = open_room a_code an_instance 0 no_rooms

a_room-Mapped : Mapped one_room a_code an_instance a_room
unfolding open_room new_room put get same is_joinable
a_room-Mapped = record { object = refl; code_of = refl; id_of = refl; admits = refl }

pub one_room-IsValid : IsValid cfg one_room
unfolding open_room put get
one_room-IsValid = record {
  mapped = λ code i e. (
    a_room,
    subst (λ k. Mapped one_room k i a_room) (ground (arith, same_iff a_code code))
        (subst (λ k. Mapped one_room a_code k a_room) (ground arith) a_room-Mapped),
  );
  bounded = omega arith;
}

get_or_create-begin_closing_example :
    let m' = begin_closing a_room one_room in
    (n : Manager (Unit {0}) (Unit {0})) × (get_or_create cfg (λ k. 0) another_instance 90 a_code m'
      ≡ some (n, another_instance, true))
    × Reopened m' n a_code an_instance another_instance 90
unfolding open_room new_room put get same create_room_dirs
get_or_create-begin_closing_example =
    get_or_create-begin_closing cfg (λ k. 0) another_instance an_instance 90 49 (48 ∷ 48 ∷ 48 ∷ [])
      one_room a_room one_room-IsValid refl refl refl (λ e. ground arith) refl

allocate_code-none_example :
    (allocate_code 2 (λ k. 0) one_room.rooms ≡ none) ↔ (2 ≤ length one_room.rooms)
allocate_code-none_example = allocate_code-none 2 (λ k. 0) one_room.rooms (omega arith)

allocate_code_sound_example :
    (has {V = Text} [] a_code ≡ false) × IsCode a_code × (length {A = Text × Text} [] < 2)
unfolding allocate_code try_draws str has get
allocate_code_sound_example = allocate_code_sound 2 (λ k. 0) [] a_code (λ i. omega arith) refl

shutdown_lem_example : get (shutdown (values one_room.rooms) one_room).rooms a_code ≡ none
shutdown_lem_example = shutdown_lem cfg one_room one_room-IsValid a_code
