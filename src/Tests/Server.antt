-- ===== src/Tests/Server.antt =====
-- An example of the server: a visit to a fresh one, and a forced closing of the room that it made.
use ephemeral_rooms.Prelude.{refl, true, [], ◌∷◌, same}
use ephemeral_rooms.Dict.{get, put, has, alter}
use ephemeral_rooms.Storage.FileStore.{create_room_dirs, sweep_data_root, empty_dir}
use ephemeral_rooms.Rooms.Instance.State.{Room, new_room}
use ephemeral_rooms.Rooms.Manager.{
  Manager, open_room, create, mark_visited, get_or_create, close_room_now, lookup,
}
use ephemeral_rooms.Rooms.Manager.Closing.{IsValid}
use ephemeral_rooms.Rooms.Manager.Steps.{here, next, visits, forces}
use ephemeral_rooms.Server.{build_services, start_up, start_up-IsValid}
use ephemeral_rooms.Tests.{cfg, a_code, an_instance}
use ephemeral_rooms.Tests.Files.{a_tree}

abbrev fresh : Manager (Unit {0}) (Unit {0})
fresh = record { rooms = []; instances = []; store = []; closing_tasks = [] }

abbrev visitors_room : Room (Unit {0}) (Unit {0})
visitors_room = mark_visited (new_room a_code an_instance 5)

abbrev after_visit : Manager (Unit {0}) (Unit {0})
after_visit = record fresh {
  rooms = (a_code, an_instance) ∷ [];
  instances = (an_instance, visitors_room) ∷ [];
  store = (an_instance, empty_dir) ∷ [];
}

start_up-IsValid_example : IsValid cfg (close_room_now an_instance after_visit)
unfolding build_services start_up sweep_data_root get_or_create create lookup open_room new_room put
    get has same alter create_room_dirs
start_up-IsValid_example = start_up-IsValid cfg a_tree (close_room_now an_instance after_visit) (
    next {n = after_visit}
      (next {n = fresh} here
        (visits (λ k. 0) an_instance 5 a_code after_visit an_instance true refl refl))
      (forces an_instance))
