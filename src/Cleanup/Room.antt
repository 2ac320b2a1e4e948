-- ===== src/Cleanup/Room.antt =====
-- `RoomCleaner` of backend/app/cleanup/room.py. `is_open` says which sockets are open when the
-- cleaner asks; `removals k` is how the k-th removal of the directory ends.
pub mod Laws
use ephemeral_rooms.Prelude.{ℕ, zero, suc, Bool, none, some, List, [], ◌∷◌, if◌then◌else◌, Text}
use ephemeral_rooms.Dict.{Dict, get, alter}
use ephemeral_rooms.Storage.FileStore.{FileTree, Removal, discard_part, remove_room, room_exists}
use ephemeral_rooms.Collab.Registry.{clear}
use ephemeral_rooms.Rooms.Types.{User}
use ephemeral_rooms.Rooms.Instance.State.{Room}
use ephemeral_rooms.Rooms.Instance.Depart.{cancel_all_timers, mark_closed}
use ephemeral_rooms.Files.Ledger.{release}
use ephemeral_rooms.Files.Uploads.{Service}
use ephemeral_rooms.Files.Transfer.{set_aborted}

abbrev pub max_attempts : ℕ
max_attempts = 4

-- A user whose socket was open has been told, and its socket closed.
unfoldable pub detach : (ℕ → Bool) → User → User
detach is_open u = elim u.connection [
  | none ↦ u
  | some c ↦ if is_open c then record u { connection = none } else u
]

unfoldable pub detach_users : (ℕ → Bool) → Dict User → Dict User
unfolding detach
detach_users is_open [] = []
detach_users is_open ((k, u) ∷ d) = (k, detach is_open u) ∷ detach_users is_open d

-- Up to `n` attempts, from the k-th on. A removal that raises goes on to the next one at once;
-- after one that does not, the directory is looked for.
unfoldable pub delete_from : ℕ → ℕ → (ℕ → Removal) → Text → FileTree → FileTree
unfolding remove_room room_exists
delete_from zero k removals i t = t
delete_from (suc n) k removals i t =
    let t' = remove_room (removals k) i t in
    let rest = delete_from n (suc k) removals i t' in
    elim (removals k) [ Removal.raised ↦ rest | _ ↦ if room_exists i t' then rest else t' ]

unfoldable pub delete_verified : (ℕ → Removal) → Text → FileTree → FileTree
unfolding delete_from
delete_verified removals i t = delete_from max_attempts 0 removals i t

module _ {D W : Type 0} where
  abbrev pub on_room : (Room D W → Room D W) → Text → Service D W → Service D W
  on_room f i s = record s {
    manager = record s.manager { instances = alter f i s.manager.instances };
  }

  -- Step 3: the uploads are marked aborted, their promises released, their parts discarded.
  unfoldable pub abort_uploads : Text → List Text → Service D W → Service D W
  abort_uploads i [] s = s
  abort_uploads i (id ∷ ids) s = abort_uploads i ids (record s {
    uploads = alter set_aborted id s.uploads;
    ledger = release id s.ledger;
    manager = record s.manager { store = discard_part i id s.manager.store };
  })

  -- What the steps make of the room's object, the uploads and the users' sockets included.
  unfoldable pub emptied : (ℕ → Bool) → Room D W → Room D W
  unfolding cancel_all_timers detach_users mark_closed
  emptied is_open r =
      let quiet = cancel_all_timers r in
      let told = record quiet { uploads = []; users = detach_users is_open quiet.users } in
      let dropped = record told { documents = clear told.documents; awareness = [] } in
      mark_closed (record dropped { users = []; files = [] })

  -- `clean(room)`, where the store holds `r` under its instance id `i`.
  unfoldable pub clean_room :
      (ℕ → Bool) → (ℕ → Removal) → Text → Room D W → Service D W → Service D W
  unfolding abort_uploads emptied delete_verified
  clean_room is_open removals i r s =
      let aborted = abort_uploads i r.uploads s in
      let swept = record aborted {
        manager = record aborted.manager {
          store = delete_verified removals i aborted.manager.store;
        };
      } in
      on_room (emptied is_open) i swept

  unfoldable pub clean : (ℕ → Bool) → (ℕ → Removal) → Text → Service D W → Service D W
  unfolding clean_room
  clean is_open removals i s = elim (get s.manager.instances i) [
    | none ↦ s
    | some r ↦ clean_room is_open removals i r s
  ]
