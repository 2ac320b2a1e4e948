-- ===== src/Files/StorageFeed.antt =====
-- `StorageBroadcaster.broadcast_once` of backend/app/files/storage_feed.py. `free` and `reading` are
-- what the two providers report, `is_open` which sockets can be written to.
pub mod Laws
use ephemeral_rooms.Prelude.{
  ℕ, Bool, not, Option, none, some, List, [], ◌∷◌, ◌++◌, keep, if◌then◌else◌, Text,
}
use ephemeral_rooms.Prelude.Int.{ℤ}
use ephemeral_rooms.Dict.{Dict, get, values}
use ephemeral_rooms.Storage.Memory.{Guard, available_for_new_text}
use ephemeral_rooms.Rooms.Instance.State.{Room, connected_users, is_empty}
use ephemeral_rooms.Rooms.Instance.Broadcast.{broadcast}
use ephemeral_rooms.Rooms.Manager.{Manager}
use ephemeral_rooms.Files.Ledger.{Ledger, available_locked}
use ephemeral_rooms.Ws.Events
use ephemeral_rooms.Ws.Events.{Json}

module _ {D W : Type 0} where
  -- `self._manager.rooms.values()`
  unfoldable pub rooms_in : List Text → Dict (Room D W) → List (Room D W)
  rooms_in [] instances = []
  rooms_in (i ∷ is) instances = elim (get instances i) [
    | none ↦ rooms_in is instances
    | some r ↦ r ∷ rooms_in is instances
  ]

  abbrev pub has_company : Room D W → Bool
  has_company r = not (is_empty (connected_users r))

  -- The sockets of these rooms that a frame is handed to.
  abbrev pub sockets_of : (ℕ → Bool) → List (Room D W) → List ℕ
  sockets_of is_open [] = []
  sockets_of is_open (r ∷ rs) = broadcast is_open none r ++ sockets_of is_open rs

  -- The payload, the sockets that are sent it, the payload, and the figure returned; no figure is asked
  -- for where nobody is connected.
  unfoldable pub broadcast_once :
      (ℕ → Bool) → ℕ → ℕ → ℤ → Ledger → Manager D W → Guard → Guard × Option Json × List ℕ × ℕ
  broadcast_once is_open free now reading l m g =
      let rooms = keep has_company (rooms_in (values m.rooms) m.instances) in
      let available = available_locked free l in
      let (g', memory) = available_for_new_text now reading g in
      if is_empty rooms
      then (g, none, [], 0)
      else (g', some (Events.storage available memory), sockets_of is_open rooms, available)
