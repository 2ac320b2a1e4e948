-- ===== src/Rooms/Manager/Shutdown.antt =====
-- `shutdown` of backend/app/rooms/manager.py.
use ephemeral_rooms.Prelude.{
  ◌≡◌, inl, inr, true, none, some, List, [], ◌∷◌, any, Text, arith, same, Option-cases,
}
use ephemeral_rooms.Config.{Settings}
use ephemeral_rooms.Dict.{get, values}
use ephemeral_rooms.Rooms.Manager.{Manager, close_room_now, shutdown}
use ephemeral_rooms.Rooms.Manager.Closing.{IsValid}
use ephemeral_rooms.Rooms.Manager.Freeing.{close_room_now-Freed, values-Covers}

module _ {D W : Type 0} where
  -- The instance ids that the map leads to are among these.
  abbrev Covers : List Text → Manager D W → Type 0
  Covers is m = (code k : Text) → get m.rooms code ≡ some k → any (λ i. same i k) is ≡ true

  shutdown_covered :
      (cfg : Settings) (is : List Text) (m : Manager D W)
      → IsValid cfg m
      → Covers is m
      → (code : Text) → get (shutdown is m).rooms code ≡ none
  unfolding shutdown
  shutdown_covered cfg [] m v covers code = elim (Option-cases (get m.rooms code)) [
    | inl none_there ↦ none_there
    | inr (k, there) ↦ absurd (ground (arith, covers code k there))
  ]
  shutdown_covered cfg (i ∷ is) m v covers code =
      let freed = close_room_now-Freed cfg i m v in
      shutdown_covered cfg is (close_room_now i m) freed.valid
        (λ c k e. let (there, other) = freed.left c k e in ground (arith, covers c k there, other))
        code

  -- After an orderly shutdown of a valid manager no code leads to a room.
  pub shutdown_lem :
      (cfg : Settings) (m : Manager D W)
      → IsValid cfg m
      → (code : Text) → get (shutdown (values m.rooms) m).rooms code ≡ none
  shutdown_lem cfg m v code =
      shutdown_covered cfg (values m.rooms) m v (λ c k e. values-Covers m.rooms c k e) code
