-- ===== src/Rooms/Manager/Closing.antt =====
-- The one-way door seen from backend/app/rooms/manager.py: a room that begins to close, and the next
-- visitor of its code.
use ephemeral_rooms.Prelude.{
  ℕ, ◌≤◌, ◌<◌, ◌≡◌, ◌≢◌, ◌∙◌, ap, subst, none, some, ◌∷◌, length, Text, true, arith, same_iff,
  same_refl,
}
use ephemeral_rooms.Config.{Settings}
use ephemeral_rooms.Dict.{
  has, get, put, pop, alter, get-put, get-put_self, get-pop, get-alter, get-alter_self,
}
use ephemeral_rooms.Storage.FileStore.{FileTree, create_room_dirs, remove_room, Removal, empty_dir}
use ephemeral_rooms.Storage.FileStore.Laws.{get-remove_room_ne}
use ephemeral_rooms.Rooms.Instance.State.{Room, new_room, is_joinable}
use ephemeral_rooms.Rooms.Manager.Allocation.{length-pop-lt}
use ephemeral_rooms.Rooms.Manager.{Manager, open_room, mark_visited, get_or_create, begin_closing}

directory-open :
    (store : FileTree) (j : Text)
    → get store j ≡ none
    → get (create_room_dirs j store) j ≡ some empty_dir
unfolding create_room_dirs
directory-open store j new = ground (arith, get-put_self store j empty_dir)

module _ {D W : Type 0} where
  -- Every code leads to a live object that bears it, under its own id.
  pub record Mapped (m : Manager D W) (code i : Text) (r : Room D W) : Type 0 where
    pub object : get m.instances i ≡ some r
    pub code_of : r.room_code ≡ code
    pub id_of : r.room_instance_id ≡ i
    pub admits : is_joinable r ≡ true

  pub record IsValid (cfg : Settings) (m : Manager D W) : Type 0 where
    pub mapped : (code i : Text) → get m.rooms code ≡ some i → (r : Room D W) × Mapped m code i r
    pub bounded : length m.rooms ≤ cfg.max_rooms

  -- Once a room has begun to close, its code leads nowhere, and every other code where it led.
  pub rooms-begin_closing :
      (m : Manager D W) (i : Text) (r : Room D W)
      → get m.rooms r.room_code ≡ some i
      → r.room_instance_id ≡ i
      → (begin_closing r m).rooms ≡ pop m.rooms r.room_code
  unfolding begin_closing
  rooms-begin_closing m i r here id = ground (arith, same_iff i r.room_instance_id)

  -- What the next visitor of the code finds: a room of its own, empty, with its own directory.
  pub record Reopened (m n : Manager D W) (code i j : Text) (now : ℕ) : Type 0 where
    pub leads_to : get n.rooms code ≡ some j
    pub object : get n.instances j ≡ some (mark_visited (new_room code j now))
    pub old_object : get n.instances i ≡ get m.instances i
    pub other_codes : (c : Text) → c ≢ code → get n.rooms c ≡ get m.rooms c
    pub directory : get n.store j ≡ some empty_dir
    pub survives_cleanup : (o : Removal) → get (remove_room o i n.store) j ≡ some empty_dir

  open_room-Reopened :
      (m : Manager D W) (code i j : Text) (now : ℕ)
      → i ≢ j
      → get m.store j ≡ none
      → let n = open_room code j now m in
        Reopened m (record n { instances = alter mark_visited j n.instances }) code i j now
  unfolding open_room
  open_room-Reopened m code i j now ne new = record {
    leads_to = get-put_self m.rooms code j;
    object = get-alter_self mark_visited _ j (get-put_self m.instances j (new_room code j now));
    old_object = ground (
      arith,
      get-alter mark_visited (put m.instances j (new_room code j now)) j i,
      same_iff j i,
      get-put m.instances j i (new_room code j now),
    );
    other_codes = λ c other. ground (arith, get-put m.rooms code c j, same_iff code c);
    directory = directory-open m.store j new;
    survives_cleanup = λ o. get-remove_room_ne o i j _ ne ∙ directory-open m.store j new;
  }

  get_or_create-eq :
      (cfg : Settings) (draws : ℕ → ℕ) (j : Text) (now : ℕ) (c : ℕ) (rest : Text) (m : Manager D W)
      → get m.rooms (c ∷ rest) ≡ none
      → length m.rooms < cfg.max_rooms
      → let code = c ∷ rest in
        let n = open_room code j now m in
        get_or_create cfg draws j now code m
        ≡ some (record n { instances = alter mark_visited j n.instances }, j, true)
  unfolding get_or_create has
  get_or_create-eq cfg draws j now c rest m gone space = ground arith

  -- Once the room of a code has begun to close, a visit to the code succeeds even at the cap, in a
  -- fresh, empty instance with its own empty directory; the old object and the other codes stay as
  -- they are, and the new directory does too whatever the old room's cleanup does to its own. The
  -- manager is taken to be valid, the code not empty, the new instance id different from the old
  -- one and without a directory.
  pub get_or_create-begin_closing :
      (cfg : Settings) (draws : ℕ → ℕ) (j i : Text) (now : ℕ) (c : ℕ) (rest : Text)
      (m : Manager D W) (r : Room D W)
      → IsValid cfg m
      → r.room_code ≡ c ∷ rest
      → r.room_instance_id ≡ i
      → get m.rooms (c ∷ rest) ≡ some i
      → i ≢ j
      → get m.store j ≡ none
      → let m' = begin_closing r m in
        (n : Manager D W) × (get_or_create cfg draws j now (c ∷ rest) m' ≡ some (n, j, true))
        × Reopened m' n (c ∷ rest) i j now
  get_or_create-begin_closing cfg draws j i now c rest m r v code_r id here ne new =
      let m' = begin_closing r m in
      let closed_code : m'.rooms ≡ pop m.rooms (c ∷ rest) =
        subst (λ k. m'.rooms ≡ pop m.rooms k) code_r
          (rooms-begin_closing m i r (ap (get m.rooms) code_r ∙ here) id) in
      let n = open_room (c ∷ rest) j now m' in
      (
        record n { instances = alter mark_visited j n.instances },
        get_or_create-eq cfg draws j now c rest m'
            (ap (λ d. get d (c ∷ rest)) closed_code
              ∙ ground (arith, get-pop m.rooms (c ∷ rest) (c ∷ rest), same_refl (c ∷ rest)))
            (rw closed_code
              (omega (arith, length-pop-lt m.rooms (c ∷ rest) (unfold has in rw here), v.bounded))),
        open_room-Reopened m' (c ∷ rest) i j now ne (unfold begin_closing in new),
      )
