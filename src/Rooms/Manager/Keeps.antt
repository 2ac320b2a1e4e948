-- ===== src/Rooms/Manager/Keeps.antt =====
-- The invariant of the manager under the operations of backend/app/rooms/manager.py.
use ephemeral_rooms.Prelude.{
  ℕ, ◌≤◌, ◌≡◌, ◌≢◌, ◌⊎◌, inl, inr, refl, sym, ◌∙◌, ap, subst, Bool, true, false, not, ◌&&◌, Option,
  none, some, if◌then◌else◌, leb, length, Text, arith, same, same_iff, same_refl, Bool-cases,
  Option-cases,
}
use ephemeral_rooms.Config.{Settings}
use ephemeral_rooms.Dict.{
  get, has, put, pop, alter, get-put, get-put_self, get-pop, get-alter, get-alter_self, length-put,
  length-pop-le,
}
use ephemeral_rooms.Rooms.Instance.State.{Room, new_room, is_joinable, joinable_state}
use ephemeral_rooms.Rooms.Manager.{
  Manager, lookup, open_room, create, or_allocate, mark_visited, visited, get_or_create,
  begin_closing, close_room_now, forced,
}
use ephemeral_rooms.Rooms.Manager.Codes.{allocate_code}
use ephemeral_rooms.Rooms.Manager.Closing.{Mapped, IsValid, rooms-begin_closing}

module _ {D W : Type 0} where
  abbrev pub visited_open : Text → Text → ℕ → Manager D W → Manager D W
  visited_open code j now m =
      let n = open_room code j now m in record n { instances = alter mark_visited j n.instances }

  visited_open-new :
      (code j : Text) (now : ℕ) (m : Manager D W)
      → Mapped (visited_open code j now m) code j (mark_visited (new_room code j now))
  unfolding open_room new_room is_joinable
  visited_open-new code j now m = record {
    object = get-alter_self mark_visited _ j (get-put_self m.instances j (new_room code j now));
    code_of = refl;
    id_of = refl;
    admits = refl;
  }

  visited_open-old :
      (code j : Text) (now : ℕ) (m : Manager D W) (code' i : Text) (r : Room D W)
      → get m.instances j ≡ none
      → Mapped m code' i r
      → Mapped (visited_open code j now m) code' i r
  unfolding open_room
  visited_open-old code j now m code' i r new old = record {
    object = ground (
      arith,
      get-alter mark_visited (put m.instances j (new_room code j now)) j i,
      get-put m.instances j i (new_room code j now),
      same_iff j i,
      old.object,
    );
    code_of = old.code_of;
    id_of = old.id_of;
    admits = old.admits;
  }

  rooms-visited_open :
      (code j : Text) (now : ℕ) (m : Manager D W) (c : Text)
      → get (visited_open code j now m).rooms c ≡ (if same code c then some j else get m.rooms c)
  unfolding open_room
  rooms-visited_open code j now m c = get-put m.rooms code c j

  length-visited_open :
      (cfg : Settings) (code j : Text) (now : ℕ) (m : Manager D W)
      → length m.rooms ≤ cfg.max_rooms
      → (leb cfg.max_rooms (length m.rooms) && not (has m.rooms code)) ≡ false
      → length (visited_open code j now m).rooms ≤ cfg.max_rooms
  unfolding open_room has
  length-visited_open cfg code j now m le space = ground (arith, length-put m.rooms code j)

  pub visited_open-IsValid :
      (cfg : Settings) (code j : Text) (now : ℕ) (m : Manager D W)
      → IsValid cfg m
      → get m.instances j ≡ none
      → (leb cfg.max_rooms (length m.rooms) && not (has m.rooms code)) ≡ false
      → IsValid cfg (visited_open code j now m)
  visited_open-IsValid cfg code j now m v new space = record {
    mapped = λ code' i e. elim (Bool-cases (same code code')) [
      | inl here ↦
          let at_j : j ≡ i = ground (arith, e, rooms-visited_open code j now m code') in
          (
            mark_visited (new_room code j now),
            subst
                (λ k.
                  Mapped (visited_open code j now m) code' k (mark_visited (new_room code j now)))
                at_j
                (subst
                  (λ c. Mapped (visited_open code j now m) c j (mark_visited (new_room code j now)))
                  ((same_iff code code').0 here) (visited_open-new code j now m)),
          )
      | inr there ↦
          let (r, old) =
            v.mapped code' i (ground (arith, e, rooms-visited_open code j now m code')) in
          (r, visited_open-old code j now m code' i r new old)
    ];
    bounded = length-visited_open cfg code j now m v.bounded space;
  }

  pub create_cases :
      (cfg : Settings) (draws : ℕ → ℕ) (j : Text) (now : ℕ) (code : Option Text) (m n : Manager D W)
      (i : Text)
      → create cfg draws j now code m ≡ some (n, i)
      → (c : Text) × (n ≡ open_room c j now m)
        × (i ≡ j)
        × ((leb cfg.max_rooms (length m.rooms) && not (has m.rooms c)) ≡ false)
  unfolding create
  create_cases cfg draws j now code m n i e =
      elim (Option-cases (or_allocate code (allocate_code cfg.max_rooms draws m.rooms))) [
        | inl nothing ↦ absurd (ground arith)
        | inr (c, found) ↦
            elim (Bool-cases (leb cfg.max_rooms (length m.rooms) && not (has m.rooms c))) [
              | inl full ↦ absurd (ground arith)
              | inr space ↦ (c, ground arith, ground arith, space)
            ]
      ]

  -- A visit that succeeds finds a room, and changes nothing, or opens one.
  pub get_or_create_cases :
      (cfg : Settings) (draws : ℕ → ℕ) (j : Text) (now : ℕ) (code : Text) (m n : Manager D W)
      (i : Text) (b : Bool)
      → get_or_create cfg draws j now code m ≡ some (n, i, b)
      → (n ≡ m)
        ⊎ ((c : Text) × (n ≡ visited_open c j now m)
            × ((leb cfg.max_rooms (length m.rooms) && not (has m.rooms c)) ≡ false))
  unfolding get_or_create
  get_or_create_cases cfg draws j now code m n i b e = elim (Option-cases (lookup m code)) [
    | inl lost ↦ inr (made (ground arith))
    | inr (r, found) ↦ elim (Bool-cases (is_joinable r)) [
      | inl live ↦ inl (ground arith)
      | inr over ↦ inr (made (ground arith))
    ]
  ]
    where
      made :
          visited (create cfg draws j now (some code) m) ≡ some (n, i, b)
          → (c : Text) × (n ≡ visited_open c j now m)
            × ((leb cfg.max_rooms (length m.rooms) && not (has m.rooms c)) ≡ false)
      made e = elim (Option-cases (create cfg draws j now (some code) m)) [
        | inl refused ↦ absurd (ground arith)
        | inr (o, there) ↦
            let (c, is, at_j, space) = create_cases cfg draws j now (some code) m o.0 o.1 there in
            let marked : n ≡ record o.0 { instances = alter mark_visited o.1 o.0.instances } =
              ground arith in
            (
              c,
              marked
                  ∙ ap (λ k. record o.0 { instances = alter mark_visited k o.0.instances }) at_j
                  ∙ ap
                      (λ (k : Manager D W). record k {
                        instances = alter mark_visited j k.instances;
                      })
                      is,
              space,
            )
      ]

  -- Closing a room frees its code, and no other code leads to it.
  closed_others :
      (m : Manager D W) (i : Text) (r : Room D W) (code k : Text) (q : Room D W)
      → get m.instances i ≡ some r
      → Mapped m code k q
      → r.room_code ≢ code
      → Mapped (begin_closing r (record m { instances = alter forced i m.instances })) code k q
  unfolding begin_closing
  closed_others m i r code k q here old ne = record {
    object =
        ground (arith, get-alter forced m.instances i k, same_iff i k, old.object, old.code_of);
    code_of = old.code_of;
    id_of = old.id_of;
    admits = old.admits;
  }

  forced-IsValid :
      (cfg : Settings) (m : Manager D W) (i : Text) (r : Room D W)
      → IsValid cfg m
      → get m.instances i ≡ some r
      → r.room_instance_id ≡ i
      → get m.rooms r.room_code ≡ some i
      → IsValid cfg (begin_closing r (record m { instances = alter forced i m.instances }))
  forced-IsValid cfg m i r v here id leads =
      let m' : Manager D W = record m { instances = alter forced i m.instances } in
      let freed : (begin_closing r m').rooms ≡ pop m.rooms r.room_code =
        rooms-begin_closing m' i r leads id in
      record {
        mapped = λ code k e.
            let e' : get (pop m.rooms r.room_code) code ≡ some k =
              ap (λ d. get d code) (sym freed) ∙ e in
            let (q, old) = v.mapped code k (ground (arith, e', get-pop m.rooms r.room_code code)) in
            (
              q,
              closed_others m i r code k q here old (λ same_code.
                  ground (arith, e', get-pop m.rooms r.room_code code, same_iff r.room_code code)),
            );
        bounded = rw freed (omega (arith, length-pop-le m.rooms r.room_code, v.bounded));
      }

  -- A forced closing of a room that its code leads to keeps a valid manager valid, and the code
  -- leads nowhere.
  close_room_now-IsValid :
      (cfg : Settings) (m : Manager D W) (i : Text) (r : Room D W)
      → IsValid cfg m
      → get m.instances i ≡ some r
      → r.room_instance_id ≡ i
      → get m.rooms r.room_code ≡ some i
      → IsValid cfg (close_room_now i m) × (get (close_room_now i m).rooms r.room_code ≡ none)
  close_room_now-IsValid cfg m i r v here id leads =
      let (q, own) = v.mapped r.room_code i leads in
      let open_state : joinable_state r.state ≡ true =
        unfold is_joinable in ground (arith, own.object, own.admits, here) in
      let e : close_room_now i m
          ≡ begin_closing r (record m { instances = alter forced i m.instances }) =
        unfold close_room_now in ground (arith, here, open_state) in
      let freed =
        rooms-begin_closing (record m { instances = alter forced i m.instances }) i r leads id in
      (
        subst (IsValid cfg) (sym e) (forced-IsValid cfg m i r v here id leads),
        ap (λ n. get n.rooms r.room_code) e
            ∙ ap (λ d. get d r.room_code) freed
            ∙ ground (arith, get-pop m.rooms r.room_code r.room_code, same_refl r.room_code),
      )
