-- ===== src/Rooms/Manager/Apart.antt =====
-- The cleanup tasks of backend/app/rooms/manager.py and the map: no code leads to a room that is being
-- cleaned up, and its object stays.
use ephemeral_rooms.Prelude.{
  ℕ, ◌≡◌, ◌≢◌, inl, inr, sym, ap, ◌∙◌, none, some, Text, arith, same, same_iff, Bool-cases,
  Option-cases,
}
use ephemeral_rooms.Config.{Settings}
use ephemeral_rooms.Dict.{get, alter, get-put, get-alter}
use ephemeral_rooms.Storage.FileStore.{FileTree}
use ephemeral_rooms.Rooms.Instance.State.{Room, new_room}
use ephemeral_rooms.Rooms.Manager.{Manager, open_room, begin_closing}
use ephemeral_rooms.Rooms.Manager.Freeing.{Freed}
use ephemeral_rooms.Rooms.Manager.Steps.{with_object, IsNamed, IsClosing}

module _ {D W : Type 0} where
  pub record IsApart (m : Manager D W) : Type 0 where
    pub keyed : (i : Text) (r : Room D W) → get m.instances i ≡ some r → r.room_instance_id ≡ i
    pub apart : (i : Text) → IsClosing m i → (code : Text) → get m.rooms code ≢ some i
    pub known : (i : Text) → IsClosing m i → get m.instances i ≢ none

  -- A room under a new id.
  pub open_room-IsApart :
      (code j : Text) (now : ℕ) (m : Manager D W)
      → IsApart m
      → get m.instances j ≡ none
      → IsApart (open_room code j now m)
  unfolding open_room new_room
  open_room-IsApart code j now m a new = record {
    keyed = λ i r e. elim (Bool-cases (same j i)) [
      | inl own ↦
          let is_r : new_room code j now ≡ r =
            ground (arith, e, own, get-put m.instances j i (new_room code j now)) in
          ap (λ (x : Room D W). x.room_instance_id) (sym is_r) ∙ (same_iff j i).0 own
      | inr other ↦
          a.keyed i r (ground (arith, e, other, get-put m.instances j i (new_room code j now)))
    ];
    apart = λ i closing c e. elim (Bool-cases (same code c)) [
      | inl own ↦
          let at_j : j ≡ i = ground (arith, get-put m.rooms code c j, own, e) in
          a.known i closing (ap (get m.instances) (sym at_j) ∙ new)
      | inr other ↦ a.apart i closing c (ground (arith, get-put m.rooms code c j, other, e))
    ];
    known = λ i closing e.
        a.known i closing (ground (arith, e, get-put m.instances j i (new_room code j now)));
  }

  -- A change of an object that keeps its id.
  pub alter-IsApart :
      (f : Room D W → Room D W) (j : Text) (m : Manager D W)
      → ((r : Room D W) → (f r).room_instance_id ≡ r.room_instance_id)
      → IsApart m
      → IsApart (record m { instances = alter f j m.instances })
  alter-IsApart f j m kept a = record {
    keyed = λ i r e. elim (Option-cases (get m.instances i)) [
      | inl out ↦ absurd (ground (arith, e, out, get-alter f m.instances j i))
      | inr (q, at_i) ↦ elim (Bool-cases (same j i)) [
        | inl own ↦
            let is_r : f q ≡ r = ground (arith, e, own, at_i, get-alter f m.instances j i) in
            ap (λ (x : Room D W). x.room_instance_id) (sym is_r) ∙ kept q ∙ a.keyed i q at_i
        | inr other ↦ a.keyed i r (ground (arith, e, other, at_i, get-alter f m.instances j i))
      ]
    ];
    apart = a.apart;
    known = λ i closing e. a.known i closing (ground (arith, e, get-alter f m.instances j i));
  }

  pub object-IsApart :
      (m : Manager D W) (j : Text) (r r' : Room D W) (store : FileTree)
      → IsApart m
      → get m.instances j ≡ some r
      → IsNamed r r'
      → IsApart (record (with_object j r' m) { store = store })
  object-IsApart m j r r' store a at_j (code_same, id_same) = record {
    keyed = λ i q e. elim (Bool-cases (same j i)) [
      | inl own ↦
          let is_q : r' ≡ q = ground (arith, e, own, get-put m.instances j i r') in
          ap (λ (x : Room D W). x.room_instance_id) (sym is_q)
          ∙ id_same
          ∙ a.keyed j r at_j
          ∙ (same_iff j i).0 own
      | inr other ↦ a.keyed i q (ground (arith, e, other, get-put m.instances j i r'))
    ];
    apart = a.apart;
    known = λ i closing e. a.known i closing (ground (arith, e, get-put m.instances j i r'));
  }

  -- The start of a cleanup task.
  pub begin_closing-IsApart :
      (cfg : Settings) (i : Text) (r : Room D W) (m n : Manager D W)
      → IsApart n
      → get n.instances i ≢ none
      → r.room_instance_id ≡ i
      → n.closing_tasks ≡ m.closing_tasks
      → IsApart m
      → Freed cfg i m (begin_closing r n)
      → IsApart (begin_closing r n)
  unfolding begin_closing
  begin_closing-IsApart cfg i r m n b there id tasks a freed = record {
    keyed = b.keyed;
    apart = λ k closing code e.
        let (led, other) = freed.left code k e in
        a.apart k (ground (arith, closing, id, other, tasks)) code led;
    known = λ k closing e. elim (Bool-cases (same i k)) [
      | inl own ↦ there (ap (get n.instances) ((same_iff i k).0 own) ∙ e)
      | inr other ↦ b.known k (ground (arith, closing, id, other)) e
    ];
  }
