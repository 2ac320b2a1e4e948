-- ===== src/Rooms/Manager/Effects.antt =====
-- What single changes of backend/app/rooms/manager.py's objects and map do to a valid manager.
use ephemeral_rooms.Prelude.{
  ℕ, ◌≡◌, ◌≢◌, ◌⊎◌, inl, inr, sym, ◌∙◌, ap, subst, true, some, Text, arith, same, same_iff,
  Bool-cases, Option-cases,
}
use ephemeral_rooms.Config.{Settings}
use ephemeral_rooms.Dict.{get, put, get-put, get-alter}
use ephemeral_rooms.Storage.FileStore.{FileTree}
use ephemeral_rooms.Rooms.Instance.State.{Room, is_joinable}
use ephemeral_rooms.Rooms.Manager.{Manager, open_room, mark_visited, begin_closing}
use ephemeral_rooms.Rooms.Manager.Closing.{IsValid}
use ephemeral_rooms.Rooms.Manager.Keeps.{visited_open}
use ephemeral_rooms.Rooms.Manager.Freeing.{Freed, closed-Freed}
use ephemeral_rooms.Rooms.Manager.Steps.{with_object, IsNamed}

module _ {D W : Type 0} where
  -- A live room's object may change under its code.
  pub acts-IsValid :
      (cfg : Settings) (m : Manager D W) (i : Text) (r r' : Room D W)
      → IsValid cfg m
      → get m.instances i ≡ some r
      → IsNamed r r'
      → (is_joinable r ≡ true → is_joinable r' ≡ true)
      → IsValid cfg (with_object i r' m)
  acts-IsValid cfg m i r r' v at_i (code_same, id_same) live = record {
    mapped = λ code k e.
        let (q, old) = v.mapped code k e in
        elim (Bool-cases (same i k)) [
          | inl own ↦
              let at_k : i ≡ k = (same_iff i k).0 own in
              let is_r : q ≡ r = ground (arith, old.object, at_i, at_k) in
              (
                r',
                record {
                  object = ground (arith, get-put m.instances i k r', own);
                  code_of = code_same ∙ ap (λ (x : Room D W). x.room_code) (sym is_r) ∙ old.code_of;
                  id_of =
                      id_same ∙ ap (λ (x : Room D W). x.room_instance_id) (sym is_r) ∙ old.id_of;
                  admits = live (ap is_joinable (sym is_r) ∙ old.admits);
                },
              )
          | inr other ↦ (
            q,
            record {
              object = ground (arith, get-put m.instances i k r', other, old.object);
              code_of = old.code_of;
              id_of = old.id_of;
              admits = old.admits;
            },
          )
        ];
    bounded = v.bounded;
  }

  -- An object that no code leads to may be any.
  pub cleans-IsValid :
      (cfg : Settings) (m : Manager D W) (i : Text) (r : Room D W) (store : FileTree)
      → IsValid cfg m
      → ((code : Text) → get m.rooms code ≢ some i)
      → IsValid cfg (record (with_object i r m) { store = store })
  cleans-IsValid cfg m i r store v apart = record {
    mapped = λ code k e.
        let (q, old) = v.mapped code k e in
        (
          q,
          record {
            object = elim (Bool-cases (same i k)) [
              | inl own ↦ absurd (apart code (e ∙ ap some (sym ((same_iff i k).0 own))))
              | inr other ↦ ground (arith, get-put m.instances i k r, other, old.object)
            ];
            code_of = old.code_of;
            id_of = old.id_of;
            admits = old.admits;
          },
        );
    bounded = v.bounded;
  }

  begin_closing-named :
      (r r' : Room D W) (m : Manager D W) → IsNamed r r' → begin_closing r' m ≡ begin_closing r m
  unfolding begin_closing
  begin_closing-named r r' m (code_same, id_same) =
      ap (λ c. begin_closing (record r' { room_code = c }) m) code_same
      ∙ ap (λ i. begin_closing (record r' { room_code = r.room_code; room_instance_id = i }) m)
          id_same

  pub fires-Freed :
      (cfg : Settings) (m : Manager D W) (i : Text) (r r' : Room D W)
      → IsValid cfg m
      → get m.instances i ≡ some r
      → IsNamed r r'
      → Freed cfg i m (begin_closing r' (with_object i r' m))
  fires-Freed cfg m i r r' v at_i named =
      subst (Freed cfg i m) (sym (begin_closing-named r r' (with_object i r' m) named)) (
        closed-Freed cfg i r m (put m.instances i r') v at_i
          (λ k other. ground (arith, get-put m.instances i k r', other)))

  -- A room that no visit has made.
  pub creates-IsValid :
      (cfg : Settings) (code j : Text) (now : ℕ) (m : Manager D W)
      → IsValid cfg (visited_open code j now m)
      → IsValid cfg (open_room code j now m)
  unfolding is_joinable
  creates-IsValid cfg code j now m v =
      let n = open_room code j now m in
      record {
        mapped = λ c i e.
            let (q, made) = v.mapped c i e in
            elim (Option-cases (get n.instances i)) [
              | inl gone ↦
                  absurd (ground (arith, get-alter mark_visited n.instances j i, made.object, gone))
              | inr (r, at_i) ↦
                  let is_q : (q ≡ mark_visited r) ⊎ (q ≡ r) = elim (Bool-cases (same j i)) [
                    | inl own ↦ inl (
                        ground
                          (arith, get-alter mark_visited n.instances j i, made.object, at_i, own))
                    | inr other ↦ inr (
                        ground
                          (arith, get-alter mark_visited n.instances j i, made.object, at_i, other))
                  ] in
                  (
                    r,
                    elim is_q [
                      | inl marked ↦ record {
                        object = at_i;
                        code_of = ap (λ (x : Room D W). x.room_code) (sym marked) ∙ made.code_of;
                        id_of = ap (λ (x : Room D W). x.room_instance_id) (sym marked) ∙ made.id_of;
                        admits = ap is_joinable (sym marked) ∙ made.admits;
                      }
                      | inr plain ↦ record {
                        object = at_i;
                        code_of = ap (λ (x : Room D W). x.room_code) (sym plain) ∙ made.code_of;
                        id_of = ap (λ (x : Room D W). x.room_instance_id) (sym plain) ∙ made.id_of;
                        admits = ap is_joinable (sym plain) ∙ made.admits;
                      }
                    ],
                  )
            ];
        bounded = v.bounded;
      }
