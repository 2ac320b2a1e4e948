-- ===== src/Rooms/Manager/Freeing.antt =====
-- `close_room_now` and the start of a closing in backend/app/rooms/manager.py: what they leave of a
-- valid manager.
use ephemeral_rooms.Prelude.{
  ◌≡◌, ◌⊎◌, inl, inr, refl, sym, ◌∙◌, ap, subst, Bool, true, false, none, some, [], ◌∷◌, any, Text,
  arith, same, same_iff, same_refl, Bool-cases, Option-cases,
}
use ephemeral_rooms.Config.{Settings}
use ephemeral_rooms.Dict.{Dict, get, pop, alter, values, get-pop, get-alter, length-pop-le}
use ephemeral_rooms.Rooms.Instance.State.{Room, is_joinable, joinable_state}
use ephemeral_rooms.Rooms.Manager.{Manager, begin_closing, close_room_now, forced}
use ephemeral_rooms.Rooms.Manager.Closing.{IsValid}

pub values-Covers :
    (d : Dict Text) (code k : Text) → get d code ≡ some k → any (λ i. same i k) (values d) ≡ true
unfolding get values
values-Covers [] code k e = absurd (ground arith)
values-Covers ((c, i) ∷ d) code k e = ground (arith, values-Covers d code k, same_refl k)

module _ {D W : Type 0} where
  -- What is left in the map led elsewhere before.
  pub record Freed (cfg : Settings) (i : Text) (m n : Manager D W) : Type 0 where
    pub valid : IsValid cfg n
    pub left :
        (code k : Text)
        → get n.rooms code ≡ some k
        → (get m.rooms code ≡ some k) × (same i k ≡ false)

  -- Whether the map leads from a room's code to it.
  abbrev leads_to : Room D W → Manager D W → Bool
  leads_to r m = elim (get m.rooms r.room_code) [
    | none ↦ false
    | some k ↦ same k r.room_instance_id
  ]

  unchanged :
      (cfg : Settings) (i : Text) (m : Manager D W)
      → IsValid cfg m
      → ((r : Room D W) → get m.instances i ≡ some r → is_joinable r ≡ false)
      → Freed cfg i m m
  unchanged cfg i m v over = record {
    valid = v;
    left = λ code k e. (
      e,
      elim (Bool-cases (same i k)) [
        | inr other ↦ other
        | inl own ↦
            let (q, old) = v.mapped code k e in
            absurd (ground (arith, same_iff i k, own, old.object, old.admits, over q))
      ],
    );
  }

  rooms-popped :
      (r : Room D W) (m : Manager D W)
      → leads_to r m ≡ true
      → (begin_closing r m).rooms ≡ pop m.rooms r.room_code
  unfolding begin_closing
  rooms-popped r m leads = ground arith

  rooms-kept :
      (r : Room D W) (m : Manager D W) → leads_to r m ≡ false → (begin_closing r m).rooms ≡ m.rooms
  unfolding begin_closing
  rooms-kept r m strays = ground arith

  closed_left :
      (cfg : Settings) (i : Text) (r : Room D W) (m m' : Manager D W) (code k : Text)
      → IsValid cfg m
      → get m.instances i ≡ some r
      → m'.rooms ≡ m.rooms
      → get (begin_closing r m').rooms code ≡ some k
      → (get m.rooms code ≡ some k) × (same i k ≡ false)
  closed_left cfg i r m m' code k v at_i kept e = elim (Bool-cases (leads_to r m')) [
    | inl leads ↦
        let e' : get (pop m.rooms r.room_code) code ≡ some k =
          ap (λ d. get (pop d r.room_code) code) (sym kept)
          ∙ ap (λ d. get d code) (sym (rooms-popped r m' leads))
          ∙ e in
        let there : get m.rooms code ≡ some k =
          ground (arith, get-pop m.rooms r.room_code code, e') in
        let (q, old) = v.mapped code k there in
        (
          there,
          ground (
            arith,
            get-pop m.rooms r.room_code code,
            e',
            same_iff i k,
            same_iff r.room_code code,
            old.object,
            old.code_of,
            at_i,
          ),
        )
    | inr strays ↦
        let there : get m.rooms code ≡ some k =
          ap (λ d. get d code) (sym kept)
          ∙ ap (λ d. get d code) (sym (rooms-kept r m' strays))
          ∙ e in
        let (q, old) = v.mapped code k there in
        (
          there,
          elim (Bool-cases (same i k)) [
            | inr other ↦ other
            | inl own ↦
                let at_k : i ≡ k = (same_iff i k).0 own in
                let is_r : q ≡ r = ground (arith, old.object, at_i, at_k) in
                let code_r : r.room_code ≡ code =
                  ap (λ (x : Room D W). x.room_code) (sym is_r) ∙ old.code_of in
                let id_r : r.room_instance_id ≡ k =
                  ap (λ (x : Room D W). x.room_instance_id) (sym is_r) ∙ old.id_of in
                let leads : get m'.rooms r.room_code ≡ some k =
                  ap (λ d. get d r.room_code) kept ∙ ap (get m.rooms) code_r ∙ there in
                absurd (ground (arith, strays, leads, same_refl k, id_r))
          ],
        )
  ]

  -- The closing of a room, whatever its own object becomes.
  pub closed-Freed :
      (cfg : Settings) (i : Text) (r : Room D W) (m : Manager D W) (objects : Dict (Room D W))
      → IsValid cfg m
      → get m.instances i ≡ some r
      → ((k : Text) → same i k ≡ false → get objects k ≡ get m.instances k)
      → Freed cfg i m (begin_closing r (record m { instances = objects }))
  closed-Freed cfg i r m objects v at_i others =
      let m' : Manager D W = record m { instances = objects } in
      record {
        valid = record {
          mapped = λ code k e.
              let (there, other) = closed_left cfg i r m m' code k v at_i refl e in
              let (q, old) = v.mapped code k there in
              (
                q,
                record {
                  object = unfold begin_closing in others k other ∙ old.object;
                  code_of = old.code_of;
                  id_of = old.id_of;
                  admits = old.admits;
                },
              );
          bounded = elim (Bool-cases (leads_to r m')) [
            | inl leads ↦
                rw (rooms-popped r m' leads)
                  (omega (arith, length-pop-le m.rooms r.room_code, v.bounded))
            | inr strays ↦ rw (rooms-kept r m' strays) v.bounded
          ];
        };
        left = λ code k e. closed_left cfg i r m m' code k v at_i refl e;
      }

  forced-Freed :
      (cfg : Settings) (i : Text) (r : Room D W) (m : Manager D W)
      → IsValid cfg m
      → get m.instances i ≡ some r
      → Freed cfg i m (begin_closing r (record m { instances = alter forced i m.instances }))
  forced-Freed cfg i r m v at_i =
      closed-Freed cfg i r m (alter forced i m.instances) v at_i
        (λ k other. ground (arith, get-alter forced m.instances i k, other))

  skipped :
      (i : Text) (m : Manager D W)
      → ((r : Room D W) → get m.instances i ≡ some r → joinable_state r.state ≡ false)
      → close_room_now i m ≡ m
  unfolding close_room_now
  skipped i m over = elim (Option-cases (get m.instances i)) [
    | inl gone ↦ ground (arith, gone)
    | inr (r, at_i) ↦ ground (arith, at_i, over r at_i)
  ]

  closed_now :
      (i : Text) (r : Room D W) (m : Manager D W)
      → get m.instances i ≡ some r
      → joinable_state r.state ≡ true
      → close_room_now i m ≡ begin_closing r (record m { instances = alter forced i m.instances })
  unfolding close_room_now
  closed_now i r m at_i live = ground (arith, at_i, live)

  pub close_room_now-Freed :
      (cfg : Settings) (i : Text) (m : Manager D W)
      → IsValid cfg m
      → Freed cfg i m (close_room_now i m)
  unfolding is_joinable
  close_room_now-Freed cfg i m v = elim (Option-cases (get m.instances i)) [
    | inl gone ↦
        subst (Freed cfg i m) (sym (skipped i m (λ r e. absurd (ground arith))))
          (unchanged cfg i m v (λ r e. absurd (ground arith)))
    | inr (r, at_i) ↦ elim (Bool-cases (joinable_state r.state)) [
      | inl live ↦
          subst (Freed cfg i m) (sym (closed_now i r m at_i live)) (forced-Freed cfg i r m v at_i)
      | inr over ↦
          subst (Freed cfg i m) (sym (skipped i m (λ q e. ground (arith, at_i, e, over))))
            (unchanged cfg i m v (λ q e. ground (arith, at_i, e, over)))
    ]
  ]

  -- A forced closing does nothing, or begins the closing of a room.
  pub close_room_now_cases :
      (i : Text) (m : Manager D W)
      → (close_room_now i m ≡ m)
        ⊎ ((r : Room D W) × (get m.instances i ≡ some r)
            × (close_room_now i m
                ≡ begin_closing r (record m { instances = alter forced i m.instances })))
  close_room_now_cases i m = elim (Option-cases (get m.instances i)) [
    | inl gone ↦ inl (skipped i m (λ r e. absurd (ground arith)))
    | inr (r, at_i) ↦ elim (Bool-cases (joinable_state r.state)) [
      | inl live ↦ inr (r, at_i, closed_now i r m at_i live)
      | inr over ↦ inl (skipped i m (λ q e. ground (arith, at_i, e, over)))
    ]
  ]
