-- ===== src/Rooms/Manager/Lifecycle.antt =====
-- The manager of backend/app/rooms/manager.py stays valid whatever happens to its rooms.
use ephemeral_rooms.Prelude.{
  ◌≡◌, ◌≢◌, inl, inr, refl, sym, ◌∙◌, subst, true, none, some, Text, arith,
}
use ephemeral_rooms.Config.{Settings}
use ephemeral_rooms.Dict.{get, alter, get-put_self, get-alter_self}
use ephemeral_rooms.Rooms.Instance.State.{Room, is_joinable, cancel_empty_grace}
use ephemeral_rooms.Rooms.Instance.Depart.{Fired, nothing, fire, cancel_all_timers}
use ephemeral_rooms.Rooms.Instance.Depart
use ephemeral_rooms.Rooms.Manager.{Manager, open_room, mark_visited, close_room_now, forced}
use ephemeral_rooms.Rooms.Manager.Closing.{IsValid}
use ephemeral_rooms.Rooms.Manager.Keeps.{visited_open-IsValid, create_cases, get_or_create_cases}
use ephemeral_rooms.Rooms.Manager.Freeing.{Freed, close_room_now_cases, close_room_now-Freed}
use ephemeral_rooms.Rooms.Manager.Apart.{
  IsApart, open_room-IsApart, alter-IsApart, object-IsApart, begin_closing-IsApart,
}
use ephemeral_rooms.Rooms.Manager.Steps.{
  with_object, after_fire, Step, Serves, IsNamed, here, next, creates, visits, joins, drops, leaves,
  fires, forces, cleans, join-IsNamed, mark_disconnected-IsNamed, remove_user-IsNamed, fire-IsNamed,
  join_live, mark_disconnected_live, remove_user_live, fire_live,
}
use ephemeral_rooms.Rooms.Manager.Effects.{
  acts-IsValid, cleans-IsValid, creates-IsValid, fires-Freed,
}

module _ {D W : Type 0} where
  forced-id : (r : Room D W) → (forced r).room_instance_id ≡ r.room_instance_id
  unfolding cancel_all_timers cancel_empty_grace
  forced-id r = ground arith

  -- A valid manager whose cleanup tasks no code leads to.
  abbrev pub IsServing : Settings → Manager D W → Type 0
  IsServing cfg m = IsValid cfg m × IsApart m

  objects-IsServing :
      (cfg : Settings) (m : Manager D W) (i : Text) (r r' : Room D W)
      → IsServing cfg m
      → get m.instances i ≡ some r
      → IsNamed r r'
      → (is_joinable r ≡ true → is_joinable r' ≡ true)
      → IsServing cfg (with_object i r' m)
  objects-IsServing cfg m i r r' (v, a) at_i named live =
      (acts-IsValid cfg m i r r' v at_i named live, object-IsApart m i r r' m.store a at_i named)

  fires-IsServing :
      (cfg : Settings) (m : Manager D W) (i : Text) (r r' : Room D W) (o : Fired)
      → IsServing cfg m
      → get m.instances i ≡ some r
      → IsNamed r r'
      → (o ≢ Depart.begin_closing → is_joinable r ≡ true → is_joinable r' ≡ true)
      → IsServing cfg (after_fire o i r' m)
  fires-IsServing cfg m i r r' Depart.begin_closing (v, a) at_i named live =
      let freed = fires-Freed cfg m i r r' v at_i named in
      (
        freed.valid,
        begin_closing-IsApart cfg i r' m (with_object i r' m)
            (object-IsApart m i r r' m.store a at_i named)
            (λ e. ground (arith, e, get-put_self m.instances i r')) (named.1 ∙ a.keyed i r at_i)
            refl a freed,
      )
  fires-IsServing cfg m i r r' nothing s at_i named live =
      objects-IsServing cfg m i r r' s at_i named (live (λ e. ground arith))
  fires-IsServing cfg m i r r' (Depart.user_left u) s at_i named live =
      objects-IsServing cfg m i r r' s at_i named (live (λ e. ground arith))

  forces-IsServing :
      (cfg : Settings) (m : Manager D W) (i : Text)
      → IsServing cfg m
      → IsServing cfg (close_room_now i m)
  forces-IsServing cfg m i (v, a) =
      let freed = close_room_now-Freed cfg i m v in
      elim (close_room_now_cases i m) [
        | inl same_m ↦ subst (IsServing cfg) (sym same_m) (v, a)
        | inr (r, at_i, is) ↦
            let n : Manager D W = record m { instances = alter forced i m.instances } in
            (
              freed.valid,
              subst IsApart (sym is) (
                  begin_closing-IsApart cfg i r m n (alter-IsApart forced i m (λ q. forced-id q) a)
                    (λ e. ground (arith, e, get-alter_self forced m.instances i at_i))
                    (a.keyed i r at_i) refl a (subst (Freed cfg i m) is freed)),
            )
      ]

  Step-IsServing :
      (cfg : Settings) (m n : Manager D W) → IsServing cfg m → Step cfg m n → IsServing cfg n
  Step-IsServing cfg m n (v, a) (creates draws j now _ new e) =
      let (c, is, at_j, space) = create_cases cfg draws j now none m n j e in
      subst (IsServing cfg) (sym is) (
        creates-IsValid cfg c j now m (visited_open-IsValid cfg c j now m v new space),
        open_room-IsApart c j now m a new,
      )
  Step-IsServing cfg m n (v, a) (visits draws j now code _ i b new e) =
      elim (get_or_create_cases cfg draws j now code m n i b e) [
        | inl same_m ↦ subst (IsServing cfg) (sym same_m) (v, a)
        | inr (c, is, space) ↦ subst (IsServing cfg) (sym is) (
          visited_open-IsValid cfg c j now m v new space,
          alter-IsApart mark_visited j (open_room c j now m) (λ r. refl)
              (open_room-IsApart c j now m a new),
        )
      ]
  Step-IsServing cfg m _ s (joins i r is_open now fresh conn token name at_i) =
      objects-IsServing cfg m i r _ s at_i (join-IsNamed is_open cfg now fresh conn token name r)
        (join_live is_open cfg now fresh conn token name r)
  Step-IsServing cfg m _ s (drops i r now user_id conn at_i) =
      objects-IsServing cfg m i r _ s at_i (mark_disconnected-IsNamed cfg now user_id conn r)
        (mark_disconnected_live cfg now user_id conn r)
  Step-IsServing cfg m _ s (leaves i r now user_id at_i) =
      objects-IsServing cfg m i r _ s at_i (remove_user-IsNamed cfg now user_id r)
        (remove_user_live cfg now user_id r)
  Step-IsServing cfg m _ s (fires i r now handle at_i) =
      fires-IsServing cfg m i r (fire cfg now handle r).0 (fire cfg now handle r).1 s at_i
        (fire-IsNamed cfg now handle r) (fire_live cfg now handle r)
  Step-IsServing cfg m _ s (forces i) = forces-IsServing cfg m i s
  Step-IsServing cfg m _ (v, a) (cleans i r r' store closing at_i named) = (
    cleans-IsValid cfg m i r' store v (a.apart i closing),
    object-IsApart m i r r' store a at_i named,
  )

  pub Serves-IsServing :
      (cfg : Settings) (m n : Manager D W) → IsServing cfg m → Serves cfg m n → IsServing cfg n
  Serves-IsServing cfg m _ s here = s
  Serves-IsServing cfg m n s (next {n = p} reach step) =
      Step-IsServing cfg p n (Serves-IsServing cfg m p s reach) step
