-- ===== src/Rooms/Instance/Members.antt =====
-- The operations on the dict of users, in backend/app/rooms/instance.py, and its well-formedness.
use ephemeral_rooms.Prelude.{
  ℕ, suc, ◌≡◌, none, some, arith, Text, same_iff, inl, inr, ◌⊎◌, Option-cases,
}
use ephemeral_rooms.Dict.{Dict, get, put, pop, alter, get-put, get-pop, get-alter}
use ephemeral_rooms.Dict.Distinct.{put-Distinct, pop-Distinct, alter-Distinct}
use ephemeral_rooms.Rooms.Types.{User}
use ephemeral_rooms.Rooms.Instance.Invariant.{Attached, Members}

-- What stands under a key after a change of one entry.
alter_inv :
    (f : User → User) (d : Dict User) (k j : Text) (u : User)
    → get (alter f k d) j ≡ some u
    → (w : User) × (get d j ≡ some w) × ((u ≡ f w) ⊎ (u ≡ w))
alter_inv f d k j u e = elim (Option-cases (get d j)) [
  | inl none_there ↦ absurd (ground (arith, get-alter f d k j))
  | inr (w, there) ↦ (w, there, ground (arith, get-alter f d k j))
]

module _ {users : Dict User} {join_seq : ℕ} (m : Members users join_seq) where
  pub pop-Members : (k : Text) → Members (pop users k) join_seq
  pop-Members k = record {
    distinct = pop-Distinct users k m.distinct;
    each = λ j u e. ground (arith, get-pop users k j, m.each j u);
    clients =
        λ i j u v e e' c. ground (arith, get-pop users k i, get-pop users k j, m.clients i j u v);
  }

  -- A change that keeps a user's identity and leaves it well attached.
  pub alter-Members :
      (f : User → User) (k : Text)
      → ((u : User) → (f u).user_id ≡ u.user_id)
      → ((u : User) → (f u).client_id ≡ u.client_id)
      → ((u : User) → Attached (f u).connection_state (f u).connection (f u).disconnect_timer)
      → Members (alter f k users) join_seq
  alter-Members f k ids numbers shape = record {
    distinct = alter-Distinct f k users m.distinct;
    each = λ j u e.
        let (w, there, origin) = alter_inv f users k j u e in
        ground (arith, m.each j w there, ids w, numbers w, shape w);
    clients = λ i j u v e e' c.
        let (x, at_i, from_x) = alter_inv f users k i u e in
        let (y, at_j, from_y) = alter_inv f users k j v e' in
        m.clients i j x y at_i at_j (ground (arith, numbers x, numbers y));
  }

  -- A new user takes the next number.
  pub put-Members :
      (u : User)
      → get users u.user_id ≡ none
      → u.client_id ≡ suc join_seq
      → Attached u.connection_state u.connection u.disconnect_timer
      → Members (put users u.user_id u) (suc join_seq)
  put-Members u absent number shape = record {
    distinct = put-Distinct users u.user_id u m.distinct;
    each = λ j w e. ground (arith, get-put users u.user_id j u, same_iff u.user_id j, m.each j w);
    clients = λ i j x y e e' c. ground (
      arith,
      get-put users u.user_id i u,
      get-put users u.user_id j u,
      same_iff u.user_id i,
      same_iff u.user_id j,
      m.each i x,
      m.each j y,
      m.clients i j x y,
    );
  }
