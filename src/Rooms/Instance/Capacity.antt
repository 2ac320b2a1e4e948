-- ===== src/Rooms/Instance/Capacity.antt =====
-- `join` of backend/app/rooms/instance.py and MAX_USERS_PER_ROOM.
use ephemeral_rooms.Prelude.{
  ℕ, suc, ◌≤◌, ◌<◌, ◌≡◌, ◌≢◌, leb→le, leb→lt, refl, sym, subst, Bool, true, false, Option, none,
  some, [], ◌∷◌, arith, length, leb, Text, inl, inr, ◌⊎◌, Bool-cases, same_iff,
}
use ephemeral_rooms.Config.{Settings}
use ephemeral_rooms.Dict.{Dict, values, get, put, alter, get-put, get-put_self}
use ephemeral_rooms.Rooms.Types.{User, active, connected, disconnected}
use ephemeral_rooms.Rooms.Instance.State.{Room, is_joinable, cancel_empty_grace, find_by_token}
use ephemeral_rooms.Rooms.Instance.Join.{
  Fresh, JoinOutcome, joined, room_full, join, resume, rebind, admit, admit_or_refuse, or_empty,
  new_user,
}
use ephemeral_rooms.Rooms.Instance.Presence.{connected_in}
use ephemeral_rooms.Rooms.Instance.Invariant.{IsValid}
use ephemeral_rooms.Rooms.Instance.Admission.{join_cases, IsValid-joinable}
use ephemeral_rooms.Rooms.Instance.Identity.{
  SameContents, HoldsAlone, join-eq-resume, find_by_token_self,
}

-- One user more is connected once a disconnected entry is bound to a socket.
length-connected_in-rebind :
    (conn now : ℕ) (k : Text) (d : Dict User) (u : User)
    → get d k ≡ some u
    → u.connection_state ≡ disconnected
    → length (connected_in (alter (rebind conn now) k d)) ≡ suc (length (connected_in d))
unfolding get alter rebind values
length-connected_in-rebind conn now k [] u h off = ground arith
length-connected_in-rebind conn now k ((j, w) ∷ d) u h off =
    ground (arith, length-connected_in-rebind conn now k d u)

length-connected_in-put :
    (k : Text) (d : Dict User) (u : User)
    → get d k ≡ none
    → u.connection_state ≡ connected
    → length (connected_in (put d k u)) ≡ suc (length (connected_in d))
unfolding get put values
length-connected_in-put k [] u h on = ground arith
length-connected_in-put k ((j, w) ∷ d) u h on = ground (arith, length-connected_in-put k d u)

module _ {D W : Type 0} where
  -- A new user: the next number, above every number in the room, and everyone else as before.
  pub record Admits (r s : Room D W) (fresh : Fresh) (conn : ℕ) (out : JoinOutcome) : Type 0 where
    pub user : User
    pub outcome : out ≡ joined user false none
    pub id : user.user_id ≡ fresh.user_id
    pub in_room : get s.users fresh.user_id ≡ some user
    pub number : user.client_id ≡ suc r.join_seq
    pub above : (j : Text) (w : User) → get r.users j ≡ some w → w.client_id < user.client_id
    pub others : (j : Text) → j ≢ fresh.user_id → get s.users j ≡ get r.users j
    pub counted : s.join_seq ≡ suc r.join_seq
    pub awake : s.state ≡ active
    pub contents : SameContents r s

  -- A refusal for want of space leaves the users, the state and the contents as they were.
  pub record Refuses (r s : Room D W) (out : JoinOutcome) : Type 0 where
    pub outcome : out ≡ room_full
    pub users : s.users ≡ r.users
    pub state : s.state ≡ r.state
    pub number_kept : s.join_seq ≡ r.join_seq
    pub contents : SameContents r s

  join-eq-admit :
      (is_open : ℕ → Bool) (cfg : Settings) (now : ℕ) (fresh : Fresh) (conn : ℕ)
      (token name : Option Text) (r : Room D W)
      → is_joinable r ≡ true
      → find_by_token r (or_empty token) ≡ none
      → join is_open cfg now fresh conn token name r
        ≡ admit_or_refuse cfg now fresh conn name (cancel_empty_grace r)
  join-eq-admit is_open cfg now fresh conn token name r open_room lost =
      join_cases (λ o. o ≡ admit_or_refuse cfg now fresh conn name (cancel_empty_grace r)) is_open
        cfg now fresh conn token name r open_room (λ j w e. absurd (ground (arith, e, lost)))
        (λ e. refl)

  admit_lem :
      (cfg : Settings) (now : ℕ) (fresh : Fresh) (conn : ℕ) (name : Option Text) (r : Room D W)
      → IsValid r
      → get r.users fresh.user_id ≡ none
      → let o = admit now fresh conn name (cancel_empty_grace r) in Admits r o.0 fresh conn o.1
  unfolding admit cancel_empty_grace
  admit_lem cfg now fresh conn name r v new =
      let user = new_user now fresh conn name r in
      record {
        user = user;
        outcome = refl;
        id = refl;
        in_room = get-put_self r.users fresh.user_id user;
        number = refl;
        above = λ j w e. ground (arith, v.members.each j w);
        others =
            λ j ne. ground (arith, get-put r.users fresh.user_id j user, same_iff fresh.user_id j);
        counted = refl;
        awake = refl;
        contents = record {
          room_instance_id = refl;
          documents = refl;
          files = refl;
          uploads = refl;
          op_seq = refl;
        };
      }

  admit-connected :
      (cfg : Settings) (now : ℕ) (fresh : Fresh) (conn : ℕ) (name : Option Text) (r : Room D W)
      → get r.users fresh.user_id ≡ none
      → length (connected_in (admit now fresh conn name (cancel_empty_grace r)).0.users)
        ≡ suc (length (connected_in r.users))
  unfolding admit cancel_empty_grace
  admit-connected cfg now fresh conn name r new =
      length-connected_in-put fresh.user_id r.users (new_user now fresh conn name r) new refl

  admit_or_refuse-eq-admit :
      (cfg : Settings) (now : ℕ) (fresh : Fresh) (conn : ℕ) (name : Option Text) (r : Room D W)
      → leb cfg.max_users_per_room (length (connected_in r.users)) ≡ false
      → admit_or_refuse cfg now fresh conn name (cancel_empty_grace r)
        ≡ admit now fresh conn name (cancel_empty_grace r)
  unfolding admit_or_refuse cancel_empty_grace
  admit_or_refuse-eq-admit cfg now fresh conn name r space = rw space

  -- What a join with no known token comes to.
  abbrev pub Newcomer : Settings → Room D W → Room D W × JoinOutcome → Fresh → ℕ → Type 0
  Newcomer cfg r o fresh conn =
      (Admits r o.0 fresh conn o.1
        × (length (connected_in r.users) < cfg.max_users_per_room)
        × (length (connected_in o.0.users) ≤ cfg.max_users_per_room))
      ⊎ (Refuses r o.0 o.1 × (cfg.max_users_per_room ≤ length (connected_in r.users)))

  admit_or_refuse_lem :
      (cfg : Settings) (now : ℕ) (fresh : Fresh) (conn : ℕ) (name : Option Text) (r : Room D W)
      → IsValid r
      → get r.users fresh.user_id ≡ none
      → Newcomer cfg r (admit_or_refuse cfg now fresh conn name (cancel_empty_grace r)) fresh conn
  admit_or_refuse_lem cfg now fresh conn name r v new =
      elim (Bool-cases (leb cfg.max_users_per_room (length (connected_in r.users)))) [
        | inl full ↦ inr (
            unfold admit_or_refuse cancel_empty_grace in
            rw full (
              record {
                outcome = refl;
                users = refl;
                state = refl;
                number_kept = refl;
                contents = record {
                  room_instance_id = refl;
                  documents = refl;
                  files = refl;
                  uploads = refl;
                  op_seq = refl;
                };
              },
              leb→le _ _ full,
            ))
        | inr space ↦ inl (
            subst
              (λ o.
                Admits r o.0 fresh conn o.1
                × (length (connected_in r.users) < cfg.max_users_per_room)
                × (length (connected_in o.0.users) ≤ cfg.max_users_per_room))
              (sym (admit_or_refuse-eq-admit cfg now fresh conn name r space))
              (
                admit_lem cfg now fresh conn name r v new,
                leb→lt _ _ space,
                omega (
                  arith,
                  leb→lt cfg.max_users_per_room (length (connected_in r.users)) space,
                  admit-connected cfg now fresh conn name r new,
                ),
              ))
      ]

  -- In a valid room, a join whose token no user holds admits a new user below MAX_USERS_PER_ROOM,
  -- with the next number, above all others, and everyone else unchanged, and keeps the connected
  -- users within the cap; at the cap it is refused, and users, state and contents stay. The id
  -- drawn is taken to be new.
  pub join_new :
      (is_open : ℕ → Bool) (cfg : Settings) (now : ℕ) (fresh : Fresh) (conn : ℕ)
      (token name : Option Text) (r : Room D W)
      → IsValid r
      → get r.users fresh.user_id ≡ none
      → find_by_token r (or_empty token) ≡ none
      → Newcomer cfg r (join is_open cfg now fresh conn token name r) fresh conn
  join_new is_open cfg now fresh conn token name r v new lost =
      rw (join-eq-admit is_open cfg now fresh conn token name r (IsValid-joinable r v) lost)
        (admit_or_refuse_lem cfg now fresh conn name r v new)

  -- A resume is not held to the cap: in a valid room whose connected users fill it, a disconnected
  -- user still comes back by its token, and more than the cap are connected. The token is taken to
  -- be held by this user alone and not to be empty.
  pub resume_over_cap :
      (is_open : ℕ → Bool) (cfg : Settings) (now : ℕ) (fresh : Fresh) (conn : ℕ)
      (name : Option Text) (r : Room D W) (k : Text) (u : User)
      → IsValid r
      → get r.users k ≡ some u
      → u.connection_state ≡ disconnected
      → u.session_token ≢ []
      → HoldsAlone r k u
      → length (connected_in r.users) ≡ cfg.max_users_per_room
      → cfg.max_users_per_room
        < length
            (connected_in (join is_open cfg now fresh conn (some u.session_token) name r).0.users)
  resume_over_cap is_open cfg now fresh conn name r k u v here off real alone full =
      rw
        (join-eq-resume is_open cfg now fresh conn (some u.session_token) name r k u
          (IsValid-joinable r v) (find_by_token_self r k u v here real alone))
        (unfold resume cancel_empty_grace in
          omega (arith, length-connected_in-rebind conn now k r.users u here off))
