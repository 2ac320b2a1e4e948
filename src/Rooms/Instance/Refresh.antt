-- ===== src/Rooms/Instance/Refresh.antt =====
-- A browser refresh, and a socket that dies late, in backend/app/rooms/instance.py: a drop followed
-- by a join with the token, and the close of the old socket after the new one has taken over.
use ephemeral_rooms.Prelude.{
  ℕ, ◌<◌, ◌≡◌, ◌≢◌, refl, sym, ap, ◌∙◌, subst, Bool, Option, none, some, [], arith, Text, inl, inr,
  Option-cases,
}
use ephemeral_rooms.Config.{Settings}
use ephemeral_rooms.Dict.{get, alter, get-alter, get-alter_self}
use ephemeral_rooms.Rooms.Types.{User, disconnected}
use ephemeral_rooms.Storage.Timers.{cancel_held}
use ephemeral_rooms.Rooms.Instance.State.{Room, maybe_start_empty_grace}
use ephemeral_rooms.Rooms.Instance.Join.{Fresh, JoinOutcome, join}
use ephemeral_rooms.Rooms.Instance.Depart.{mark_disconnected, drop_connection, dropped_user}
use ephemeral_rooms.Rooms.Instance.Invariant.{IsValid}
use ephemeral_rooms.Rooms.Instance.Keeps.{mark_disconnected-IsValid}
use ephemeral_rooms.Rooms.Instance.Identity.{
  SameIdentity, SameContents, HoldsAlone, Resumes, join-Resumes, SameIdentity-trans,
  SameContents-trans,
}

module _ {D W : Type 0} where
  settle_keeps :
      (cfg : Settings) (now : ℕ) (r : Room D W)
      → let s = maybe_start_empty_grace cfg now r in
        (s.users ≡ r.users) × (s.join_seq ≡ r.join_seq) × SameContents r s
  unfolding maybe_start_empty_grace
  settle_keeps cfg now r = ground arith

  dropped-alone :
      (r : Room D W) (k : Text) (u : User) (h : ℕ)
      → get r.users k ≡ some u
      → HoldsAlone r k u
      → (j : Text) (w : User) → get (alter (dropped_user h) k r.users) j ≡ some w
      → w.session_token ≡ u.session_token
      → j ≡ k
  dropped-alone r k u h here alone j w e t = elim (Option-cases (get r.users j)) [
    | inl out ↦ absurd (ground (arith, get-alter (dropped_user h) r.users k j))
    | inr (x, there) ↦
        alone j x there (ground (arith, get-alter (dropped_user h) r.users k j, there))
  ]

  -- What a dropped socket leaves: the user, disconnected, and everything else.
  pub record Dropped (r s : Room D W) (k : Text) (u : User) : Type 0 where
    pub user : User
    pub in_room : get s.users k ≡ some user
    pub identity : SameIdentity u user
    pub is_offline : user.connection_state ≡ disconnected
    pub number_kept : s.join_seq ≡ r.join_seq
    pub contents : SameContents r s
    pub alone : HoldsAlone s k user

  mark_disconnected-eq :
      (cfg : Settings) (now : ℕ) (k : Text) (conn : ℕ) (r : Room D W) (u : User)
      → get r.users k ≡ some u
      → u.connection ≡ some conn
      → mark_disconnected cfg now k conn r
        ≡ maybe_start_empty_grace cfg now (drop_connection cfg now k u r)
  unfolding mark_disconnected
  mark_disconnected-eq cfg now k conn r u here on = ground arith

  drop_connection_lem :
      (cfg : Settings) (now : ℕ) (k : Text) (r : Room D W) (u : User)
      → get r.users k ≡ some u
      → HoldsAlone r k u
      → Dropped r (maybe_start_empty_grace cfg now (drop_connection cfg now k u r)) k u
  unfolding drop_connection
  drop_connection_lem cfg now k r u here alone =
      let s = drop_connection cfg now k u r in
      let (users, number, kept) = settle_keeps cfg now s in
      let h = (cancel_held r.clock u.disconnect_timer).next_handle in
      record {
        user = dropped_user h u;
        in_room = ap (λ us. get us k) users ∙ get-alter_self (dropped_user h) r.users k here;
        identity = record {
          user_id = refl;
          display_name = refl;
          session_token = refl;
          client_id = refl;
          joined_at = refl;
        };
        is_offline = refl;
        number_kept = number;
        contents = record {
          room_instance_id = kept.room_instance_id;
          documents = kept.documents;
          files = kept.files;
          uploads = kept.uploads;
          op_seq = kept.op_seq;
        };
        alone =
            λ j w e t. dropped-alone r k u h here alone j w (ap (λ us. get us j) (sym users) ∙ e) t;
      }

  -- In a valid room, a user whose socket dropped comes back by its token on any later socket: same
  -- id, name, number and token, connected to the new socket in an ACTIVE room whose contents and
  -- join counter are as before the drop, and no removal of the user is pending any more. The token
  -- is taken to be held by this user alone and not to be empty, the id drawn to be new, and
  -- MAX_USERS_PER_ROOM to be at least 1.
  pub join-mark_disconnected :
      (is_open : ℕ → Bool) (cfg : Settings) (now later : ℕ) (fresh : Fresh) (old conn : ℕ)
      (name : Option Text) (r : Room D W) (k : Text) (u : User)
      → IsValid r
      → 0 < cfg.max_users_per_room
      → get (mark_disconnected cfg now k old r).users fresh.user_id ≡ none
      → get r.users k ≡ some u
      → u.connection ≡ some old
      → u.session_token ≢ []
      → HoldsAlone r k u
      → let o =
          join is_open cfg later fresh conn
            (some u.session_token)
            name
            (mark_disconnected cfg now k old r) in
        Resumes r o.0 k u conn o.1
  join-mark_disconnected is_open cfg now later fresh old conn name r k u v room new here on real
        alone =
      let s = mark_disconnected cfg now k old r in
      let gone : Dropped r s k u =
        subst (λ q. Dropped r q k u) (sym (mark_disconnected-eq cfg now k old r u here on))
          (drop_connection_lem cfg now k r u here alone) in
      let w = gone.user in
      let token = gone.identity.session_token in
      let back : Resumes s (join is_open cfg later fresh conn (some u.session_token) name s).0 k w
          conn (join is_open cfg later fresh conn (some u.session_token) name s).1 =
        subst
          (λ t.
            Resumes s (join is_open cfg later fresh conn (some t) name s).0 k w conn
              (join is_open cfg later fresh conn (some t) name s).1)
          token
          (join-Resumes is_open cfg later fresh conn name s k w
            (mark_disconnected-IsValid cfg now k old r v) room new gone.in_room
            (λ e. real (sym token ∙ e)) gone.alone) in
      record {
        user = back.user;
        to_close = back.to_close;
        outcome = back.outcome;
        in_room = back.in_room;
        identity = SameIdentity-trans gone.identity back.identity;
        on_socket = back.on_socket;
        is_online = back.is_online;
        awake = back.awake;
        number_kept = back.number_kept ∙ gone.number_kept;
        contents = SameContents-trans gone.contents back.contents;
        no_removal = back.no_removal;
      }

  superseded-kept :
      (cfg : Settings) (now : ℕ) (r s : Room D W) (k : Text) (u : User) (old conn : ℕ)
      (out : JoinOutcome)
      → Resumes r s k u conn out
      → old ≢ conn
      → mark_disconnected cfg now k old s ≡ s
  unfolding mark_disconnected
  superseded-kept cfg now r s k u old conn out back ne =
      ground (arith, back.in_room, back.on_socket)

  -- When a user of a valid room has come back by its token on a new socket, the close of another
  -- socket of the user, whenever it is processed, changes nothing: the user is still the same,
  -- connected to the new socket in an ACTIVE room, and no removal of the user is pending. The token
  -- is taken to be held by this user alone and not to be empty, the id drawn to be new, and
  -- MAX_USERS_PER_ROOM to be at least 1.
  pub mark_disconnected-join :
      (is_open : ℕ → Bool) (cfg : Settings) (now later : ℕ) (fresh : Fresh) (old conn : ℕ)
      (name : Option Text) (r : Room D W) (k : Text) (u : User)
      → IsValid r
      → 0 < cfg.max_users_per_room
      → get r.users fresh.user_id ≡ none
      → get r.users k ≡ some u
      → u.session_token ≢ []
      → HoldsAlone r k u
      → old ≢ conn
      → let o = join is_open cfg now fresh conn (some u.session_token) name r in
        (mark_disconnected cfg later k old o.0 ≡ o.0)
        × Resumes r (mark_disconnected cfg later k old o.0) k u conn o.1
  mark_disconnected-join is_open cfg now later fresh old conn name r k u v room new here real alone
        ne =
      let o = join is_open cfg now fresh conn (some u.session_token) name r in
      let back = join-Resumes is_open cfg now fresh conn name r k u v room new here real alone in
      let kept = superseded-kept cfg later r o.0 k u old conn o.1 back ne in
      (kept, subst (λ s. Resumes r s k u conn o.1) (sym kept) back)
