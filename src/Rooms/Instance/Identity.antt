-- ===== src/Rooms/Instance/Identity.antt =====
-- Who a token makes a joining socket, in `join` of backend/app/rooms/instance.py.
use ephemeral_rooms.Prelude.{
  ℕ, ◌<◌, ◌≡◌, ◌≢◌, refl, sym, ◌∙◌, subst, Bool, true, Option, none, some, [], arith, Text, inl,
  inr, Option-cases, same_iff,
}
use ephemeral_rooms.Config.{Settings}
use ephemeral_rooms.Dict.{get, alter, get-alter_self}
use ephemeral_rooms.Rooms.Types.{User, active, connected}
use ephemeral_rooms.Storage.Timers.{callback_at}
use ephemeral_rooms.Rooms.Instance.State.{
  Room, remove_user_after_grace, is_joinable, cancel_empty_grace, find_by_token,
}
use ephemeral_rooms.Rooms.Instance.Join.{
  Fresh, JoinOutcome, joined, join, resume, rebind, to_close, or_empty,
}
use ephemeral_rooms.Rooms.Instance.Presence.{find_token_in_complete}
use ephemeral_rooms.Rooms.Instance.Invariant.{IsValid}
use ephemeral_rooms.Rooms.Instance.Admission.{
  join_cases, IsValid-joinable, find_by_token_sound, join-IsValid,
}

-- The same person to everyone else: id, name, number and token are kept.
pub record SameIdentity (u w : User) : Type 0 where
  pub user_id : w.user_id ≡ u.user_id
  pub display_name : w.display_name ≡ u.display_name
  pub session_token : w.session_token ≡ u.session_token
  pub client_id : w.client_id ≡ u.client_id
  pub joined_at : w.joined_at ≡ u.joined_at

pub SameIdentity-trans : {u v w : User} → SameIdentity u v → SameIdentity v w → SameIdentity u w
SameIdentity-trans a b = record {
  user_id = b.user_id ∙ a.user_id;
  display_name = b.display_name ∙ a.display_name;
  session_token = b.session_token ∙ a.session_token;
  client_id = b.client_id ∙ a.client_id;
  joined_at = b.joined_at ∙ a.joined_at;
}

module _ {D W : Type 0} where
  -- What a join leaves alone.
  pub record SameContents (r s : Room D W) : Type 0 where
    pub room_instance_id : s.room_instance_id ≡ r.room_instance_id
    pub documents : s.documents ≡ r.documents
    pub files : s.files ≡ r.files
    pub uploads : s.uploads ≡ r.uploads
    pub op_seq : s.op_seq ≡ r.op_seq

  pub SameContents-trans :
      {r s t : Room D W} → SameContents r s → SameContents s t → SameContents r t
  SameContents-trans a b = record {
    room_instance_id = b.room_instance_id ∙ a.room_instance_id;
    documents = b.documents ∙ a.documents;
    files = b.files ∙ a.files;
    uploads = b.uploads ∙ a.uploads;
    op_seq = b.op_seq ∙ a.op_seq;
  }

  -- No other user holds the token.
  abbrev pub HoldsAlone : Room D W → Text → User → Type 0
  HoldsAlone r k u =
      (j : Text) (w : User) → get r.users j ≡ some w → w.session_token ≡ u.session_token → j ≡ k

  pub find_by_token_self :
      (r : Room D W) (k : Text) (u : User)
      → IsValid r
      → get r.users k ≡ some u
      → u.session_token ≢ []
      → HoldsAlone r k u
      → find_by_token r u.session_token ≡ some (k, u)
  unfolding find_by_token
  find_by_token_self r k u v here real alone =
      elim (Option-cases (find_by_token r u.session_token)) [
        | inl lost ↦
            ground (arith, same_iff u.session_token [], find_token_in_complete r.users k u here)
        | inr ((j, w), e) ↦
            let (at_j, holds) = find_by_token_sound r u.session_token j w v.members e in
            ground (arith, e, alone j w at_j holds)
      ]

  -- The join that a token decides.
  pub join-eq-resume :
      (is_open : ℕ → Bool) (cfg : Settings) (now : ℕ) (fresh : Fresh) (conn : ℕ)
      (token name : Option Text) (r : Room D W) (k : Text) (u : User)
      → is_joinable r ≡ true
      → find_by_token r (or_empty token) ≡ some (k, u)
      → join is_open cfg now fresh conn token name r
        ≡ resume is_open now conn k u (cancel_empty_grace r)
  join-eq-resume is_open cfg now fresh conn token name r k u open_room found =
      join_cases (λ o. o ≡ resume is_open now conn k u (cancel_empty_grace r)) is_open cfg now fresh
        conn token name r open_room (λ j w e. ground (arith, e, found))
        (λ e. absurd (ground (arith, e, found)))

  -- A token brings its user back on the new socket, with identity and room contents kept and no
  -- removal pending.
  pub record Resumes (r s : Room D W) (k : Text) (u : User) (conn : ℕ) (out : JoinOutcome)
      : Type 0 where
    pub user : User
    pub to_close : Option ℕ
    pub outcome : out ≡ joined user true to_close
    pub in_room : get s.users k ≡ some user
    pub identity : SameIdentity u user
    pub on_socket : user.connection ≡ some conn
    pub is_online : user.connection_state ≡ connected
    pub awake : s.state ≡ active
    pub number_kept : s.join_seq ≡ r.join_seq
    pub contents : SameContents r s
    pub no_removal : (i : ℕ) → callback_at s.clock i ≢ some (remove_user_after_grace k)

  resume_lem :
      (is_open : ℕ → Bool) (now conn : ℕ) (k : Text) (u : User) (r : Room D W)
      → get r.users k ≡ some u
      → IsValid (resume is_open now conn k u (cancel_empty_grace r)).0
      → let o = resume is_open now conn k u (cancel_empty_grace r) in Resumes r o.0 k u conn o.1
  unfolding resume cancel_empty_grace
  resume_lem is_open now conn k u r here v =
      let there : get (alter (rebind conn now) k r.users) k ≡ some (rebind conn now u) =
        get-alter_self (rebind conn now) r.users k here in
      record {
        user = rebind conn now u;
        to_close = to_close is_open conn u.connection;
        outcome = refl;
        in_room = there;
        identity = record {
          user_id = refl;
          display_name = refl;
          session_token = refl;
          client_id = refl;
          joined_at = refl;
        };
        on_socket = refl;
        is_online = refl;
        awake = refl;
        number_kept = refl;
        contents = record {
          room_instance_id = refl;
          documents = refl;
          files = refl;
          uploads = refl;
          op_seq = refl;
        };
        no_removal = λ i pending. ground (arith, v.timed.removals k i, there);
      }

  -- In a valid room a token gives back the user that holds it, connected or not: identity, contents
  -- and join counter are kept, the user is connected to the new socket, the room is ACTIVE, and no
  -- removal of the user is pending. The token is taken to be held by this user alone and not to be
  -- empty, the id drawn to be new, and MAX_USERS_PER_ROOM to be at least 1.
  pub join-Resumes :
      (is_open : ℕ → Bool) (cfg : Settings) (now : ℕ) (fresh : Fresh) (conn : ℕ)
      (name : Option Text) (r : Room D W) (k : Text) (u : User)
      → IsValid r
      → 0 < cfg.max_users_per_room
      → get r.users fresh.user_id ≡ none
      → get r.users k ≡ some u
      → u.session_token ≢ []
      → HoldsAlone r k u
      → let o = join is_open cfg now fresh conn (some u.session_token) name r in
        Resumes r o.0 k u conn o.1
  join-Resumes is_open cfg now fresh conn name r k u v room new here real alone =
      subst (λ o. Resumes r o.0 k u conn o.1)
        (sym (
          join-eq-resume is_open cfg now fresh conn (some u.session_token) name r k u
            (IsValid-joinable r v) (find_by_token_self r k u v here real alone)))
        (resume_lem is_open now conn k u r here (
          subst (λ o. IsValid o.0)
            (join-eq-resume is_open cfg now fresh conn (some u.session_token) name r k u
              (IsValid-joinable r v) (find_by_token_self r k u v here real alone))
            (join-IsValid is_open cfg now fresh conn (some u.session_token) name r v room new)))
