-- ===== src/Rooms/Instance/Admission.antt =====
-- The ways in which `join` of backend/app/rooms/instance.py ends, and the invariant.
use ephemeral_rooms.Prelude.{
  ℕ, ◌<◌, ◌≡◌, refl, Bool, true, Option, none, some, arith, Text, inl, inr, Bool-cases, leb, length,
}
use ephemeral_rooms.Config.{Settings}
use ephemeral_rooms.Dict.{get, put, alter, get-put_self, get-alter_self}
use ephemeral_rooms.Rooms.Types.{User}
use ephemeral_rooms.Rooms.Instance.State.{Room, cancel_empty_grace, find_by_token, is_joinable}
use ephemeral_rooms.Rooms.Instance.Join.{
  Fresh, JoinOutcome, join, resume, rebind, admit, admit_or_refuse, new_user, or_empty,
}
use ephemeral_rooms.Rooms.Instance.Presence.{connected_in, connected_in-some, find_token_in_sound}
use ephemeral_rooms.Rooms.Instance.Timers.{Timed, cancel_grace-Timed, clear-Timed, put-Timed}
use ephemeral_rooms.Rooms.Instance.Invariant.{IsValid, Members}
use ephemeral_rooms.Rooms.Instance.Members.{alter-Members, put-Members}

module _ {D W : Type 0} where
  cancel_empty_grace-Timed :
      (r : Room D W) → IsValid r → let r' = cancel_empty_grace r in Timed r'.users none r'.clock
  unfolding cancel_empty_grace
  cancel_empty_grace-Timed r v = cancel_grace-Timed v.timed

  -- Binding a user to a socket makes the room active with somebody in it.
  resume-IsValid :
      (is_open : ℕ → Bool) (now conn : ℕ) (k : Text) (u : User) (r : Room D W)
      → Timed r.users none r.clock
      → Members r.users r.join_seq
      → r.empty_grace_timer ≡ none
      → get r.users k ≡ some u
      → IsValid (resume is_open now conn k u r).0
  unfolding resume rebind
  resume-IsValid is_open now conn k u r t m off here = record {
    timed = rw off (rw here at (clear-Timed t k (rebind conn now) (λ x. refl)));
    members = alter-Members m (rebind conn now) k (λ x. refl) (λ x. refl) (λ x. (refl, refl));
    phase = (
      off,
      inl (
          connected_in-some (alter (rebind conn now) k r.users) k (rebind conn now u)
            (get-alter_self (rebind conn now) r.users k here) refl),
    );
  }

  admit-IsValid :
      (now : ℕ) (fresh : Fresh) (conn : ℕ) (name : Option Text) (r : Room D W)
      → Timed r.users none r.clock
      → Members r.users r.join_seq
      → r.empty_grace_timer ≡ none
      → get r.users fresh.user_id ≡ none
      → IsValid (admit now fresh conn name r).0
  unfolding admit
  admit-IsValid now fresh conn name r t m off new =
      let user = new_user now fresh conn name r in
      record {
        timed = rw off (put-Timed t fresh.user_id user new refl);
        members = put-Members m user new refl (refl, refl);
        phase = (
          off,
          inl (
              connected_in-some (put r.users fresh.user_id user) fresh.user_id user
                (get-put_self r.users fresh.user_id user) refl),
        );
      }

  -- A room that is full has somebody in it, so it was not about to close.
  full-IsValid :
      (cfg : Settings) (r : Room D W)
      → IsValid r
      → 0 < cfg.max_users_per_room
      → leb cfg.max_users_per_room (length (connected_in r.users)) ≡ true
      → IsValid (cancel_empty_grace r)
  unfolding cancel_empty_grace
  full-IsValid cfg r v room full = record {
    timed = cancel_grace-Timed v.timed;
    members = v.members;
    phase = ground (arith, v.phase);
  }

  admit_or_refuse-IsValid :
      (cfg : Settings) (now : ℕ) (fresh : Fresh) (conn : ℕ) (name : Option Text) (r : Room D W)
      → IsValid r
      → 0 < cfg.max_users_per_room
      → get r.users fresh.user_id ≡ none
      → IsValid (admit_or_refuse cfg now fresh conn name (cancel_empty_grace r)).0
  admit_or_refuse-IsValid cfg now fresh conn name r v room new =
      elim (Bool-cases (leb cfg.max_users_per_room (length (connected_in r.users)))) [
        | inl full ↦
            unfold admit_or_refuse cancel_empty_grace in rw full (full-IsValid cfg r v room full)
        | inr space ↦
            unfold admit_or_refuse cancel_empty_grace in
            rw space (
              admit-IsValid now fresh conn name (cancel_empty_grace r) (cancel_grace-Timed v.timed)
                v.members refl new)
      ]

  -- A valid room admits joins.
  pub IsValid-joinable : (r : Room D W) → IsValid r → is_joinable r ≡ true
  unfolding is_joinable
  IsValid-joinable r v = ground (arith, v.phase)

  -- A join of a joinable room is a resume of the token's user, or the admission of a new one.
  pub join_cases :
      (P : Room D W × JoinOutcome → Type 0) (is_open : ℕ → Bool) (cfg : Settings) (now : ℕ)
      (fresh : Fresh) (conn : ℕ) (token name : Option Text) (r : Room D W)
      → is_joinable r ≡ true
      → ((k : Text) (u : User)
          → find_by_token r (or_empty token) ≡ some (k, u)
          → P (resume is_open now conn k u (cancel_empty_grace r)))
      → (find_by_token r (or_empty token) ≡ none
          → P (admit_or_refuse cfg now fresh conn name (cancel_empty_grace r)))
      → P (join is_open cfg now fresh conn token name r)
  unfolding join
  join_cases P is_open cfg now fresh conn token name r open_room resumes admits =
      rw (open_room, join) (go (find_by_token r (or_empty token)) refl)
    where
      go :
          (o : Option (Text × User))
          → find_by_token r (or_empty token) ≡ o
          → P (elim o [
            | some (key, existing) ↦ resume is_open now conn key existing (cancel_empty_grace r)
            | none ↦ admit_or_refuse cfg now fresh conn name (cancel_empty_grace r)
          ])
      go none e = admits e
      go (some (k, u)) e = resumes k u e

  -- The user that a token finds is in the room, under its id, and holds the token.
  pub find_by_token_sound :
      (r : Room D W) (token k : Text) (u : User)
      → Members r.users r.join_seq
      → find_by_token r token ≡ some (k, u)
      → (get r.users k ≡ some u) × (u.session_token ≡ token)
  unfolding find_by_token
  find_by_token_sound r token k u m e =
      find_token_in_sound r.users token k u m.distinct (ground arith)

  pub join-IsValid :
      (is_open : ℕ → Bool) (cfg : Settings) (now : ℕ) (fresh : Fresh) (conn : ℕ)
      (token name : Option Text) (r : Room D W)
      → IsValid r
      → 0 < cfg.max_users_per_room
      → get r.users fresh.user_id ≡ none
      → IsValid (join is_open cfg now fresh conn token name r).0
  join-IsValid is_open cfg now fresh conn token name r v room new =
      join_cases (λ o. IsValid o.0) is_open cfg now fresh conn token name r (IsValid-joinable r v)
        (λ k u e.
          resume-IsValid is_open now conn k u (cancel_empty_grace r) (cancel_empty_grace-Timed r v)
            (unfold cancel_empty_grace in v.members) (unfold cancel_empty_grace in refl)
            (unfold cancel_empty_grace in
              (find_by_token_sound r (or_empty token) k u v.members e).0))
        (λ e. admit_or_refuse-IsValid cfg now fresh conn name r v room new)
